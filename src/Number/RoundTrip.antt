-- ===== src/Number/RoundTrip.antt =====
-- A printed number is read back.
use libfep.Base.{
  ℕ, zero, suc, ◌+◌, ◌*◌, ◌/◌, ◌%◌, ◌^◌, ◌<◌, ◌≡◌, refl, ap, ◌∙◌, true, false, Bytes, [], ◌∷◌, ◌++◌,
  ◌==◌, ltb, arith, Bool-cases, inl, inr, append_assoc, ltb→lt,
}
use libfep.Number.{digit, is_digit, decimal_fuel, decimal, is_space, read_digits, finish, strtoul}

-- No digit comes next.
abbrev pub NoDigit : Bytes → Type 0
NoDigit [] = Unit
NoDigit (c ∷ s) = is_digit c ≡ false

read_digits-digit :
    (v d : ℕ) (s : Bytes) → d < 10 → read_digits v (digit d ∷ s) ≡ read_digits (v * 10 + d) s
unfolding read_digits
read_digits-digit v d s h =
    let hit : is_digit (digit d) ≡ true = ground arith in
    rw hit (ap (λ k. read_digits (v * 10 + k) s) (omega arith))

read_digits-decimal :
    (f n : ℕ) (s : Bytes) → n < f → read_digits 0 (decimal_fuel f n ++ s) ≡ read_digits n s
unfolding decimal_fuel
read_digits-decimal zero n s h = absurd (omega arith)
read_digits-decimal (suc f) n s h = elim (Bool-cases (ltb n 10)) [
  | inl small ↦
      rw small
        (read_digits-digit 0 n s (ltb→lt n 10 small) ∙ ap (λ k. read_digits k s) (omega arith))
  | inr big ↦ rw big (
      rw append_assoc (
        read_digits-decimal f (n / 10) (digit (n % 10) ∷ s) (ground arith)
        ∙ read_digits-digit (n / 10) (n % 10) s (omega arith)
        ∙ ap (λ k. read_digits k s) (omega arith)))
]

-- The printed form starts with a digit.
abbrev Starts : Bytes → Type 0
Starts [] = ⊥
Starts (c ∷ s) = is_digit c ≡ true

Starts-append : (s t : Bytes) → Starts s → Starts (s ++ t)
Starts-append [] t h = elim h [ ]
Starts-append (c ∷ s) t h = h

decimal_fuel-Starts : (f n : ℕ) → n < f → Starts (decimal_fuel f n)
unfolding decimal_fuel
decimal_fuel-Starts zero n h = absurd (omega arith)
decimal_fuel-Starts (suc f) n h = elim (Bool-cases (ltb n 10)) [
  | inl small ↦ rw small (ground arith)
  | inr big ↦ rw big (
      Starts-append (decimal_fuel f (n / 10)) (digit (n % 10) ∷ [])
        (decimal_fuel-Starts f (n / 10) (ground arith)))
]

-- At a digit, `strtoul` reads digits and nothing else.
strtoul-Starts : (s : Bytes) → Starts s → strtoul s ≡ finish false (read_digits 0 s)
unfolding strtoul
strtoul-Starts [] h = elim h [ ]
strtoul-Starts (c ∷ s) h =
    let no_space : is_space c ≡ false = ground arith in
    let no_minus : (c == b'-') ≡ false = ground arith in
    let no_plus : (c == b'+') ≡ false = ground arith in rw (no_space, no_minus, no_plus, h)

-- `strtoul` reads a printed number back, and stops behind it, if it is below 2^64 and no digit
-- follows.
pub strtoul-decimal :
    (n : ℕ) (s : Bytes)
    → n < 2 ^ 64
    → NoDigit s
    → strtoul (decimal n ++ s) ≡ record { value = n; rest = s; range_error = false }
unfolding decimal
strtoul-decimal n s h k =
    strtoul-Starts (decimal_fuel (suc n) n ++ s)
      (Starts-append (decimal_fuel (suc n) n) s (decimal_fuel-Starts (suc n) n (omega arith)))
    ∙ ap (finish false) (read_digits-decimal (suc n) n s (omega arith) ∙ stop n s k)
    ∙ ground arith
  where
    stop : (v : ℕ) (s : Bytes) → NoDigit s → read_digits v s ≡ (v, s)
    stop v [] k = unfold read_digits in refl
    stop v (c ∷ s) k = unfold read_digits in rw k
