-- ===== src/Number.antt =====
-- `%d` at a number that is not negative, and `strtoul (s, &endptr, 10)`, as the C library has them.
pub mod RoundTrip
use libfep.Base.{
  ℕ, zero, suc, ◌+◌, ◌-◌, ◌*◌, ◌/◌, ◌%◌, ◌^◌, Bool, true, false, ◌||◌, Bytes, [], ◌∷◌, ◌++◌, ◌==◌,
  ltb, leb, within, if◌then◌else◌,
}

abbrev pub digit : ℕ → ℕ
digit d = b'0' + d

abbrev pub is_digit : ℕ → Bool
is_digit = within b'0' b'9'

-- `n / 10` falls, so `n + 1` rounds are enough.
unfoldable pub decimal_fuel : ℕ → ℕ → Bytes
decimal_fuel zero n = []
decimal_fuel (suc f) n =
    let more = decimal_fuel f (n / 10) ++ digit (n % 10) ∷ [] in
    if ltb n 10 then digit n ∷ [] else more

unfoldable pub decimal : ℕ → Bytes
unfolding decimal_fuel
decimal n = decimal_fuel (suc n) n

-- `isspace`
abbrev pub is_space : ℕ → Bool
is_space c = c == b' ' || within 9 13 c

-- The value, `*endptr`, and whether `errno` is set to ERANGE.
pub record Strtoul : Type 0 where
  pub value : ℕ
  pub rest : Bytes
  pub range_error : Bool

unfoldable pub skip_spaces : Bytes → Bytes
skip_spaces [] = []
skip_spaces (c ∷ s) = if is_space c then skip_spaces s else c ∷ s

-- The digits read on from a value, and what follows them.
unfoldable pub read_digits : ℕ → Bytes → ℕ × Bytes
read_digits v [] = (v, [])
read_digits v (c ∷ s) =
    let more = read_digits (v * 10 + (c - b'0')) s in if is_digit c then more else (v, c ∷ s)

abbrev pub finish : Bool → ℕ × Bytes → Strtoul
finish negative (v, rest) =
    if leb (2 ^ 64) v
    then record { value = 2 ^ 64 - 1; rest = rest; range_error = true }
    else record {
      value = (if negative then (2 ^ 64 - v) % 2 ^ 64 else v);
      rest = rest;
      range_error = false;
    }

-- With no digit at all, `*endptr` is the start of the string.
abbrev pub unsigned_part : Bytes → Bool → Bytes → Strtoul
unsigned_part str negative [] = record { value = 0; rest = str; range_error = false }
unsigned_part str negative (c ∷ s) =
    if is_digit c
    then finish negative (read_digits 0 (c ∷ s))
    else record { value = 0; rest = str; range_error = false }

abbrev pub signed_part : Bytes → Bytes → Strtoul
signed_part str [] = unsigned_part str false []
signed_part str (c ∷ s) =
    if c == b'-'
    then unsigned_part str true s
    else if c == b'+'
    then unsigned_part str false s
    else unsigned_part str false (c ∷ s)

unfoldable pub strtoul : Bytes → Strtoul
unfolding skip_spaces read_digits
strtoul str = signed_part str (skip_spaces str)
