-- ===== src/Wire/Length.antt =====
-- The length word of an argument: when the reader gets it right, and when it does not.
use libfep.Base.{
  ℕ, ◌+◌, ◌-◌, ◌*◌, ◌/◌, ◌%◌, ◌^◌, ◌≤◌, ◌<◌, ◌≡◌, refl, ap, ap₂, ◌∙◌, Bool, true, false, bit_or,
  arith, ok,
}
use libfep.Base.Bits.{bit_or_disjoint, le-bit_or}
use libfep.Message.{le32}
use native.Mathlib.Nat.{mod-eq_of_lt}
use libfep.Wire.{int_of_char, decode_length, length_of_word}

-- A length that survives: where `char` is signed, none of its three low bytes has the top bit.
abbrev pub IsPlain : Bool → ℕ → Type 0
IsPlain true v = (v < 2 ^ 32) × (v % 256 < 128) × (v / 2 ^ 8 % 256 < 128) × (v / 2 ^ 16 % 256 < 128)
IsPlain false v = v < 2 ^ 32

-- Bytes below 256 at four places, put together by `|`.
or_bytes :
    (a b c d : ℕ)
    → a < 256
    → b < 256
    → c < 256
    → bit_or (bit_or (bit_or (d * 2 ^ 24) (c * 2 ^ 16)) (b * 2 ^ 8)) a
      ≡ d * 2 ^ 24 + c * 2 ^ 16 + b * 2 ^ 8 + a
or_bytes a b c d ha hb hc =
    let e1 : bit_or (d * 2 ^ 24) (c * 2 ^ 16) ≡ (d * 2 ^ 8 + c) * 2 ^ 16 =
      bit_or_disjoint 24 d (c * 2 ^ 16) (omega arith) ∙ omega arith in
    let e2 : bit_or ((d * 2 ^ 8 + c) * 2 ^ 16) (b * 2 ^ 8) ≡ (d * 2 ^ 16 + c * 2 ^ 8 + b) * 2 ^ 8 =
      bit_or_disjoint 16 (d * 2 ^ 8 + c) (b * 2 ^ 8) (omega arith) ∙ omega arith in
    rw (e1, e2) (bit_or_disjoint 8 (d * 2 ^ 16 + c * 2 ^ 8 + b) a ha ∙ omega arith)

-- A byte that the sign does not reach, at each of the four places.
abbrev Clean : Bool → ℕ → Type 0
Clean signed b = int_of_char signed b ≡ b

Clean-low : (b : ℕ) → b < 128 → Clean true b
unfolding int_of_char
Clean-low b h = ground arith

int_of_char_shifted :
    (signed : Bool) (b : ℕ) → b < 256 → int_of_char signed b * 2 ^ 24 % 2 ^ 32 ≡ b * 2 ^ 24
unfolding int_of_char
int_of_char_shifted true b h = ground arith
int_of_char_shifted false b h = omega arith

decode_length-le32 :
    (signed : Bool) (v : ℕ)
    → v < 2 ^ 32
    → Clean signed (v % 256)
    → Clean signed (v / 2 ^ 8 % 256)
    → Clean signed (v / 2 ^ 16 % 256)
    → length_of_word signed (le32 v) ≡ ok v
unfolding length_of_word decode_length
decode_length-le32 signed v h c0 c1 c2 = ap ok (
    rw (int_of_char_shifted signed (v / 2 ^ 24 % 256) (omega arith), c2, c1, c0)
      (ap₂ (λ x y. bit_or (bit_or (bit_or (v / 2 ^ 24 % 256 * 2 ^ 24) x) y) (v % 256))
          (mod-eq_of_lt {n = v / 2 ^ 16 % 256 * 2 ^ 16} {m = 2 ^ 32} (omega arith))
          (mod-eq_of_lt {n = v / 2 ^ 8 % 256 * 2 ^ 8} {m = 2 ^ 32} (omega arith))
        ∙ or_bytes (v % 256) (v / 2 ^ 8 % 256) (v / 2 ^ 16 % 256) (v / 2 ^ 24 % 256) (omega arith)
            (omega arith) (omega arith)
        ∙ omega arith))

-- The length word of a plain length is read as that length.
pub length_of_word-le32 :
    (signed : Bool) (v : ℕ) → IsPlain signed v → length_of_word signed (le32 v) ≡ ok v
length_of_word-le32 true v (h, h0, h1, h2) =
    decode_length-le32 true v h (Clean-low (v % 256) h0) (Clean-low (v / 2 ^ 8 % 256) h1)
      (Clean-low (v / 2 ^ 16 % 256) h2)
length_of_word-le32 false v h = decode_length-le32 false v h (clean _) (clean _) (clean _)
  where
    clean : (b : ℕ) → Clean false b
    clean b = unfold int_of_char in refl

large_low : (x b : ℕ) → 128 ≤ b → 2 ^ 32 - 128 ≤ bit_or x (int_of_char true b)
unfolding int_of_char
large_low x b h = ground (arith, le-bit_or x (b + (2 ^ 32 - 256)))

decode_length_large : (b0 b1 b2 b3 : ℕ) → 128 ≤ b0 → 2 ^ 32 - 128 ≤ decode_length true b0 b1 b2 b3
unfolding decode_length
decode_length_large b0 b1 b2 b3 h = large_low _ b0 h

-- Where `char` is signed, a length whose low byte is 128 or more is read as one of at least
-- 2^32 - 128 bytes, whatever it was, since the sign of that byte is extended over the whole word.
pub length_of_word_large :
    (v : ℕ) → 128 ≤ v % 256 → (n : ℕ) × (length_of_word true (le32 v) ≡ ok n) × (2 ^ 32 - 128 ≤ n)
unfolding length_of_word
length_of_word_large v h = (
  decode_length true (v % 256) (v / 2 ^ 8 % 256) (v / 2 ^ 16 % 256) (v / 2 ^ 24 % 256),
  refl,
  decode_length_large (v % 256) (v / 2 ^ 8 % 256) (v / 2 ^ 16 % 256) (v / 2 ^ 24 % 256) h,
)
