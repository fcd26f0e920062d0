-- ===== src/Tests/Texts.antt =====
-- Text in the locale's encoding, at fixed inputs.
use libfep.Base.{
  ℕ, ◌≡◌, ◌≤◌, refl, some, some-injective, List, Bytes, [], ◌∷◌, ◌++◌, ap, ◌∙◌, sym, ltb, ◌==◌,
  if◌then◌else◌,
}
use libfep.Base.Int.{pos, negsuc}
use libfep.Wide.{Locale, strtrunc}
use libfep.Wide.Pieces.{all_bytes, Faithful}
use libfep.Wide.Truncation.{columns, Overflows, strtrunc-longest}

-- One byte is one character, two columns wide.
abbrev pub wide_bytes : Locale
wide_bytes = record {
  to_wide = λ s. some s;
  stored_on_error = λ s. s;
  to_bytes = λ c. c ∷ [];
  wcwidth = λ c. pos 2;
}

all_bytes-wide_bytes : (s : Bytes) → all_bytes wide_bytes s ≡ s
unfolding all_bytes
all_bytes-wide_bytes [] = refl
all_bytes-wide_bytes (c ∷ s) = ap (◌∷◌ c) (all_bytes-wide_bytes s)

pub wide_bytes-Faithful : Faithful wide_bytes
wide_bytes-Faithful s wcs e = all_bytes-wide_bytes wcs ∙ sym (some-injective _ _ e)

-- A tab is not printable, and an ideograph is two columns wide.
abbrev eastern : Locale
eastern = record wide_bytes {
  wcwidth = λ c. if c == 9 then negsuc 0 else if ltb c 128 then pos 1 else pos 2;
}

abbrev eastern_width : ℕ → ℕ
eastern_width c = if ltb c 128 then 1 else 2

abbrev mixed : Bytes
mixed = 97 ∷ 200 ∷ 99 ∷ []

all_bytes-eastern : (s : Bytes) → all_bytes eastern s ≡ s
unfolding all_bytes
all_bytes-eastern [] = refl
all_bytes-eastern (c ∷ s) = ap (◌∷◌ c) (all_bytes-eastern s)

eastern-Faithful : Faithful eastern
eastern-Faithful s wcs e = all_bytes-eastern wcs ∙ sym (some-injective _ _ e)

strtrunc-longest_example :
    (kept rest : List ℕ) × (strtrunc eastern mixed (pos 2) ≡ some (all_bytes eastern kept))
    × (kept ++ rest ≡ mixed)
    × (columns eastern_width kept ≤ 2)
    × Overflows eastern_width (columns eastern_width kept) 2 rest
strtrunc-longest_example =
    strtrunc-longest eastern eastern_width mixed mixed 2 eastern-Faithful refl
      (refl, (refl, (refl, tt)))
