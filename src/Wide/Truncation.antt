-- ===== src/Wide/Truncation.antt =====
-- Truncation to a width.
use libfep.Base.{
  ℕ, ◌+◌, ◌≤◌, ◌<◌, ◌≡◌, refl, ap, inl, inr, some, List, All, Bytes, [], ◌∷◌, ◌++◌, length, ltb,
  arith, Bool-cases, length-append,
}
use libfep.Base.Int.{pos}
use libfep.Wide.{Locale, fitting, strtrunc}
use libfep.Wide.Pieces.{all_bytes, all_bytes-append, Faithful, wcsrtombs_whole}

-- The columns of characters that are all printable.
abbrev pub columns : (ℕ → ℕ) → List ℕ → ℕ
columns width [] = 0
columns width (c ∷ wcs) = width c + columns width wcs

-- The next character, if there is one, goes past the limit.
abbrev pub Overflows : (ℕ → ℕ) → ℕ → ℕ → List ℕ → Type 0
Overflows width used limit [] = Unit
Overflows width used limit (c ∷ rest) = limit < used + width c

module _ (locale : Locale) (width : ℕ → ℕ) where
  -- Each of the characters is printable, and so many columns wide.
  abbrev pub Printable : List ℕ → Type 0
  Printable wcs = All (λ c. locale.wcwidth c ≡ pos (width c)) wcs

  over_sum :
      (a b c limit : ℕ) (rest : List ℕ)
      → Overflows width (a + b + c) limit rest
      → Overflows width (a + (b + c)) limit rest
  over_sum a b c limit [] h = tt
  over_sum a b c limit (d ∷ rest) h = omega arith

  over_zero :
      (b limit : ℕ) (rest : List ℕ)
      → Overflows width (0 + b) limit rest
      → Overflows width b limit rest
  over_zero b limit [] h = tt
  over_zero b limit (d ∷ rest) h = omega arith

  -- The characters that fit, and why the next one does not.
  record Fits (wcs kept : List ℕ) (total limit : ℕ) : Type 0 where
    rest : List ℕ
    splits : kept ++ rest ≡ wcs
    within : total + columns width kept ≤ limit
    maximal : Overflows width (total + columns width kept) limit rest

  fitting-Fits :
      (wcs : List ℕ) (total limit : ℕ)
      → Printable wcs
      → total ≤ limit
      → Fits wcs (fitting locale wcs (pos total) (pos limit)) total limit
  unfolding fitting
  fitting-Fits [] total limit printable h = record {
    rest = [];
    splits = refl;
    within = omega arith;
    maximal = tt;
  }
  fitting-Fits (c ∷ wcs) total limit (printable, others) h =
      rw printable (elim (Bool-cases (ltb limit (total + width c))) [
        | inl over ↦
            rw over (record {
              rest = c ∷ wcs;
              splits = refl;
              within = omega arith;
              maximal = ground arith;
            })
        | inr fits ↦
            let v = fitting-Fits wcs (total + width c) limit others (ground arith) in
            rw fits (record {
              rest = v.rest;
              splits = ap (◌∷◌ c) v.splits;
              within = omega (arith, v.within);
              maximal =
                  over_sum total (width c)
                    (columns width (fitting locale wcs (pos (total + width c)) (pos limit))) limit
                    v.rest v.maximal;
            })
      ])

  -- `_fep_strtrunc` returns the longest front part of the string, in whole characters, that is no
  -- wider than the given width, in an encoding without states and where each character of the
  -- string is printable.
  pub strtrunc-longest :
      (s : Bytes) (wcs : List ℕ) (limit : ℕ)
      → Faithful locale
      → locale.to_wide s ≡ some wcs
      → Printable wcs
      → (kept rest : List ℕ) × (strtrunc locale s (pos limit) ≡ some (all_bytes locale kept))
        × (kept ++ rest ≡ wcs)
        × (columns width kept ≤ limit)
        × Overflows width (columns width kept) limit rest
  strtrunc-longest s wcs limit f e printable =
      let v = fitting-Fits wcs 0 limit printable (omega arith) in
      let kept = fitting locale wcs (pos 0) (pos limit) in
      (
        kept,
        v.rest,
        unfold strtrunc in
            rw (e, strtrunc)
              (ap some (
                wcsrtombs_whole locale kept (length s) (
                  omega (
                    arith,
                    ap length (f s wcs e),
                    ap (λ w. length (all_bytes locale w)) v.splits,
                    ap length (all_bytes-append locale kept v.rest),
                    length-append (all_bytes locale kept) (all_bytes locale v.rest),
                  )))),
        v.splits,
        omega (arith, v.within),
        over_zero (columns width kept) limit v.rest v.maximal,
      )
