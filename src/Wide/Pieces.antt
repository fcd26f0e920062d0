-- ===== src/Wide/Pieces.antt =====
-- The pieces of a string.
use libfep.Base.{
  ℕ, zero, suc, ◌+◌, ◌-◌, ◌≤◌, ◌≡◌, refl, sym, ap, ◌∙◌, true, some, List, Bytes, [], ◌∷◌, ◌++◌,
  length, take, drop, leb, ltb, false, take-append-drop, arith, append_assoc, length-append,
  take_all,
}
use libfep.Wide.{Locale, wcsrtombs, substring}

-- The bytes of some characters.
unfoldable pub all_bytes : Locale → List ℕ → Bytes
all_bytes locale [] = []
all_bytes locale (c ∷ wcs) = locale.to_bytes c ++ all_bytes locale wcs

-- What converts to characters is made of their bytes, as in an encoding without states.
abbrev pub Faithful : Locale → Type 0
Faithful locale =
    (s : Bytes) (wcs : List ℕ) → locale.to_wide s ≡ some wcs → all_bytes locale wcs ≡ s

module _ (locale : Locale) where
  pub all_bytes-append :
      (a b : List ℕ) → all_bytes locale (a ++ b) ≡ all_bytes locale a ++ all_bytes locale b
  unfolding all_bytes
  all_bytes-append [] b = refl
  all_bytes-append (c ∷ a) b = rw (all_bytes-append a b, append_assoc)

  -- With room enough everything is converted.
  pub wcsrtombs_whole :
      (wcs : List ℕ) (room : ℕ)
      → length (all_bytes locale wcs) ≤ room
      → wcsrtombs locale wcs room ≡ all_bytes locale wcs
  unfolding wcsrtombs all_bytes
  wcsrtombs_whole [] room h = refl
  wcsrtombs_whole (c ∷ wcs) room h =
      let e : length (locale.to_bytes c ++ all_bytes locale wcs)
          ≡ length (locale.to_bytes c) + length (all_bytes locale wcs) =
        length-append (locale.to_bytes c) (all_bytes locale wcs) in
      let fits : leb (length (locale.to_bytes c)) room ≡ true = ground arith in
      rw (fits, wcsrtombs_whole wcs (room - length (locale.to_bytes c)) (omega arith))

  -- A part of a string's characters has room in as many bytes as the string.
  wcsrtombs_part :
      (s : Bytes) (wcs a b c : List ℕ)
      → all_bytes locale wcs ≡ s
      → a ++ (b ++ c) ≡ wcs
      → wcsrtombs locale b (length s) ≡ all_bytes locale b
  wcsrtombs_part s wcs a b c f e = wcsrtombs_whole b (length s) (
      omega (
        arith,
        ap length f,
        ap (λ w. length (all_bytes locale w)) e,
        ap length (all_bytes-append a (b ++ c)),
        ap length (all_bytes-append b c),
        length-append (all_bytes locale a) (all_bytes locale (b ++ c)),
        length-append (all_bytes locale b) (all_bytes locale c),
      ))

  pub take-drop_split :
      (i j : ℕ) (wcs : List ℕ) → i ≤ j → take i wcs ++ (drop i (take j wcs) ++ drop j wcs) ≡ wcs
  take-drop_split zero j wcs h = take-append-drop j wcs
  take-drop_split (suc i) zero wcs h = absurd (omega arith)
  take-drop_split (suc i) (suc j) [] h = refl
  take-drop_split (suc i) (suc j) (c ∷ wcs) h = ap (◌∷◌ c) (take-drop_split i j wcs (omega arith))

  pub substring_lem :
      (s : Bytes) (wcs : List ℕ) (i j : ℕ)
      → Faithful locale
      → locale.to_wide s ≡ some wcs
      → i ≤ j
      → j ≤ length wcs
      → substring locale s i j ≡ some (all_bytes locale (drop i (take j wcs)))
  unfolding substring
  substring_lem s wcs i j f e h k =
      let ordered : ltb j i ≡ false = ground arith in
      let start : ltb (length wcs) i ≡ false = ground arith in
      let stop : ltb (length wcs) j ≡ false = ground arith in
      rw (e, substring)
        (rw (
          ordered,
          start,
          stop,
          wcsrtombs_part s wcs (take i wcs) (drop i (take j wcs)) (drop j wcs) (f s wcs e)
              (take-drop_split i j wcs h),
        ))

  -- `_fep_substring` cuts a string at two characters into three pieces that make it up again, in an
  -- encoding without states.
  pub substring_pieces :
      (s : Bytes) (wcs : List ℕ) (i j : ℕ)
      → Faithful locale
      → locale.to_wide s ≡ some wcs
      → i ≤ j
      → j ≤ length wcs
      → (a : Bytes) × (b : Bytes) × (c : Bytes) × (substring locale s 0 i ≡ some a)
        × (substring locale s i j ≡ some b)
        × (substring locale s j (length wcs) ≡ some c)
        × (a ++ (b ++ c) ≡ s)
  substring_pieces s wcs i j f e h k = (
    all_bytes locale (take i wcs),
    all_bytes locale (drop i (take j wcs)),
    all_bytes locale (drop j wcs),
    substring_lem s wcs 0 i f e (omega arith) (omega arith),
    substring_lem s wcs i j f e h k,
    substring_lem s wcs j (length wcs) f e k (omega arith)
        ∙ ap (λ t. some (all_bytes locale (drop j t))) (take_all (length wcs) wcs (omega arith)),
    ap (◌++◌ (all_bytes locale (take i wcs)))
          (sym (all_bytes-append (drop i (take j wcs)) (drop j wcs)))
        ∙ sym (all_bytes-append (take i wcs) (drop i (take j wcs) ++ drop j wcs))
        ∙ ap (all_bytes locale) (take-drop_split i j wcs h)
        ∙ f s wcs e,
  )
