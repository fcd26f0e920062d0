-- ===== src/Wide.antt =====
-- libfep/string.c, lines 156 to 269: strings in the locale's encoding, counted, measured, cut and
-- truncated by characters. The locale is a parameter: what `mbsrtowcs` makes of a C string (`none`
-- is its result of -1), what it has stored by then, the bytes of one wide character, and its width.
-- The block of wide characters is as long as the string, which has no fewer bytes than characters.
pub mod Pieces
pub mod Truncation
use libfep.Base.{
  ℕ, ◌-◌, Bool, Option, none, some, List, Bytes, [], ◌∷◌, ◌++◌, length, take, drop, ltb, leb, ◌||◌,
  if◌then◌else◌,
}
use libfep.Base.Int.{ℤ, pos, negsuc, ◌+ℤ◌, ltℤ}

pub record Locale : Type 0 where
  pub to_wide : Bytes → Option (List ℕ)
  pub stored_on_error : Bytes → List ℕ
  pub to_bytes : ℕ → Bytes
  pub wcwidth : ℕ → ℤ

-- `wcsrtombs` into a block of `room` bytes: as many whole characters as fit.
unfoldable pub wcsrtombs : Locale → List ℕ → ℕ → Bytes
wcsrtombs locale [] room = []
wcsrtombs locale (c ∷ wcs) room =
    let rest = wcsrtombs locale wcs (room - length (locale.to_bytes c)) in
    if leb (length (locale.to_bytes c)) room then locale.to_bytes c ++ rest else []

-- `wcswidth`: -1 where a character is not printable.
abbrev pub add_width : ℤ → ℤ → ℤ
add_width (negsuc a) rest = negsuc 0
add_width (pos a) (negsuc b) = negsuc 0
add_width (pos a) (pos b) = pos a +ℤ pos b

unfoldable pub wcswidth : Locale → List ℕ → ℤ
wcswidth locale [] = pos 0
wcswidth locale (c ∷ wcs) = add_width (locale.wcwidth c) (wcswidth locale wcs)

module _ (locale : Locale) where
  -- A failed conversion is not noticed: the block ends behind what was stored.
  unfoldable pub strwidth : Bytes → ℤ
  strwidth str = elim (locale.to_wide str) [
    | none ↦ wcswidth locale (locale.stored_on_error str)
    | some wcs ↦ wcswidth locale wcs
  ]

  -- The loop of `_fep_strtrunc`: the characters before `wcs[i]` at its end.
  unfoldable pub fitting : List ℕ → ℤ → ℤ → List ℕ
  fitting [] total width = []
  fitting (c ∷ wcs) total width =
      let rest = fitting wcs (total +ℤ locale.wcwidth c) width in
      if ltℤ width (total +ℤ locale.wcwidth c) then [] else c ∷ rest

  unfoldable pub strtrunc : Bytes → ℤ → Option Bytes
  strtrunc str width = elim (locale.to_wide str) [
    | none ↦ none
    | some wcs ↦ some (wcsrtombs locale (fitting wcs (pos 0) width) (length str))
  ]

  -- `none` is the return of -1.
  unfoldable pub charcount : Bytes → Option ℕ
  charcount str = elim (locale.to_wide str) [ none ↦ none | some wcs ↦ some (length wcs) ]

  -- The characters from `from` up to `to`, in order.
  abbrev pub cut : Bytes → List ℕ → ℕ → ℕ → Option Bytes
  cut str wcs from to =
      if ltb (length wcs) from || ltb (length wcs) to
      then none
      else some (wcsrtombs locale (drop from (take to wcs)) (length str))

  unfoldable pub substring : Bytes → ℕ → ℕ → Option Bytes
  substring str from to = elim (locale.to_wide str) [
    | none ↦ none
    | some wcs ↦ if ltb to from then cut str wcs to from else cut str wcs from to
  ]
