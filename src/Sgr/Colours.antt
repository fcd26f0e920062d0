-- ===== src/Sgr/Colours.antt =====
-- Colours as SGR parameters, and back.
use libfep.Base.{
  ℕ, ◌+◌, ◌-◌, ◌^◌, ◌<◌, ◌%◌, ◌≡◌, sym, ap, ◌∙◌, inl, inr, Bool, true, false, ◌||◌, Bool-cases,
  List, Bytes, [], ◌∷◌, if◌then◌else◌, ◌==◌, ==_iff, ltb, within, ok, arith, append-nil,
}
use libfep.Number.{decimal, strtoul}
use libfep.Number.RoundTrip.{strtoul-decimal}
use libfep.Sgr.{
  SgrParam, enter_underline, exit_underline, enter_standout, exit_standout, enter_bold, enter_blink,
  orig_pair, orig_fore, orig_back, SgrCodes, SgrAttr, apply_param, checked_param, int_text,
  params_to_attr_from, params_to_attr, params_from_attr,
}

-- A foreground parameter; a background one is ten more.
abbrev pub is_colour : ℕ → Bool
is_colour n = within 30 37 n || within 90 97 n

abbrev pub takes_colour : ℕ → Bool
takes_colour n = is_colour n || (within 40 47 n || within 100 107 n)

-- No code of the terminal is a colour's parameter.
abbrev pub Apart : SgrCodes → Type 0
Apart codes = (q : SgrParam) → takes_colour (codes q) ≡ false

differs : (n c : ℕ) → takes_colour n ≡ true → takes_colour c ≡ false → (n == c) ≡ false
differs n c h k = elim (Bool-cases (n == c)) [
  | inl same ↦ let e = (==_iff n c).0 same in cc
  | inr other ↦ other
]

checked_param-int_text : (n : ℕ) → n < 2 ^ 31 → checked_param (strtoul (int_text n)) ≡ ok n
checked_param-int_text n h =
    let small : ltb n (2 ^ 31) ≡ true = ground arith in
    rw small (
      ap (λ s. checked_param (strtoul s)) (sym (append-nil (decimal n)))
      ∙ ap checked_param (strtoul-decimal n [] (omega arith) tt)
      ∙ ground arith)

pub read_param :
    (codes : SgrCodes) (n : ℕ) (a : SgrAttr) (params : List Bytes)
    → n < 2 ^ 31
    → params_to_attr_from codes a (int_text n ∷ params)
      ≡ params_to_attr_from codes (apply_param codes n a) params
unfolding params_to_attr_from
read_param codes n a params h = rw (checked_param-int_text n h)

module _ (codes : SgrCodes) (apart : Apart codes) where
  -- A colour's parameter passes all tests for the codes.
  apply_param-takes_colour :
      (n : ℕ) (a : SgrAttr)
      → takes_colour n ≡ true
      → apply_param codes n a ≡ (
          if is_colour n
          then record a { foreground = n }
          else if within 40 47 n || within 100 107 n
          then record a { background = n - 10 }
          else a)
  unfolding apply_param
  apply_param-takes_colour n a h =
      let nonzero : (n == 0) ≡ false = ground arith in
      let not_22 : (n == 22) ≡ false = ground arith in
      let not_25 : (n == 25) ≡ false = ground arith in
      rw (
        nonzero,
        differs n (codes enter_underline) h (apart enter_underline),
        differs n (codes exit_underline) h (apart exit_underline),
        differs n (codes enter_standout) h (apart enter_standout),
        differs n (codes exit_standout) h (apart exit_standout),
        differs n (codes enter_bold) h (apart enter_bold),
        differs n (codes enter_blink) h (apart enter_blink),
        differs n (codes orig_pair) h (apart orig_pair),
        differs n (codes orig_fore) h (apart orig_fore),
        differs n (codes orig_back) h (apart orig_back),
        not_22,
        not_25,
      )

  apply_foreground :
      (n : ℕ) (a : SgrAttr)
      → is_colour n ≡ true
      → apply_param codes n a ≡ record a { foreground = n }
  apply_foreground n a h =
      let colour : takes_colour n ≡ true = ground arith in
      apply_param-takes_colour n a colour ∙ rw h

  apply_background :
      (n : ℕ) (a : SgrAttr)
      → is_colour n ≡ true
      → apply_param codes (n + 10) a ≡ record a { background = n }
  apply_background n a h =
      let colour : takes_colour (n + 10) ≡ true = ground arith in
      let not_fore : is_colour (n + 10) ≡ false = ground arith in
      let back : (within 40 47 (n + 10) || within 100 107 (n + 10)) ≡ true = ground arith in
      let same : n + 10 - 10 ≡ n = omega arith in
      apply_param-takes_colour (n + 10) a colour ∙ rw (not_fore, back, same)

  colour_small : (n : ℕ) → is_colour n ≡ true → n < 2 ^ 31 - 10
  colour_small n h = ground arith

  colour_nonzero : (n : ℕ) → is_colour n ≡ true → (n == 0) ≡ false
  colour_nonzero n h = ground arith

  -- Colours are read back from the parameters that they are printed as, in an attribute with no
  -- other bits, with both colours from the sixteen, if no code of the terminal is a colour's
  -- parameter.
  pub params_to_attr-params_from_attr :
      (fore back : ℕ)
      → is_colour fore ≡ true
      → is_colour back ≡ true
      → params_to_attr codes
          (params_from_attr codes (record { attr = 0; foreground = fore; background = back }))
        ≡ ok (record { attr = 0; foreground = fore; background = back })
  unfolding params_to_attr params_to_attr_from params_from_attr
  params_to_attr-params_from_attr fore back hf hb =
      let wrapped : (back + 10) % 2 ^ 32 ≡ back + 10 = omega (arith, colour_small back hb) in
      rw (
        colour_nonzero fore hf,
        colour_nonzero back hb,
        wrapped,
        read_param codes fore (record { attr = 0; foreground = 0; background = 0 })
            (int_text (back + 10) ∷ []) (omega (arith, colour_small fore hf)),
        apply_foreground fore (record { attr = 0; foreground = 0; background = 0 }) hf,
        read_param codes (back + 10) (record { attr = 0; foreground = fore; background = 0 }) []
            (omega (arith, colour_small back hb)),
        apply_background back (record { attr = 0; foreground = fore; background = 0 }) hb,
      )
