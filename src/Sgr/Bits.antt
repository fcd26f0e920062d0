-- ===== src/Sgr/Bits.antt =====
-- The bits of an attribute: how they are written, and how they are read.
use libfep.Base.{
  ℕ, ◌<◌, ◌^◌, ◌≡◌, false, List, [], ◌∷◌, map, bit_or, ◌==◌, if◌then◌else◌, ok, arith,
}
use libfep.Message.{Attribute}
use libfep.Sgr.{
  enter_underline, exit_underline, enter_standout, exit_standout, enter_bold, enter_blink, SgrCodes,
  no_attr, attr_underline, attr_bold, apply_param, int_text, attr_from_attribute, params_from_attr,
  params_to_attr, params_to_attr_from,
}
use libfep.Sgr.Colours.{read_param}

-- The codes that an attribute of a client stands for.
abbrev pub codes_for : SgrCodes → Attribute → List ℕ
codes_for codes attr =
    if attr.value == 0
    then []
    else if attr.type == 0
    then codes enter_underline ∷ []
    else if attr.type == 4
    then codes enter_standout ∷ []
    else if attr.type == 5
    then codes enter_bold ∷ []
    else if attr.type == 6
    then codes enter_blink ∷ []
    else []

-- An attribute of a client is written as the one parameter that enters its mode, if it has a value
-- and is an underline, standout, bold or blink, and as no parameter otherwise; the terminal has
-- codes for the four.
pub params_from_attr-attr_from_attribute :
    (codes : SgrCodes) (attr : Attribute)
    → (codes enter_underline == 0) ≡ false
    → (codes enter_standout == 0) ≡ false
    → (codes enter_bold == 0) ≡ false
    → (codes enter_blink == 0) ≡ false
    → params_from_attr codes (attr_from_attribute attr) ≡ map int_text (codes_for codes attr)
unfolding params_from_attr attr_from_attribute
params_from_attr-attr_from_attribute codes attr u s b l = ground arith

-- A parameter that enters underline is lost, and one that enters bold is read as bold and
-- underlined, if the code for bold is not 0 and none of the codes tested before it: the reader
-- takes the numbers of the attribute types for bits.
pub params_to_attr_confuses :
    (codes : SgrCodes)
    → codes enter_underline < 2 ^ 31
    → codes enter_bold < 2 ^ 31
    → (codes enter_bold == 0) ≡ false
    → (codes enter_bold == codes enter_underline) ≡ false
    → (codes enter_bold == codes exit_underline) ≡ false
    → (codes enter_bold == codes enter_standout) ≡ false
    → (codes enter_bold == codes exit_standout) ≡ false
    → (params_to_attr codes (int_text (codes enter_underline) ∷ []) ≡ ok no_attr)
      × (params_to_attr codes (int_text (codes enter_bold) ∷ [])
          ≡ ok (record no_attr { attr = bit_or attr_underline attr_bold }))
unfolding params_to_attr params_to_attr_from apply_param
params_to_attr_confuses codes hu hb z a b c d = (
  rw (read_param codes (codes enter_underline) no_attr [] hu) (ground arith),
  rw (read_param codes (codes enter_bold) no_attr [] hb) (ground arith),
)
