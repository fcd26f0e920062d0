-- ===== src/Sgr.antt =====
-- fep/sgr.c, with `FepSgrParamIndex`, `FepSgrAttrType` and `struct _FepSgrAttr` of fep/private.h
-- and `FepAttrType` of libfep/attribute.h: attributes as SGR parameters and back. An `int` is its
-- 32-bit pattern. The array `sgr_codes` is a function of its index.
pub mod Colours
pub mod Bits
use Prim.Native.String.{String}
use libfep.Base.{
  ℕ, ◌+◌, ◌-◌, ◌%◌, ◌^◌, bit_and, bit_or, Bool, true, false, not, ◌&&◌, ◌||◌, Option, none, some,
  List, Bytes, [], ◌∷◌, ◌++◌, length, get_elem?, ◌==◌, ltb, within, if◌then◌else◌, Outcome, ok,
  fault, died, ◌>>=◌,
}
use libfep.Cap.{Tigetstr, cap_get_string}
use libfep.Csi.{Csi, csi_parse}
use libfep.Message.{Attribute}
use libfep.Number.{decimal, Strtoul, strtoul}
use libfep.Strv.{strsplit, strv_length}

pub data SgrParam : Type 0 where
  enter_underline exit_underline enter_standout exit_standout : SgrParam
  enter_bold enter_blink orig_pair orig_fore orig_back : SgrParam

abbrev pub index_of : SgrParam → ℕ
index_of enter_underline = 0
index_of exit_underline = 1
index_of enter_standout = 2
index_of exit_standout = 3
index_of enter_bold = 4
index_of enter_blink = 5
index_of orig_pair = 6
index_of orig_fore = 7
index_of orig_back = 8

abbrev pub SgrCodes : Type 0
SgrCodes = SgrParam → ℕ

pub record SgrAttr : Type 0 where
  pub attr : ℕ
  pub foreground : ℕ
  pub background : ℕ

abbrev pub no_attr : SgrAttr
no_attr = record { attr = 0; foreground = 0; background = 0 }

-- `FepSgrAttrType`
abbrev pub attr_underline : ℕ
attr_underline = 1

abbrev pub attr_standout : ℕ
attr_standout = 2

abbrev pub attr_bold : ℕ
attr_bold = 4

abbrev pub attr_blink : ℕ
attr_blink = 8

-- `FepAttrType`
abbrev pub type_underline : ℕ
type_underline = 0

abbrev pub type_standout : ℕ
type_standout = 4

abbrev pub type_bold : ℕ
type_bold = 5

abbrev pub type_blink : ℕ
type_blink = 6

-- `x |= bit`, if the attribute has this type and a value
abbrev pub or_if : Attribute → ℕ → ℕ → ℕ → ℕ
or_if attr type bit x = if attr.type == type && not (attr.value == 0) then bit_or x bit else x

unfoldable pub attr_from_attribute : Attribute → SgrAttr
attr_from_attribute attr = record no_attr {
  attr = or_if attr type_blink attr_blink (
      or_if attr type_bold attr_bold
        (or_if attr type_standout attr_standout (or_if attr type_underline attr_underline 0)));
}

-- `r_attr->attr |= bits` and `r_attr->attr &= ~bits`
abbrev pub with_bits : ℕ → SgrAttr → SgrAttr
with_bits bits a = record a { attr = bit_or a.attr bits }

abbrev pub without_bits : ℕ → SgrAttr → SgrAttr
without_bits bits a = record a { attr = bit_and a.attr (2 ^ 32 - 1 - bits) }

-- One parameter: the chain of `else if`. The bits are those of `FepAttrType`, as in the code.
unfoldable pub apply_param : SgrCodes → ℕ → SgrAttr → SgrAttr
apply_param codes param a =
    if param == 0
    then no_attr
    else if param == codes enter_underline
    then with_bits type_underline a
    else if param == codes exit_underline
    then without_bits type_underline a
    else if param == codes enter_standout
    then with_bits type_standout a
    else if param == codes exit_standout
    then without_bits type_standout a
    else if param == codes enter_bold
    then with_bits type_bold a
    else if param == codes enter_blink
    then with_bits type_blink a
    else if param == codes orig_pair
    then record a { foreground = 0; background = 0 }
    else if param == codes orig_fore
    then record a { foreground = 0 }
    else if param == codes orig_back
    then record a { background = 0 }
    else if param == 22
    then without_bits type_bold a
    else if param == 25
    then without_bits type_blink a
    else if within 30 37 param || within 90 97 param
    then record a { foreground = param }
    else if within 40 47 param || within 100 107 param
    then record a { background = param - 10 }
    else a

-- `assert (errno == 0 && *endptr == '\0')`
abbrev pub checked_param : Strtoul → Outcome ℕ
checked_param r = if r.range_error || ltb 0 (length r.rest) then died else ok (r.value % 2 ^ 32)

unfoldable pub params_to_attr_from : SgrCodes → SgrAttr → List Bytes → Outcome SgrAttr
params_to_attr_from codes a [] = ok a
params_to_attr_from codes a (p ∷ params) = do
  param ← checked_param (strtoul p)
  params_to_attr_from codes (apply_param codes param a) params

unfoldable pub params_to_attr : SgrCodes → List Bytes → Outcome SgrAttr
unfolding params_to_attr_from
params_to_attr codes params = params_to_attr_from codes no_attr params

-- `%d` at a 32-bit pattern
abbrev pub int_text : ℕ → Bytes
int_text n = if ltb n (2 ^ 31) then decimal n else b'-' ∷ decimal (2 ^ 32 - n)

-- `if (test) *p++ = xasprintf ("%d", n)`
abbrev pub param_if : Bool → ℕ → List Bytes
param_if test n = if test then int_text n ∷ [] else []

abbrev pub bit_param : SgrAttr → ℕ → ℕ → List Bytes
bit_param a bit code = param_if (not (bit_and a.attr bit == 0) && not (code == 0)) code

abbrev pub is_empty : SgrAttr → Bool
is_empty a = a.attr == 0 && a.foreground == 0 && a.background == 0

unfoldable pub params_from_attr : SgrCodes → SgrAttr → List Bytes
params_from_attr codes a =
    if is_empty a
    then []
    else bit_param a attr_underline (codes enter_underline)
      ++ (bit_param a attr_standout (codes enter_standout)
          ++ (bit_param a attr_bold (codes enter_bold)
              ++ (bit_param a attr_blink (codes enter_blink)
                  ++ (param_if (not (a.foreground == 0)) a.foreground
                      ++ param_if (not (a.background == 0)) ((a.background + 10) % 2 ^ 32)))))

-- An entry of `name_code`: the capability, the number of parameters, which of them, and the code.
pub record NameCode : Type 0 where
  pub name : String
  pub n_args : ℕ
  pub index : ℕ
  pub code : SgrParam

abbrev pub entry : String → ℕ → ℕ → SgrParam → NameCode
entry name n_args index code = record { name = name; n_args = n_args; index = index; code = code }

abbrev pub name_codes : List NameCode
name_codes =
    entry "enter_underline_mode" 1 0 enter_underline
    ∷ entry "exit_underline_mode" 1 0 exit_underline
    ∷ entry "enter_standout_mode" 1 0 enter_standout
    ∷ entry "exit_standout_mode" 1 0 exit_standout
    ∷ entry "enter_bold_mode" 1 0 enter_bold
    ∷ entry "enter_blink_mode" 1 0 enter_blink
    ∷ entry "orig_pair" 1 0 orig_pair
    ∷ entry "orig_pair" 2 0 orig_fore
    ∷ entry "orig_pair" 2 1 orig_back
    ∷ []

abbrev pub store_code : SgrCodes → SgrParam → ℕ → SgrCodes
store_code codes at v q = if index_of q == index_of at then v else codes q

-- A number that is not well formed leaves the code as it was.
abbrev pub code_of : SgrCodes → SgrParam → Strtoul → SgrCodes
code_of codes at r =
    if r.range_error || ltb 0 (length r.rest) then codes else store_code codes at (r.value % 2 ^ 32)

abbrev pub code_from : SgrCodes → NameCode → List Bytes → Outcome SgrCodes
code_from codes e params =
    if strv_length params == e.n_args
    then elim (get_elem? params e.index) [
      | none ↦ fault
      | some s ↦ ok (code_of codes e.code (strtoul s))
    ]
    else ok (store_code codes e.code (2 ^ 32 - 1))

abbrev pub code_in_csi : SgrCodes → NameCode → Option (Csi × Bytes) → Outcome SgrCodes
code_in_csi codes e none = ok codes
code_in_csi codes e (some (csi, rest)) =
    let read = (do params ← strsplit csi.params (b';' ∷ []); code_from codes e params) in
    if csi.final == b'm' then read else ok codes

abbrev pub code_in_cap : SgrCodes → NameCode → Option Bytes → Outcome SgrCodes
code_in_cap codes e none = ok codes
code_in_cap codes e (some str) = code_in_csi codes e (csi_parse str b'[')

unfoldable pub get_codes_in : Tigetstr → List NameCode → SgrCodes → Outcome SgrCodes
get_codes_in tigetstr [] codes = ok codes
get_codes_in tigetstr (e ∷ entries) codes = do
  codes' ← code_in_cap codes e (cap_get_string tigetstr e.name)
  get_codes_in tigetstr entries codes'

-- `_fep_get_sgr_codes`
unfoldable pub get_sgr_codes : Tigetstr → SgrCodes → Outcome SgrCodes
get_sgr_codes tigetstr codes = get_codes_in tigetstr name_codes codes
