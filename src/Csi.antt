-- ===== src/Csi.antt =====
-- fep/csi.c and `struct _FepCSI` of fep/private.h: control sequences, ESC [ P..P I..I F. A text with
-- its length is the list of its bytes. `char` may be signed or not: the tests give the same answer
-- on bytes from 128 on. Releasing memory (`_fep_csi_free`) is left out.
pub mod Parsing
pub mod Scanning
use libfep.Base.{
  ℕ, zero, suc, ◌+◌, Bool, true, false, not, ◌&&◌, ◌||◌, Option, none, some, List, Bytes, [], ◌∷◌,
  ◌++◌, length, drop, get_elem?, ◌==◌, ltb, within, if◌then◌else◌, Outcome, ok, looping,
}

pub record Csi : Type 0 where
  pub params : Bytes
  pub intermediate : Bytes
  pub final : ℕ

abbrev pub esc : ℕ
esc = 27

abbrev pub is_param : ℕ → Bool
is_param = within 0x30 0x3f

abbrev pub is_intermediate : ℕ → Bool
is_intermediate = within 0x20 0x2f

abbrev pub is_final : ℕ → Bool
is_final = within 0x40 0x7e

-- The loop `for (; p - str < len && test (*p); p++)`: the bytes passed, and the rest.
abbrev pub before_rest : ℕ → Bytes × Bytes → Bytes × Bytes
before_rest c (taken, rest) = (c ∷ taken, rest)

unfoldable pub skip : (ℕ → Bool) → Bytes → Bytes × Bytes
skip test [] = ([], [])
skip test (c ∷ s) = if test c then before_rest c (skip test s) else ([], c ∷ s)

abbrev pub first_is : ℕ → Option ℕ → Bool
first_is c none = false
first_is c (some a) = a == c

-- The part from `/* F */` on: the sequence and what follows it.
abbrev pub parse_final : Bytes → Bytes → Bytes → Option (Csi × Bytes)
parse_final params intermediate [] = none
parse_final params intermediate (c ∷ rest) =
    some (record { params = params; intermediate = intermediate; final = c }, rest)

-- The part from `/* I */` on.
abbrev pub parse_intermediate : Bytes → Bytes → Option (Csi × Bytes)
parse_intermediate params [] = none
parse_intermediate params (c ∷ s) =
    let (taken, rest) = skip is_intermediate (c ∷ s) in parse_final params taken rest

unfoldable pub csi_parse : Bytes → ℕ → Option (Csi × Bytes)
csi_parse str introducer =
    if ltb (length str) 3
      || not (first_is esc (get_elem? str 0))
      || not (first_is introducer (get_elem? str 1))
    then none
    else (let (params, p) = skip is_param (drop 2 str) in parse_intermediate params p)

-- What `xasprintf` prints.
unfoldable pub csi_format : Csi → Bytes
csi_format csi = esc ∷ b'[' ∷ (csi.params ++ (csi.intermediate ++ csi.final ∷ []))

-- `memchr (p, '\033', …)`: the bytes before it, and those from it on.
unfoldable pub memchr_esc : Bytes → Option (Bytes × Bytes)
memchr_esc [] = none
memchr_esc (c ∷ s) =
    if c == esc
    then some ([], c ∷ s)
    else elim (memchr_esc s) [ none ↦ none | some (b, p) ↦ some (c ∷ b, p) ]

-- What `_fep_csi_scan` reports: `complete` is a return of true, with `*r_csi` behind `before` and
-- followed by `rest`; `partial` a return of false with a sequence cut off by the end of the text;
-- `absent` a return of false with a null `*r_csi`.
pub data Scan : Type 0 where
  complete : Bytes → Bytes → Bytes → Scan
  partial : Bytes → Bytes → Scan
  absent : Scan

-- `final < 0 || *p == final`; `none` is a negative `final`.
abbrev pub accepts : Option ℕ → ℕ → Bool
accepts none c = true
accepts (some f) c = c == f

-- From `/* F */` on; `again` is the next round of the loop.
abbrev pub scan_final :
    (Bytes → Bytes → Outcome Scan) → Option ℕ → Bytes → Bytes → Bytes → Outcome Scan
scan_final again final before csi [] = ok (partial before csi)
scan_final again final before csi (c ∷ rest) =
    if accepts final c && is_final c
    then ok (complete before (csi ++ c ∷ []) rest)
    else again (before ++ csi) (c ∷ rest)

-- Behind ESC [: P, then I.
abbrev pub scan_body : (Bytes → Bytes → Outcome Scan) → Option ℕ → Bytes → Bytes → Outcome Scan
scan_body again final before s =
    let (params, p) = skip is_param s in
    let (intermediate, q) = skip is_intermediate p in
    scan_final again final before (esc ∷ b'[' ∷ (params ++ intermediate)) q

-- Behind ESC.
abbrev pub scan_esc : (Bytes → Bytes → Outcome Scan) → Option ℕ → Bytes → Bytes → Outcome Scan
scan_esc again final before [] = ok (partial before (esc ∷ []))
scan_esc again final before (c ∷ s) =
    if c == b'[' then scan_body again final before s else again (before ++ esc ∷ []) (c ∷ s)

abbrev pub scan_at :
    (Bytes → Bytes → Outcome Scan) → Option ℕ → Bytes → Option (Bytes × Bytes) → Outcome Scan
scan_at again final before none = ok absent
scan_at again final before (some (b, [])) = ok absent
scan_at again final before (some (b, e ∷ s)) = scan_esc again final (before ++ b) s

-- The loop over `p`; `before` is the text in front of `p`.
unfoldable pub scan_loop : ℕ → Option ℕ → Bytes → Bytes → Outcome Scan
scan_loop zero final before p = looping
scan_loop (suc f) final before p =
    let again = λ (b : Bytes) (s : Bytes). scan_loop f final b s in
    if ltb 0 (length p) then scan_at again final before (memchr_esc p) else ok absent

unfoldable pub csi_scan : Bytes → Option ℕ → Outcome Scan
csi_scan str final = scan_loop (suc (length str)) final [] str
