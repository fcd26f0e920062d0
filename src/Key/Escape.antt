-- ===== src/Key/Escape.antt =====
-- fep/key.c, lines 266 to 422: keys that arrive as escape sequences. `none` is a return of false,
-- and `died` a failed `assert`. A key comes with the rest of the text, at `*r_endptr`.
use Prim.Native.String.{String}
use libfep.Base.{
  ℕ, ◌-◌, ◌%◌, ◌^◌, Bool, false, ◌||◌, Option, none, some, List, Bytes, [], ◌∷◌, length, get_elem?,
  ◌==◌, within, ltb, if◌then◌else◌, Outcome, ok, fault, died, ◌>>=◌,
}
use libfep.Cap.{Tigetstr, cap_get_string}
use libfep.Csi.{Csi, csi_parse, csi_format}
use libfep.Key.{cursor_states, cursor_keyvals, cap_keyvals, c_string}
use libfep.Number.{Strtoul, strtoul}
use libfep.Strv.{has_prefix, strsplit, strv_length}

-- The loop over `cursor_states`, by parameter.
abbrev pub state_of_param : List (ℕ × ℕ) → ℕ → ℕ
state_of_param [] param = 0
state_of_param ((p, state) ∷ r) param = if p == param then state else state_of_param r param

-- `assert (errno == 0 && *endptr == '\0')`; the value is kept in an `int`.
abbrev pub checked : Strtoul → Outcome ℕ
checked r = if r.range_error || ltb 0 (length r.rest) then died else ok (r.value % 2 ^ 32)

-- `params[1]`
abbrev pub second_param : Option Bytes → Outcome ℕ
second_param none = fault
second_param (some s) = checked (strtoul s)

unfoldable pub get_state_from_cursor : Csi → Outcome ℕ
get_state_from_cursor csi = do
  params ← strsplit csi.params (b';' ∷ [])
  if strv_length params == 2
      then (do param ← second_param (get_elem? params 1); ok (state_of_param cursor_states param))
      else ok 0

abbrev pub cursor_key_in : List (ℕ × ℕ) → Csi → Outcome (Option (ℕ × ℕ))
cursor_key_in [] csi = ok none
cursor_key_in ((final, keyval) ∷ r) csi =
    let found = (do state ← get_state_from_cursor csi; ok (some (keyval, state))) in
    if final == csi.final then found else cursor_key_in r csi

unfoldable pub csi_to_cursor_key : Csi → Outcome (Option (ℕ × ℕ))
csi_to_cursor_key = cursor_key_in cursor_keyvals

-- The text of a capability, at the front of a sequence.
abbrev pub cap_matches : Option Bytes → Bytes → Bool
cap_matches none csi_str = false
cap_matches (some cap_str) csi_str = has_prefix cap_str csi_str

abbrev pub cap_key_in : Tigetstr → List (String × ℕ) → Bytes → Option (ℕ × ℕ)
cap_key_in tigetstr [] csi_str = none
cap_key_in tigetstr ((name, keyval) ∷ r) csi_str =
    if cap_matches (cap_get_string tigetstr name) csi_str
    then some (keyval, 0)
    else cap_key_in tigetstr r csi_str

-- After the cursor keys have been tried.
abbrev pub or_cap_key : Tigetstr → Csi → Option (ℕ × ℕ) → Option (ℕ × ℕ)
or_cap_key tigetstr csi (some key) = some key
or_cap_key tigetstr csi none = cap_key_in tigetstr cap_keyvals (c_string (csi_format csi))

unfoldable pub csi_to_key : Tigetstr → Csi → Outcome (Option (ℕ × ℕ))
csi_to_key tigetstr csi = do cursor ← csi_to_cursor_key csi; ok (or_cap_key tigetstr csi cursor)

abbrev pub with_rest : Bytes → Option (ℕ × ℕ) → Option ((ℕ × ℕ) × Bytes)
with_rest rest none = none
with_rest rest (some key) = some (key, rest)

-- ESC O and a capital letter.
abbrev pub ss3_key : Csi × Bytes → Outcome (Option ((ℕ × ℕ) × Bytes))
ss3_key (csi, rest) =
    let found = (do key ← csi_to_cursor_key csi; ok (with_rest rest key)) in
    if within b'A' b'D' csi.final || csi.final == b'F' || csi.final == b'H' then found else ok none

-- ESC o and a small letter, which `toupper` makes the cursor key's.
abbrev pub eterm_key : Csi × Bytes → Outcome (Option ((ℕ × ℕ) × Bytes))
eterm_key (csi, rest) =
    let upper = record csi { final = csi.final - 32 } in
    let found = (do key ← csi_to_cursor_key upper; ok (with_rest rest key)) in
    if within b'a' b'd' csi.final then found else ok none

abbrev pub control_key : Tigetstr → Csi × Bytes → Outcome (Option ((ℕ × ℕ) × Bytes))
control_key tigetstr (csi, rest) = do key ← csi_to_key tigetstr csi; ok (with_rest rest key)

abbrev pub try_csi : Tigetstr → Option (Csi × Bytes) → Outcome (Option ((ℕ × ℕ) × Bytes))
try_csi tigetstr none = ok none
try_csi tigetstr (some found) = control_key tigetstr found

abbrev pub try_eterm : Tigetstr → Bytes → Option (Csi × Bytes) → Outcome (Option ((ℕ × ℕ) × Bytes))
try_eterm tigetstr str none = try_csi tigetstr (csi_parse str b'[')
try_eterm tigetstr str (some found) = eterm_key found

abbrev pub try_ss3 : Tigetstr → Bytes → Option (Csi × Bytes) → Outcome (Option ((ℕ × ℕ) × Bytes))
try_ss3 tigetstr str none = try_eterm tigetstr str (csi_parse str b'o')
try_ss3 tigetstr str (some found) = ss3_key found

unfoldable pub esc_to_key : Tigetstr → Bytes → Outcome (Option ((ℕ × ℕ) × Bytes))
esc_to_key tigetstr str = try_ss3 tigetstr str (csi_parse str b'O')
