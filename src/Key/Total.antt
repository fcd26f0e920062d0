-- ===== src/Key/Total.antt =====
-- The reader of escape sequences ends, if only by a failed assertion.
use libfep.Base.{
  ℕ, Bool, true, false, Option, none, some, List, Bytes, [], ◌∷◌, ◌==◌, get_elem?, ◌-◌,
  if◌then◌else◌, Outcome, ok, failed, fault, died, looping, ◌>>=◌,
}
use libfep.Cap.{Tigetstr}
use libfep.Csi.{Csi, csi_parse}
use libfep.Key.{cursor_states, cursor_keyvals}
use libfep.Key.Escape.{
  state_of_param, checked, second_param, get_state_from_cursor, cursor_key_in, csi_to_cursor_key,
  or_cap_key, csi_to_key, with_rest, try_csi, try_eterm, try_ss3, esc_to_key,
}
use libfep.Number.{strtoul, Strtoul}
use libfep.Strv.{strv_length}
use libfep.Strv.Fields.{fields, strsplit-fields}

-- A result, or a failed assertion.
abbrev pub OkOrDied : {A : Type 0} → Outcome A → Type 0
OkOrDied (ok a) = Unit
OkOrDied died = Unit
OkOrDied _ = ⊥

bind-OkOrDied :
    {A B : Type 0} (o : Outcome A) (f : A → B) → OkOrDied o → OkOrDied (o >>= λ a. ok (f a))
bind-OkOrDied (ok a) f h = tt
bind-OkOrDied died f h = tt
bind-OkOrDied failed f h = h
bind-OkOrDied fault f h = h
bind-OkOrDied looping f h = h

if-OkOrDied :
    {A : Type 0} (test : Bool) (a b : Outcome A)
    → OkOrDied a
    → OkOrDied b
    → OkOrDied (if test then a else b)
if-OkOrDied true a b h k = h
if-OkOrDied false a b h k = k

checked-OkOrDied : (r : Strtoul) → OkOrDied (checked r)
checked-OkOrDied r = if-OkOrDied _ died (ok _) tt tt

state-OkOrDied :
    (params : List Bytes)
    → OkOrDied (
        if strv_length params == 2
        then (do param ← second_param (get_elem? params 1); ok (state_of_param cursor_states param))
        else ok 0)
unfolding strv_length
state-OkOrDied [] = tt
state-OkOrDied (p ∷ []) = tt
state-OkOrDied (p ∷ q ∷ r) =
    if-OkOrDied _ _ (ok 0)
      (bind-OkOrDied (checked (strtoul q)) (state_of_param cursor_states)
        (checked-OkOrDied (strtoul q)))
      tt

get_state-OkOrDied : (c : Csi) → OkOrDied (get_state_from_cursor c)
unfolding get_state_from_cursor
get_state-OkOrDied c = rw (strsplit-fields b';' c.params) (state-OkOrDied (fields b';' c.params))

cursor_key_in-OkOrDied : (table : List (ℕ × ℕ)) (c : Csi) → OkOrDied (cursor_key_in table c)
cursor_key_in-OkOrDied [] c = tt
cursor_key_in-OkOrDied ((final, keyval) ∷ r) c =
    if-OkOrDied (final == c.final) _ _
      (bind-OkOrDied (get_state_from_cursor c) (λ state. some (keyval, state))
        (get_state-OkOrDied c))
      (cursor_key_in-OkOrDied r c)

cursor_key-OkOrDied : (c : Csi) → OkOrDied (csi_to_cursor_key c)
unfolding csi_to_cursor_key
cursor_key-OkOrDied c = cursor_key_in-OkOrDied cursor_keyvals c

csi_to_key-OkOrDied : (tigetstr : Tigetstr) (c : Csi) → OkOrDied (csi_to_key tigetstr c)
unfolding csi_to_key
csi_to_key-OkOrDied tigetstr c =
    bind-OkOrDied (csi_to_cursor_key c) (or_cap_key tigetstr c) (cursor_key-OkOrDied c)

try_csi-OkOrDied : (tigetstr : Tigetstr) (o : Option (Csi × Bytes)) → OkOrDied (try_csi tigetstr o)
try_csi-OkOrDied tigetstr none = tt
try_csi-OkOrDied tigetstr (some (c, rest)) =
    bind-OkOrDied (csi_to_key tigetstr c) (with_rest rest) (csi_to_key-OkOrDied tigetstr c)

try_eterm-OkOrDied :
    (tigetstr : Tigetstr) (str : Bytes) (o : Option (Csi × Bytes))
    → OkOrDied (try_eterm tigetstr str o)
try_eterm-OkOrDied tigetstr str none = try_csi-OkOrDied tigetstr (csi_parse str b'[')
try_eterm-OkOrDied tigetstr str (some (c, rest)) =
    let upper = record c { final = c.final - 32 } in
    if-OkOrDied _ _ (ok none)
      (bind-OkOrDied (csi_to_cursor_key upper) (with_rest rest) (cursor_key-OkOrDied upper)) tt

try_ss3-OkOrDied :
    (tigetstr : Tigetstr) (str : Bytes) (o : Option (Csi × Bytes))
    → OkOrDied (try_ss3 tigetstr str o)
try_ss3-OkOrDied tigetstr str none = try_eterm-OkOrDied tigetstr str (csi_parse str b'o')
try_ss3-OkOrDied tigetstr str (some (c, rest)) =
    if-OkOrDied _ _ (ok none)
      (bind-OkOrDied (csi_to_cursor_key c) (with_rest rest) (cursor_key-OkOrDied c)) tt

-- On every text the reader of escape sequences gives an answer or ends the process by a failed
-- assertion: it never reads out of bounds and never runs on.
pub esc_to_key-OkOrDied : (tigetstr : Tigetstr) (str : Bytes) → OkOrDied (esc_to_key tigetstr str)
unfolding esc_to_key
esc_to_key-OkOrDied tigetstr str = try_ss3-OkOrDied tigetstr str (csi_parse str b'O')
