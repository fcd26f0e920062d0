-- ===== src/Key/Progress.antt =====
-- What `_fep_esc_to_key` consumes, and when it ends the process.
use libfep.Base.{
  ℕ, ◌≤◌, ◌≡◌, ◌≢◌, refl, sym, ap, subst, ◌∙◌, Bool, true, false, Option, none, some, Bytes, [],
  ◌∷◌, ◌++◌, length, ◌==◌, within, if◌then◌else◌, Outcome, ok, failed, fault, died, looping, ◌>>=◌,
  arith, length-append, append_assoc, ◌||◌, ◌-◌,
}
use libfep.Cap.{Tigetstr}
use libfep.Csi.{Csi, esc, csi_parse, csi_format}
use libfep.Csi.Parsing.{IsWellFormed, Parsed, csi_parse-Parsed}
use libfep.Key.Cursor.{esc_to_key-csi_format}
use libfep.Key.Escape.{
  second_param, get_state_from_cursor, csi_to_cursor_key, csi_to_key, with_rest, try_csi, try_eterm,
  try_ss3, esc_to_key,
}
use libfep.Number.{strtoul}
use libfep.Strv.{strv_length}
use libfep.Strv.Fields.{fields, strsplit-fields}

-- A result that stands for at least three bytes of the text.
abbrev Consumes : Bytes → Outcome (Option ((ℕ × ℕ) × Bytes)) → Type 0
Consumes str (ok (some (key, rest))) = (used : Bytes) × (str ≡ used ++ rest) × (3 ≤ length used)
Consumes str _ = Unit

-- A parsed sequence and its rest.
abbrev Behind : Bytes → Bytes → Type 0
Behind str rest = (used : Bytes) × (str ≡ used ++ rest) × (3 ≤ length used)

Parsed-Behind :
    (introducer : ℕ) (str : Bytes) (r : Csi × Bytes) → Parsed introducer str r → Behind str r.1
Parsed-Behind introducer str r h =
    let c = r.0 in
    let tail = c.intermediate ++ c.final ∷ [] in
    (
      esc ∷ introducer ∷ (c.params ++ tail),
      h.text
          ∙ ap (λ t. esc ∷ introducer ∷ t)
              (ap (◌++◌ c.params) (sym (append_assoc c.intermediate (c.final ∷ []) r.1))
                ∙ sym (append_assoc c.params tail r.1)),
      omega (arith, length-append c.params tail, length-append c.intermediate (c.final ∷ [])),
    )

with_rest-Consumes :
    (str rest : Bytes) (key : Outcome (Option (ℕ × ℕ)))
    → Behind str rest
    → Consumes str (key >>= λ k. ok (with_rest rest k))
with_rest-Consumes str rest (ok none) b = tt
with_rest-Consumes str rest (ok (some k)) b = b
with_rest-Consumes str rest failed b = tt
with_rest-Consumes str rest fault b = tt
with_rest-Consumes str rest died b = tt
with_rest-Consumes str rest looping b = tt

if-Consumes :
    (str : Bytes) (test : Bool) (found : Outcome (Option ((ℕ × ℕ) × Bytes)))
    → Consumes str found
    → Consumes str (if test then found else ok none)
if-Consumes str true found h = h
if-Consumes str false found h = tt

try_csi-Consumes :
    (tigetstr : Tigetstr) (str : Bytes) (o : Option (Csi × Bytes))
    → csi_parse str b'[' ≡ o
    → Consumes str (try_csi tigetstr o)
try_csi-Consumes tigetstr str none e = tt
try_csi-Consumes tigetstr str (some r) e =
    with_rest-Consumes str r.1 (csi_to_key tigetstr r.0)
      (Parsed-Behind b'[' str r (csi_parse-Parsed str b'[' e))

try_eterm-Consumes :
    (tigetstr : Tigetstr) (str : Bytes) (o : Option (Csi × Bytes))
    → csi_parse str b'o' ≡ o
    → Consumes str (try_eterm tigetstr str o)
try_eterm-Consumes tigetstr str none e = try_csi-Consumes tigetstr str (csi_parse str b'[') refl
try_eterm-Consumes tigetstr str (some r) e = if-Consumes str (within b'a' b'd' r.0.final) _ (
    with_rest-Consumes str r.1 (csi_to_cursor_key (record r.0 { final = r.0.final - 32 }))
      (Parsed-Behind b'o' str r (csi_parse-Parsed str b'o' e)))

try_ss3-Consumes :
    (tigetstr : Tigetstr) (str : Bytes) (o : Option (Csi × Bytes))
    → csi_parse str b'O' ≡ o
    → Consumes str (try_ss3 tigetstr str o)
try_ss3-Consumes tigetstr str none e = try_eterm-Consumes tigetstr str (csi_parse str b'o') refl
try_ss3-Consumes tigetstr str (some r) e =
    if-Consumes str (within b'A' b'D' r.0.final || r.0.final == b'F' || r.0.final == b'H') _ (
      with_rest-Consumes str r.1 (csi_to_cursor_key r.0)
        (Parsed-Behind b'O' str r (csi_parse-Parsed str b'O' e)))

-- Where `_fep_esc_to_key` reads a key, `*r_endptr` points behind at least three bytes of the text
-- and into it, so the caller's loop over the input moves on.
pub esc_to_key_progress :
    (tigetstr : Tigetstr) (str : Bytes) {key : ℕ × ℕ} {rest : Bytes}
    → esc_to_key tigetstr str ≡ ok (some (key, rest))
    → (used : Bytes) × (str ≡ used ++ rest) × (3 ≤ length used)
unfolding esc_to_key
esc_to_key_progress tigetstr str e =
    subst (Consumes str) e (try_ss3-Consumes tigetstr str (csi_parse str b'O') refl)

second_param_died : (q : Bytes) → (strtoul q).rest ≢ [] → second_param (some q) ≡ died
second_param_died q h = ground arith

get_state_died :
    (c : Csi) (p q : Bytes)
    → fields b';' c.params ≡ p ∷ q ∷ []
    → (strtoul q).rest ≢ []
    → get_state_from_cursor c ≡ died
unfolding get_state_from_cursor strv_length
get_state_died c p q two h = rw (strsplit-fields b';' c.params, two) (rw (second_param_died q h))

-- A cursor key's sequence with two parameters, the second one no number, ends the process by a
-- failed assertion.
pub esc_to_key_dies :
    (tigetstr : Tigetstr) (c : Csi) (rest p q : Bytes)
    → IsWellFormed c
    → (within b'A' b'D' c.final || c.final == b'F' || c.final == b'H') ≡ true
    → fields b';' c.params ≡ p ∷ q ∷ []
    → (strtoul q).rest ≢ []
    → esc_to_key tigetstr (csi_format c ++ rest) ≡ died
unfolding csi_to_key csi_to_cursor_key
esc_to_key_dies tigetstr c rest p q w f two h =
    esc_to_key-csi_format tigetstr c rest w ∙ ground (arith, get_state_died c p q two h)
