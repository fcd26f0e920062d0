-- ===== src/Key/Cursor.antt =====
-- Cursor keys as control sequences.
use libfep.Base.{
  ℕ, ◌≡◌, refl, sym, subst, ◌∙◌, ◌⊎◌, inl, inr, true, false, none, some, Bytes, [], ◌∷◌, ◌++◌,
  get_elem?, ◌==◌, if◌then◌else◌, Bool-cases, ok, arith, append-nil,
}
use libfep.Cap.{Tigetstr}
use libfep.Csi.{Csi, esc, is_param, is_final, csi_parse, csi_format}
use libfep.Csi.Parsing.{Passes, IsWellFormed, csi_parse-csi_format}
use libfep.Keydefs
use libfep.Number.{decimal, strtoul}
use libfep.Strv.{
  strsplit, strsplit_full, count_loop, split_loop, search_strstr, strv_length, strstr, has_prefix,
}
use libfep.Key.{
  has, cursor_states, cursor_keyvals, cursor_params, cursor_csi, first_of, c_string, is_cursor_case,
  key_to_string,
}
use libfep.Key.Escape.{
  get_state_from_cursor, csi_to_cursor_key, csi_to_key, control_key, esc_to_key,
}

-- The one modifier that a cursor key can carry: Shift before Control.
abbrev pub carried : ℕ → ℕ
carried state =
    if has state Keydefs.shift_mask
    then Keydefs.shift_mask
    else if has state Keydefs.control_mask
    then Keydefs.control_mask
    else 0

abbrev pub IsCursorKey : ℕ → Type 0
IsCursorKey key =
    (key ≡ Keydefs.up)
    ⊎ (key ≡ Keydefs.down)
    ⊎ (key ≡ Keydefs.right)
    ⊎ (key ≡ Keydefs.left)
    ⊎ (key ≡ Keydefs.end)
    ⊎ (key ≡ Keydefs.home)

cursor_split :
    (P : ℕ → Type 0)
    → P Keydefs.up
    → P Keydefs.down
    → P Keydefs.right
    → P Keydefs.left
    → P Keydefs.end
    → P Keydefs.home
    → (key : ℕ) → IsCursorKey key
    → P key
cursor_split P a b c d e f key (inl h) = subst P (sym h) a
cursor_split P a b c d e f key (inr (inl h)) = subst P (sym h) b
cursor_split P a b c d e f key (inr (inr (inl h))) = subst P (sym h) c
cursor_split P a b c d e f key (inr (inr (inr (inl h)))) = subst P (sym h) d
cursor_split P a b c d e f key (inr (inr (inr (inr (inl h))))) = subst P (sym h) e
cursor_split P a b c d e f key (inr (inr (inr (inr (inr h))))) = subst P (sym h) f

get_state-cursor_params :
    (state final : ℕ)
    → get_state_from_cursor
        (record { params = cursor_params cursor_states state; intermediate = []; final = final })
      ≡ ok (carried state)
unfolding get_state_from_cursor strsplit strsplit_full count_loop split_loop search_strstr strstr
    has_prefix decimal strtoul strv_length
get_state-cursor_params state final = elim (Bool-cases (has state Keydefs.shift_mask)) [
  | inl s ↦ rw s refl
  | inr n ↦
      rw n (elim (Bool-cases (has state Keydefs.control_mask)) [
        | inl c ↦ rw c refl
        | inr m ↦ rw m refl
      ])
]

csi_to_cursor_key-cursor_csi :
    (key state : ℕ)
    → IsCursorKey key
    → csi_to_cursor_key (cursor_csi key state) ≡ ok (some (key, carried state))
unfolding csi_to_cursor_key
csi_to_cursor_key-cursor_csi key state =
    cursor_split (λ k. csi_to_cursor_key (cursor_csi k state) ≡ ok (some (k, carried state)))
      (rw (get_state-cursor_params state b'A')) (rw (get_state-cursor_params state b'B'))
      (rw (get_state-cursor_params state b'C')) (rw (get_state-cursor_params state b'D'))
      (rw (get_state-cursor_params state b'F')) (rw (get_state-cursor_params state b'H')) key

cursor_params-Passes : (state : ℕ) → Passes is_param (cursor_params cursor_states state)
unfolding decimal
cursor_params-Passes state = elim (Bool-cases (has state Keydefs.shift_mask)) [
  | inl s ↦ rw s (refl, (refl, (refl, tt)))
  | inr n ↦ rw n (elim (Bool-cases (has state Keydefs.control_mask)) [
    | inl c ↦ rw c (refl, (refl, (refl, tt)))
    | inr m ↦ rw m tt
  ])
]

cursor_csi-IsWellFormed : (key state : ℕ) → IsCursorKey key → IsWellFormed (cursor_csi key state)
cursor_csi-IsWellFormed key state h = record {
  params_ok = cursor_params-Passes state;
  intermediate_ok = tt;
  final_ok =
      cursor_split (λ k. is_final (first_of cursor_keyvals k) ≡ true) refl refl refl refl refl refl
        key h;
}

-- A printed parameter string holds no NUL, so the printed sequence ends at its final byte.
c_string-cursor :
    (state final : ℕ)
    → c_string (esc ∷ b'[' ∷ (cursor_params cursor_states state ++ final ∷ []))
      ≡ esc ∷ b'[' ∷ (cursor_params cursor_states state ++ c_string (final ∷ []))
unfolding decimal c_string
c_string-cursor state final = elim (Bool-cases (has state Keydefs.shift_mask)) [
  | inl s ↦ rw s refl
  | inr n ↦
      rw n (elim (Bool-cases (has state Keydefs.control_mask)) [
        | inl c ↦ rw c refl
        | inr m ↦ rw m refl
      ])
]

key_to_string-cursor :
    (tigetstr : Tigetstr) (key state : ℕ)
    → IsCursorKey key
    → key_to_string tigetstr key state ≡ csi_format (cursor_csi key state)
unfolding key_to_string is_cursor_case csi_format
key_to_string-cursor tigetstr key state =
    cursor_split (λ k. key_to_string tigetstr k state ≡ csi_format (cursor_csi k state))
      (c_string-cursor state b'A' ∙ unfold c_string in refl)
      (c_string-cursor state b'B' ∙ unfold c_string in refl)
      (c_string-cursor state b'C' ∙ unfold c_string in refl)
      (c_string-cursor state b'D' ∙ unfold c_string in refl)
      (c_string-cursor state b'F' ∙ unfold c_string in refl)
      (c_string-cursor state b'H' ∙ unfold c_string in refl) key

csi_parse_other :
    (str : Bytes) (introducer : ℕ)
    → get_elem? str 1 ≡ some b'['
    → (b'[' == introducer) ≡ false
    → csi_parse str introducer ≡ none
unfolding csi_parse
csi_parse_other str introducer h e = ground arith

-- A control sequence at the front of the text is tried as such.
pub esc_to_key-csi_format :
    (tigetstr : Tigetstr) (c : Csi) (rest : Bytes)
    → IsWellFormed c
    → esc_to_key tigetstr (csi_format c ++ rest) ≡ control_key tigetstr (c, rest)
unfolding esc_to_key
esc_to_key-csi_format tigetstr c rest w = rw (
  csi_parse_other (csi_format c ++ rest) b'O' (unfold csi_format in refl) refl,
  csi_parse_other (csi_format c ++ rest) b'o' (unfold csi_format in refl) refl,
  csi_parse-csi_format c rest w,
)

-- A cursor key sent to the child process is read back as that key, with Shift if it was set, else
-- with Control if that was, else with no modifier; what follows is left.
pub esc_to_key-key_to_string :
    (tigetstr : Tigetstr) (key state : ℕ) (rest : Bytes)
    → IsCursorKey key
    → esc_to_key tigetstr (key_to_string tigetstr key state ++ rest)
      ≡ ok (some ((key, carried state), rest))
esc_to_key-key_to_string tigetstr key state rest h =
    rw
      (
        key_to_string-cursor tigetstr key state h,
        esc_to_key-csi_format tigetstr (cursor_csi key state) rest
            (cursor_csi-IsWellFormed key state h),
      )
      (unfold csi_to_key in rw (csi_to_cursor_key-cursor_csi key state h))

-- Delete is sent as the start of a control sequence with no final byte: it stands with the cursor
-- keys, but has no entry among their final bytes.
pub key_to_string-delete :
    (tigetstr : Tigetstr) (state : ℕ)
    → key_to_string tigetstr Keydefs.delete state ≡ esc ∷ b'[' ∷ cursor_params cursor_states state
unfolding key_to_string is_cursor_case csi_format
key_to_string-delete tigetstr state = c_string-cursor state 0 ∙ unfold c_string in rw append-nil
