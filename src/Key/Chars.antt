-- ===== src/Key/Chars.antt =====
-- Keys that arrive as single bytes.
use libfep.Base.{
  ℕ, ◌%◌, ◌<◌, ◌≡◌, refl, Bool, true, false, ◌&&◌, Bytes, [], ◌∷◌, ◌==◌, all_below, all_below_sound,
  arith, &&-true_left, &&-true_right, within, not, ◌||◌,
}
use libfep.Cap.{Tigetstr}
use libfep.Key.{char_to_key, is_cursor_case, key_to_string}

abbrev is_byte : ℕ → Bytes → Bool
is_byte c [] = false
is_byte c (d ∷ []) = d == c
is_byte c (d ∷ e ∷ s) = false

is_byte-eq : (c : ℕ) (s : Bytes) → is_byte c s ≡ true → s ≡ c ∷ []
is_byte-eq c [] h = cc
is_byte-eq c (d ∷ []) h = ground arith
is_byte-eq c (d ∷ e ∷ s) h = cc

abbrev sent_back : Tigetstr → ℕ → Bool
sent_back tigetstr tty =
    let (read, (key, state)) = char_to_key tty in
    read && is_byte (tty % 128) (key_to_string tigetstr key state)

sent_back_table : (tigetstr : Tigetstr) → all_below 256 (sent_back tigetstr) ≡ true
unfolding all_below char_to_key key_to_string is_cursor_case
sent_back_table tigetstr = refl

-- Every byte from the terminal is a key, and a key so read is written back as the low seven bits of
-- its byte, whatever the terminal's capabilities are.
pub key_to_string-char_to_key :
    (tigetstr : Tigetstr) (tty : ℕ)
    → tty < 256
    → let (read, (key, state)) = char_to_key tty in
      (read ≡ true) × (key_to_string tigetstr key state ≡ tty % 128 ∷ [])
key_to_string-char_to_key tigetstr tty h =
    let (read, (key, state)) = char_to_key tty in
    let both = all_below_sound 256 (sent_back tigetstr) tty (sent_back_table tigetstr) h in
    (
      &&-true_left read (is_byte (tty % 128) (key_to_string tigetstr key state)) both,
      is_byte-eq (tty % 128) (key_to_string tigetstr key state)
          (&&-true_right read (is_byte (tty % 128) (key_to_string tigetstr key state)) both),
    )

-- A printable byte that is no capital letter.
abbrev pub is_plain : ℕ → Bool
is_plain c = within 0x20 0x7e c && not (within b'A' b'Z' c)

abbrev meta_dropped : ℕ → Bool
meta_dropped tty =
    let (read, (key, state)) = char_to_key tty in
    not (is_plain (tty % 128)) || (key == tty % 128 && state == 0)

meta_dropped_table : all_below 256 meta_dropped ≡ true
unfolding all_below char_to_key
meta_dropped_table = refl

-- The Meta bit of a byte is lost where the low seven bits are printable and no capital letter: the
-- last branch resets all modifiers.
pub char_to_key_drops_meta :
    (tty : ℕ)
    → tty < 256
    → is_plain (tty % 128) ≡ true
    → ((char_to_key tty).1.0 ≡ tty % 128) × ((char_to_key tty).1.1 ≡ 0)
char_to_key_drops_meta tty h p =
    ground (arith, all_below_sound 256 meta_dropped tty meta_dropped_table h)
