-- ===== src/Key.antt =====
-- fep/key.c and the constants of libfep/keydefs.h: keys read from the terminal, and keys written to
-- the child process. A result through `*r_key` and `*r_state` is a pair.
pub mod Escape
pub mod Chars
pub mod Cursor
pub mod Progress
pub mod Total
pub mod Params
use Prim.Native.String.{String}
use libfep.Base.{
  ℕ, zero, suc, ◌+◌, ◌-◌, ◌%◌, ◌^◌, bit_and, bit_or, Bool, true, false, not, ◌&&◌, ◌||◌, Option,
  none, some, List, Bytes, [], ◌∷◌, ◌++◌, length, get_elem?, ◌==◌, ltb, leb, within, if◌then◌else◌,
  Outcome, ok, died, ◌>>=◌,
}
use libfep.Cap.{Tigetstr, cap_get_string}
use libfep.Csi.{Csi, csi_parse, csi_format}
use libfep.Keydefs
use libfep.Number.{decimal, Strtoul, strtoul}
use libfep.Strv.{has_prefix, strsplit, strv_length}

-- `state & mask`
abbrev pub has : ℕ → ℕ → Bool
has state mask = not (bit_and state mask == 0)

-- `cursor_states`: parameter and modifier.
abbrev pub cursor_states : List (ℕ × ℕ)
cursor_states = (2, Keydefs.shift_mask) ∷ (5, Keydefs.control_mask) ∷ []

-- `cursor_keyvals`: final byte and key.
abbrev pub cursor_keyvals : List (ℕ × ℕ)
cursor_keyvals =
    (b'A', Keydefs.up)
    ∷ (b'B', Keydefs.down)
    ∷ (b'C', Keydefs.right)
    ∷ (b'D', Keydefs.left)
    ∷ (b'F', Keydefs.end)
    ∷ (b'H', Keydefs.home)
    ∷ []

-- `cap_keyvals`: capability and key.
abbrev pub cap_keyvals : List (String × ℕ)
cap_keyvals =
    ("key_backspace", Keydefs.back_space)
    ∷ ("key_dc", Keydefs.delete)
    ∷ ("key_ppage", Keydefs.prior)
    ∷ ("key_npage", Keydefs.next)
    ∷ ("key_home", Keydefs.home)
    ∷ ("key_end", Keydefs.end)
    ∷ ("key_ic", Keydefs.insert)
    ∷ ("key_f1", Keydefs.f1)
    ∷ ("key_f2", Keydefs.f2)
    ∷ ("key_f3", Keydefs.f3)
    ∷ ("key_f4", Keydefs.f4)
    ∷ ("key_f5", Keydefs.f5)
    ∷ ("key_f6", Keydefs.f6)
    ∷ ("key_f7", Keydefs.f7)
    ∷ ("key_f8", Keydefs.f8)
    ∷ ("key_f9", Keydefs.f9)
    ∷ ("key_f10", Keydefs.f10)
    ∷ ("key_f11", Keydefs.f11)
    ∷ ("key_f12", Keydefs.f12)
    ∷ []

-- The `switch` of `_fep_char_to_key`, on the low seven bits `c`.
abbrev pub char_switch : ℕ → ℕ → ℕ × ℕ
char_switch c state =
    if c == 0
    then (b' ', bit_or state Keydefs.control_mask)
    else if c == b'\t'
    then (Keydefs.tab, state)
    else if c == b'\r'
    then (Keydefs.return, state)
    else if c == 27
    then (Keydefs.escape, state)
    else if c == 0x7f
    then (Keydefs.back_space, state)
    else if within 1 26 c
    then (c + (b'a' - 1), bit_or state Keydefs.control_mask)
    else if within 28 31 c
    then (c + (b'A' - 1), bit_or state Keydefs.control_mask)
    else if within b'A' b'Z' c
    then (c, bit_or state Keydefs.shift_mask)
    else (c, 0)

-- The result and `key != 0`.
unfoldable pub char_to_key : ℕ → Bool × (ℕ × ℕ)
char_to_key tty =
    let (key, state) =
      char_switch (bit_and tty 0x7f) (if has tty 0x80 then Keydefs.meta_mask else 0) in
    (not (key == 0), (key, state))

-- The value of the first entry with this key in the second place, or 0.
abbrev pub first_of : List (ℕ × ℕ) → ℕ → ℕ
first_of [] key = 0
first_of ((a, k) ∷ r) key = if k == key then a else first_of r key

-- The loop over `cursor_states`: the first entry whose modifier is set.
abbrev pub cursor_params : List (ℕ × ℕ) → ℕ → Bytes
cursor_params [] state = []
cursor_params ((param, mask) ∷ r) state =
    if has state mask then b'0' ∷ b';' ∷ decimal param else cursor_params r state

-- The bytes before the terminating NUL, which is what `strlen` counts.
unfoldable pub c_string : Bytes → Bytes
c_string [] = []
c_string (c ∷ s) = if c == 0 then [] else c ∷ c_string s

abbrev pub cursor_csi : ℕ → ℕ → Csi
cursor_csi key state = record {
  params = cursor_params cursor_states state;
  intermediate = [];
  final = first_of cursor_keyvals key;
}

unfoldable pub is_cursor_case : ℕ → Bool
is_cursor_case key =
    key == Keydefs.left
    || key == Keydefs.up
    || key == Keydefs.right
    || key == Keydefs.down
    || key == Keydefs.delete
    || key == Keydefs.home
    || key == Keydefs.end

-- The `default` case, up to the search of the capabilities.
abbrev pub tty_bytes : ℕ → ℕ → Bytes
tty_bytes key state =
    if has state Keydefs.control_mask
    then (if within b'a' b'z' key
        then (key - (b'a' - 1)) ∷ []
        else if within b'\\' b'_' key
        then (key - (b'A' - 1)) ∷ []
        else [])
    else if has state Keydefs.shift_mask
    then (if within b'a' b'z' key
        then (b'A' + (key - b'a')) ∷ []
        else if within 0x21 0x7e key
        then key ∷ []
        else [])
    else if within 0x21 0x7e key
    then key ∷ []
    else []

abbrev pub or_empty : Option Bytes → Bytes
or_empty none = []
or_empty (some s) = s

module _ (tigetstr : Tigetstr) where
  -- The loop over `cap_keyvals`, where nothing has been written yet.
  abbrev pub cap_bytes : List (String × ℕ) → ℕ → Bytes
  cap_bytes [] key = []
  cap_bytes ((name, k) ∷ r) key =
      if k == key then or_empty (cap_get_string tigetstr name) else cap_bytes r key

  abbrev pub or_caps : ℕ → Bytes → Bytes
  or_caps key [] = cap_bytes cap_keyvals key
  or_caps key (c ∷ s) = c ∷ s

  -- The bytes written; the string returned is null where there are none.
  unfoldable pub key_to_string : ℕ → ℕ → Bytes
  key_to_string key state =
      if is_cursor_case key
      then c_string (csi_format (cursor_csi key state))
      else if key == 0x20
      then (if has state Keydefs.control_mask then 0 ∷ [] else 0x20 ∷ [])
      else if key == Keydefs.return
      then b'\r' ∷ []
      else if key == Keydefs.back_space
      then 0x7f ∷ []
      else if key == Keydefs.escape
      then 27 ∷ []
      else if key == Keydefs.tab
      then b'\t' ∷ []
      else or_caps key (tty_bytes key state)
