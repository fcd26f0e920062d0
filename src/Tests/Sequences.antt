-- ===== src/Tests/Sequences.antt =====
-- Control sequences and keys at fixed inputs.
use libfep.Base.{◌≤◌, ◌≡◌, refl, true, some, none, inl, Bytes, [], ◌∷◌, ◌++◌, length, ok, arith}
use libfep.Csi.{Csi, csi_scan, Scan}
use libfep.Csi.Parsing.{IsWellFormed}
use libfep.Csi.Scanning.{Reports, csi_scan-Reports}
use libfep.Key.{char_to_key, key_to_string}
use libfep.Key.Chars.{key_to_string-char_to_key}
use libfep.Key.Cursor.{esc_to_key-key_to_string}
use libfep.Key.Escape.{esc_to_key}
use libfep.Key.Progress.{esc_to_key_progress}
use libfep.Keydefs
use libfep.Tests.{dumb}

-- ESC [ 0 ; 2 A
abbrev shift_up : Csi
shift_up = record { params = b'0' ∷ b';' ∷ b'2' ∷ []; intermediate = []; final = b'A' }

shift_up-IsWellFormed : IsWellFormed shift_up
shift_up-IsWellFormed = record {
  params_ok = (refl, (refl, (refl, tt)));
  intermediate_ok = tt;
  final_ok = refl;
}

abbrev tail : Bytes
tail = b'x' ∷ []

csi_scan-Reports_example :
    (r : Scan) × (csi_scan (b'a' ∷ 27 ∷ b'[' ∷ []) none ≡ ok r)
    × Reports (b'a' ∷ 27 ∷ b'[' ∷ []) none r
csi_scan-Reports_example = csi_scan-Reports (b'a' ∷ 27 ∷ b'[' ∷ []) none

-- Control and `a`
key_to_string-char_to_key_example :
    let (read, (key, state)) = char_to_key 1 in
    (read ≡ true) × (key_to_string dumb key state ≡ 1 ∷ [])
key_to_string-char_to_key_example = key_to_string-char_to_key dumb 1 (omega arith)

-- Shift and Control with Up: the Control is lost.
esc_to_key-key_to_string_example :
    esc_to_key dumb (key_to_string dumb Keydefs.up 5 ++ tail) ≡ ok (some ((Keydefs.up, 1), tail))
esc_to_key-key_to_string_example = esc_to_key-key_to_string dumb Keydefs.up 5 tail (inl refl)

esc_to_key_progress_example :
    (used : Bytes) × (key_to_string dumb Keydefs.up 1 ++ tail ≡ used ++ tail) × (3 ≤ length used)
esc_to_key_progress_example =
    esc_to_key_progress dumb (key_to_string dumb Keydefs.up 1 ++ tail)
      (esc_to_key-key_to_string dumb Keydefs.up 1 tail (inl refl))

-- ESC [ 0 ; ? A
abbrev odd : Csi
odd = record { params = b'0' ∷ b';' ∷ b'?' ∷ []; intermediate = []; final = b'A' }
