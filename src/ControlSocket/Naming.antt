-- ===== src/ControlSocket/Naming.antt =====
-- The name of the control socket, and what is removed at the end.
use libfep.Base.{◌≡◌, Option, none, some, Bytes, [], ◌∷◌, ok}
use libfep.ControlSocket.{unlink, rmdir, remove_control_socket}

-- The name of a socket whose directory is the one that was made
abbrev pub Removable : (Bytes → Option Bytes) → Option Bytes → Type 0
Removable mkdtemp none = Unit
Removable mkdtemp (some name) =
    (asked new : Bytes) × (mkdtemp asked ≡ some new)
    × (remove_control_socket name ≡ ok (unlink name ∷ rmdir new ∷ []))

abbrev directory_template : Bytes
directory_template = b'f' ∷ b'e' ∷ b'p' ∷ b'-' ∷ b'X' ∷ b'X' ∷ b'X' ∷ b'X' ∷ b'X' ∷ b'X' ∷ []

abbrev control_file : Bytes
control_file = b'c' ∷ b'o' ∷ b'n' ∷ b't' ∷ b'r' ∷ b'o' ∷ b'l' ∷ []
