-- ===== src/ControlSocket.antt =====
-- fep/control.c, lines 26 to 131: the socket that the clients connect to, with its name and its
-- removal. The environment and the system calls are parameters: `mkdtemp` gives the name of the
-- directory that it has made. Closing a descriptor that could not be used is left out.
pub mod Naming
use libfep.Base.{
  ℕ, ◌+◌, Bool, Option, none, some, List, Bytes, [], ◌∷◌, ◌++◌, length, ◌==◌, leb, if◌then◌else◌,
  Outcome, ok, failed, fault, died, ◌>>=◌,
}

-- `strrchr`: what is before the last such byte, and what is behind it
unfoldable pub strrchr : Bytes → ℕ → Option (Bytes × Bytes)
strrchr [] c = none
strrchr (a ∷ s) c = elim (strrchr s c) [
  | none ↦ if a == c then some ([], s) else none
  | some (before, behind) ↦ some (a ∷ before, behind)
]

-- "fep-XXXXXX/control"
abbrev pub template : Bytes
template =
    (b'f' ∷ b'e' ∷ b'p' ∷ b'-' ∷ b'X' ∷ b'X' ∷ b'X' ∷ b'X' ∷ b'X' ∷ b'X' ∷ [])
    ++ b'/' ∷ b'c' ∷ b'o' ∷ b'n' ∷ b't' ∷ b'r' ∷ b'o' ∷ b'l' ∷ []

-- `if (!p || !*p) p = "/tmp"`
abbrev pub tmpdir_or : Option Bytes → Bytes
tmpdir_or none = b'/' ∷ b't' ∷ b'm' ∷ b'p' ∷ []
tmpdir_or (some []) = b'/' ∷ b't' ∷ b'm' ∷ b'p' ∷ []
tmpdir_or (some (c ∷ p)) = c ∷ p

-- `p[strlen (p) - 1] != '/'`
abbrev pub with_slash : Bytes → Bytes
with_slash [] = b'/' ∷ []
with_slash (c ∷ []) = if c == b'/' then c ∷ [] else c ∷ b'/' ∷ []
with_slash (c ∷ a ∷ p) = c ∷ with_slash (a ∷ p)

-- From the test of `mkdtemp` on; `file` is what is behind the last slash.
abbrev pub named : Bytes → Option Bytes → Outcome (Option Bytes)
named file none = ok none
named file (some new) = ok (some (new ++ b'/' ∷ file))

-- From `p = strrchr (name, '/')` on.
abbrev pub made : (Bytes → Option Bytes) → Option (Bytes × Bytes) → Outcome (Option Bytes)
made mkdtemp none = fault
made mkdtemp (some (directory, file)) = named file (mkdtemp directory)

-- `create_socket_name`; a text that does not fit the block of `len` bytes is a fault.
unfoldable pub create_socket_name : Option Bytes → (Bytes → Option Bytes) → Outcome (Option Bytes)
create_socket_name tmpdir mkdtemp =
    let p = tmpdir_or tmpdir in
    let len = (length p + length template) + 2 in
    let name = with_slash p ++ template in
    if leb (length name + 1) len then made mkdtemp (strrchr name b'/') else fault

-- What the program asks of the file system
pub data FileCall : Type 0 where
  unlink rmdir : Bytes → FileCall

abbrev pub removal : Bytes → Option (Bytes × Bytes) → Outcome (List FileCall)
removal path none = died
removal path (some (directory, file)) = ok (unlink path ∷ rmdir directory ∷ [])

unfoldable pub remove_control_socket : Bytes → Outcome (List FileCall)
remove_control_socket path = removal path (strrchr path b'/')

-- What the system says: the descriptor of a new socket, the size of `sun_path`, and whether `bind`
-- and `listen` succeed.
pub record Host : Type 0 where
  pub tmpdir : Option Bytes
  pub mkdtemp : Bytes → Option Bytes
  pub socket : Option ℕ
  pub path_size : ℕ
  pub bind : Bytes → Bool
  pub listen : Bool

-- From the test of the path on, with what `fep` keeps: the descriptor and the path. A null path is
-- given to `strlen`.
abbrev pub bound : Host → ℕ → Option Bytes → Outcome (ℕ × Bytes)
bound host fd none = fault
bound host fd (some path) =
    if leb host.path_size (length path + 1)
    then failed
    else if host.bind path
    then (if host.listen then ok (fd, path) else failed)
    else failed

-- `_fep_open_control_socket`
unfoldable pub open_control_socket : Host → Outcome (ℕ × Bytes)
open_control_socket host = elim host.socket [
  | none ↦ failed
  | some fd ↦ create_socket_name host.tmpdir host.mkdtemp >>= λ path. bound host fd path
]

-- `_fep_close_control_socket`, after the socket was opened
unfoldable pub close_control_socket : ℕ × Bytes → Outcome (List FileCall)
close_control_socket (server, control_socket_path) = remove_control_socket control_socket_path
