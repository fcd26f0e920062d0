-- ===== src/Client/Opening.antt =====
-- libfep/client.c, lines 63 to 114: the connection to the server. The environment, the length of
-- `sun_path`, and the results of `socket` and `connect` are parameters.
use libfep.Base.{
  ℕ, ◌+◌, Bool, false, Option, none, some, List, Bytes, [], length, leb, if◌then◌else◌, Outcome, ok,
  fault,
}
use libfep.Client.{Client}
use libfep.Wire.{Arrival, Sink}

-- What the system says: `LIBFEP_CONTROL_SOCK` in the environment, whether a socket can be made, and
-- what an address connects to.
pub record System : Type 0 where
  pub control_sock : Option Bytes
  pub path_size : ℕ
  pub has_socket : Bool
  pub connect : Bytes → Option (List Arrival × Sink)

-- `client`, zeroed and connected
abbrev pub new_client : List Arrival × Sink → Client
new_client (incoming, control) = record {
  incoming = incoming;
  control = control;
  filter_running = false;
  messages = [];
}

abbrev pub or_else : Option Bytes → Option Bytes → Option Bytes
or_else none b = b
or_else (some a) b = some a

abbrev pub connected_to : System → Bytes → Option Client
connected_to system address =
    if system.has_socket
    then elim (system.connect address) [ none ↦ none | some ends ↦ some (new_client ends) ]
    else none

-- `free (address)`, of a block that the caller has allocated; the environment is no such block.
abbrev pub free_address : Option Bytes → Bool → Outcome (Option Client)
free_address none is_block = fault
free_address (some address) is_block = if is_block then ok none else fault

-- `fep_client_open`; `none` is a null result. `is_block` says whether `address` may be given to
-- `free`.
unfoldable pub open_client : System → Option Bytes → Bool → Outcome (Option Client)
open_client system address is_block = elim (or_else address system.control_sock) [
  | none ↦ ok none
  | some path ↦
      if leb system.path_size (length path + 1)
      then free_address address is_block
      else ok (connected_to system path)
]
