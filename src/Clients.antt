-- ===== src/Clients.antt =====
-- fep/control.c, lines 193 to 217: a message from a client's socket, and the table of clients, from
-- which a client that fails is taken. The table is the array `clients` of `struct _Fep`, as `int`s
-- in 32 bits; `memmove` works on its bytes.
pub mod Removal
use libfep.Base.{
  ℕ, zero, suc, ◌+◌, ◌-◌, ◌*◌, ◌^◌, Option, none, some, List, Bytes, [], ◌∷◌, ◌++◌, take, drop, set,
  get_elem?, ◌==◌, ltb, if◌then◌else◌, Outcome, ok, failed, fault, died, looping,
}
use libfep.Message.{ControlMessage, le32}
use libfep.Wire.{Platform, Arrival, read_control_message}

pub record Clients : Type 0 where
  pub fds : List ℕ
  pub n_clients : ℕ

-- The bytes of the array, and the array of the bytes.
unfoldable pub image : List ℕ → Bytes
image [] = []
image (fd ∷ fds) = le32 fd ++ image fds

unfoldable pub ints : Bytes → List ℕ
ints (b0 ∷ b1 ∷ b2 ∷ b3 ∷ s) = (b0 + b1 * 2 ^ 8 + b2 * 2 ^ 16 + b3 * 2 ^ 24) ∷ ints s
ints _ = []

-- `memmove (&clients[i], &clients[i + 1], count)`
unfoldable pub move_down : ℕ → ℕ → List ℕ → List ℕ
move_down i count fds =
    let b = image fds in
    ints (take (4 * i) b ++ (take count (drop (4 * (i + 1)) b) ++ drop (4 * i + count) b))

-- The body of the loop, at the client found.
unfoldable pub remove_at : ℕ → Clients → Clients
remove_at i c =
    let fds =
      if ltb (i + 1) c.n_clients then move_down i (c.n_clients - (i + 1)) c.fds else c.fds in
    record { fds = set fds (c.n_clients - 1) (2 ^ 32 - 1); n_clients = c.n_clients - 1 }

-- The first of the `n` clients from `i` on that has this descriptor.
unfoldable pub find_client : ℕ → List ℕ → ℕ → ℕ → Option ℕ
find_client zero fds i fd = none
find_client (suc n) [] i fd = none
find_client (suc n) (a ∷ fds) i fd =
    let rest = find_client n fds (i + 1) fd in if a == fd then some i else rest

unfoldable pub remove_client : ℕ → Clients → Clients
remove_client fd c = elim (find_client c.n_clients c.fds 0 fd) [ none ↦ c | some i ↦ remove_at i c ]

abbrev pub or_remove :
    ℕ
    → Outcome ControlMessage × List Arrival
    → Clients
    → (Outcome ControlMessage × List Arrival) × Clients
or_remove fd (failed, incoming) c = ((failed, incoming), remove_client fd c)
or_remove fd (ok message, incoming) c = ((ok message, incoming), c)
or_remove fd (fault, incoming) c = ((fault, incoming), c)
or_remove fd (died, incoming) c = ((died, incoming), c)
or_remove fd (looping, incoming) c = ((looping, incoming), c)

-- `_fep_read_control_message_from_fd`, on the socket with this descriptor
unfoldable pub read_control_message_from_fd :
    Platform → ℕ → ℕ → List Arrival → Clients → (Outcome ControlMessage × List Arrival) × Clients
read_control_message_from_fd p fuel fd incoming c =
    or_remove fd (read_control_message p fuel incoming) c
