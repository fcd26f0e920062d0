-- ===== src/MainLoop/Loop.antt =====
-- fep/fep.c, lines 378 to 436: the handling of the keys that are typed. A client is the two
-- directions of its socket, and the sockets that are open are a list in the order of their
-- descriptors; the table of clients holds descriptors.
use libfep.Base.{
  ℕ, zero, suc, ◌-◌, Bool, true, false, ◌||◌, Option, none, some, List, Bytes, [], ◌∷◌, length,
  take, get_elem?, set, Outcome, ok, failed, fault, died, looping,
}
use libfep.Base.Act.{Act, ◌>>=◌, ◌>>◌, lift, pure}
use libfep.Clients.{Clients}
use libfep.Key.{char_to_key}
use libfep.Key.Escape.{esc_to_key}
use libfep.MainLoop.Events.{key_request}
use libfep.Message.{ControlMessage}
use libfep.Server.{Fep, Terminal, Link, transceive}
use libfep.Wire.{Platform, Arrival, Sink, send_once}

pub record Socket : Type 0 where
  pub incoming : List Arrival
  pub control : Sink

-- `none` in the place of a descriptor stands for one that is not open.
pub record Program (S : Type 0) : Type 0 where
  pub fep : Fep S
  pub table : Clients
  pub sockets : List (Option Socket)

-- `fep->clients[…]` below `fep->n_clients`
abbrev pub clients : {S : Type 0} → Program S → List ℕ
clients m = take m.table.n_clients m.table.fds

abbrev pub flattened : Option (Option Socket) → Option Socket
flattened none = none
flattened (some sock) = sock

abbrev pub socket_at : List (Option Socket) → ℕ → Option Socket
socket_at sockets fd = flattened (get_elem? sockets fd)

-- `_fep_esc_to_key`, or else `_fep_char_to_key` on one byte: whether a key was read, the key, and
-- what is behind it.
abbrev pub or_char : ℕ → Bytes → Option ((ℕ × ℕ) × Bytes) → (Bool × (ℕ × ℕ)) × Bytes
or_char c s none = (char_to_key c, s)
or_char c s (some (key, rest)) = ((true, key), rest)

abbrev pub key_of :
    ℕ → Bytes → Outcome (Option ((ℕ × ℕ) × Bytes)) → Outcome ((Bool × (ℕ × ℕ)) × Bytes)
key_of c s (ok found) = ok (or_char c s found)
key_of c s failed = failed
key_of c s fault = fault
key_of c s died = died
key_of c s looping = looping

-- `== 0` on the result of `_fep_transceive_control_message`
abbrev pub answered : Outcome ControlMessage → Outcome Bool
answered (ok response) = ok true
answered failed = ok false
answered fault = fault
answered died = died
answered looping = looping

module _ {S : Type 0} where
  -- `if (!is_key_handled) write (fep->pty, …)`
  abbrev pub relay : Bytes → Bool → Act (Program S) (Unit {0})
  relay piece true m = (ok tt, m)
  relay piece false m = (ok tt, record m { fep = record m.fep { pty = send_once piece m.fep.pty } })

module _ (p : Platform) (fuel : ℕ) {S : Type 0} (t : Terminal S) where
  abbrev pub link_of : Program S → Socket → Link S
  link_of m sock = record { fep = m.fep; incoming = sock.incoming; control = sock.control }

  abbrev pub with_link : ℕ → Link S → Program S → Program S
  with_link fd link m = record m {
    fep = link.fep;
    sockets = set m.sockets fd (some (record { incoming = link.incoming; control = link.control }));
  }

  -- `_fep_transceive_control_message (…) == 0`; a descriptor that is not open can not be written.
  abbrev pub ask_socket : ControlMessage → ℕ → Option Socket → Act (Program S) Bool
  ask_socket request fd none m = (ok false, m)
  ask_socket request fd (some sock) m =
      let (r, link) = transceive p fuel t request (link_of m sock) in
      (answered r, with_link fd link m)

  abbrev pub ask : ControlMessage → ℕ → Act (Program S) Bool
  ask request fd m = ask_socket request fd (socket_at m.sockets fd) m

  -- The loop over the clients: whether one of them has answered. A negative descriptor, which is
  -- passed over, is not open.
  unfoldable pub ask_all : ControlMessage → List ℕ → Act (Program S) Bool
  ask_all request [] m = (ok false, m)
  ask_all request (fd ∷ fds) m = (do b ← ask request fd; c ← ask_all request fds; pure (b || c)) m

  abbrev pub ask_clients : ControlMessage → Act (Program S) Bool
  ask_clients request m = ask_all request (clients m) m

  -- `if (is_key_read)`: whether the key was handled.
  abbrev pub deliver : Bytes → Bool × (ℕ × ℕ) → Act (Program S) Bool
  deliver piece (false, key) m = (ok false, m)
  deliver piece (true, (keyval, state)) m =
      (do request ← lift (key_request keyval state piece); ask_clients request) m

  -- `for (i = 0; i < bytes_read; )`, with fuel; `buf` is what starts at `buf + i`.
  unfoldable pub key_loop : ℕ → Bytes → Act (Program S) (Unit {0})
  key_loop zero buf m = (looping, m)
  key_loop (suc f) [] m = (ok tt, m)
  key_loop (suc f) (c ∷ s) m =
      (do
        (key, rest) ← lift (key_of c s (esc_to_key t.tigetstr (c ∷ s)))
        let piece = take (length (c ∷ s) - length rest) (c ∷ s)
        handled ← deliver piece key
        relay piece handled
        key_loop f rest)
        m

  -- Input from the terminal, of the bytes that were read.
  unfoldable pub tty_input : Bytes → Act (Program S) (Unit {0})
  tty_input buf = key_loop (suc (length buf)) buf
