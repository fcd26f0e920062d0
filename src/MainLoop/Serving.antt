-- ===== src/MainLoop/Serving.antt =====
-- fep/fep.c, lines 362 to 498: what the loop does with what is ready, given what the terminal, the
-- child process and the control socket have then. `BUFSIZ` is the platform's.
use libfep.Base.{
  ℕ, zero, suc, ◌+◌, ◌-◌, ◌^◌, Bool, true, false, ◌&&◌, ◌||◌, Option, none, some, List, Bytes, [],
  ◌∷◌, ◌++◌, length, take, replicate, set, get_elem?, ◌==◌, ltb, if◌then◌else◌, Outcome, ok, failed,
  fault, died, looping,
}
use libfep.Base.Act.{Act, ◌>>=◌, ◌>>◌, lift, pure}
use libfep.Base.Int.{pos, negsuc}
use libfep.Clients.{Clients, read_control_message_from_fd}
use libfep.Input.{Reading, read_tty}
use libfep.Key.Escape.{esc_to_key}
use libfep.MainLoop.{add_client}
use libfep.MainLoop.Child.{Drawn, on_drawn, pty_input}
use libfep.MainLoop.Loop.{Socket, Program, clients, socket_at, key_of, tty_input}
use libfep.MainLoop.Running.{Running, Next, goes_on, returns, exits, on_program, settle}
use libfep.Message.{ControlMessage}
use libfep.Reply.{option_of}
use libfep.Screen.{Device}
use libfep.Server.{Terminal, dispatch_control_message, go_on}
use libfep.Wire.{Platform, Arrival, broken}

-- What is ready: the terminal, the child process, the control socket, and the descriptors of the
-- clients. `output` is what a read from the child process gives, and `accepted` what `accept` does.
pub record Ready : Type 0 where
  pub tty_in : Bool
  pub pty : Bool
  pub server : Bool
  pub control : List ℕ
  pub output : Option Bytes
  pub accepted : Option (ℕ × Socket)

unfoldable pub is_set : ℕ → List ℕ → Bool
is_set fd [] = false
is_set fd (a ∷ fds) = a == fd || is_set fd fds

-- `FD_CLR` on each of these clients
unfoldable pub cleared : List ℕ → List ℕ → List ℕ
cleared fds [] = []
cleared fds (a ∷ control) =
    let rest = cleared fds control in if is_set a fds then rest else a ∷ rest

-- Opens a descriptor.
unfoldable pub with_open : ℕ → Socket → List (Option Socket) → List (Option Socket)
with_open fd sock sockets =
    if ltb fd (length sockets)
    then set sockets fd (some sock)
    else sockets ++ (replicate (fd - length sockets) none ++ some sock ∷ [])

-- A read from a descriptor that is not open fails.
abbrev pub incoming_of : Option Socket → List Arrival
incoming_of none = broken ∷ []
incoming_of (some sock) = sock.incoming

abbrev pub with_incoming :
    List (Option Socket) → ℕ → Option Socket → List Arrival → List (Option Socket)
with_incoming sockets fd none incoming = sockets
with_incoming sockets fd (some sock) incoming =
    set sockets fd (some (record sock { incoming = incoming }))

-- An end of the loop is not gone on from.
abbrev pub unless_left : Act Running Next → Next → Act Running Next
unless_left next goes_on m = next m
unless_left next (returns n) m = (ok (returns n), m)
unless_left next (exits code) m = (ok (exits code), m)

module _ (p : Platform) (fuel : ℕ) (d : Device) (t : Terminal Drawn) (clr_eos : Bytes) where
  -- Whether some key is read of the bytes, so that the clients are asked.
  unfoldable pub reads_key : ℕ → Bytes → Outcome Bool
  reads_key zero buf = looping
  reads_key (suc f) [] = ok false
  reads_key (suc f) (c ∷ s) = go (key_of c s (esc_to_key t.tigetstr (c ∷ s))) (reads_key f)
    where
      go : Outcome ((Bool × (ℕ × ℕ)) × Bytes) → (Bytes → Outcome Bool) → Outcome Bool
      go (ok ((true, key), rest)) next = ok true
      go (ok ((false, key), rest)) next = next rest
      go failed next = failed
      go fault next = fault
      go died next = died
      go looping next = looping

  abbrev pub bytes_read : Reading → Bytes
  bytes_read r = take r.returned (r.stored ++ replicate p.buf_size 0)

  -- `_fep_read (fep, buf, sizeof(buf) - 1)`; `none` is a return of -1.
  abbrev pub read_keys : Act (Program Drawn) (Option Reading)
  read_keys m =
      let s = m.fep.screen.1 in
      let (r, tty) = read_tty (p.buf_size - 1) s.tty in
      (
        option_of r,
        record m { fep = record m.fep { screen = (m.fep.screen.0, record s { tty = tty }) } },
      )

  -- The keys that were read, and what is ready of the clients then
  abbrev pub type_keys : List ℕ → Bytes → Act Running (Next × List ℕ)
  type_keys control buf m =
      (do
        asked ← lift (reads_key (suc (length buf)) buf)
        on_program (tty_input p fuel t buf)
        settle
        pure (goes_on, if asked then cleared (clients m.program) control else control))
        m

  abbrev pub keys_read : List ℕ → Option Reading → Act Running (Next × List ℕ)
  keys_read control none = pure (returns (negsuc 0), control)
  keys_read control (some r) =
      if r.returned == 0 then pure (returns (pos 0), control) else type_keys control (bytes_read r)

  -- Input from the terminal
  unfoldable pub serve_tty : Ready → Act Running (Next × List ℕ)
  serve_tty w =
      if w.tty_in
      then (do r ← on_program read_keys; keys_read w.control r)
      else pure (goes_on, w.control)

  -- `bytes_read <= 0` leaves the loop with the 0 that `retval` holds.
  abbrev pub output_read : Option Bytes → Act Running Next
  output_read none = pure (returns (pos 0))
  output_read (some []) = pure (returns (pos 0))
  output_read (some (c ∷ s)) = do
    on_program
        (on_drawn (pty_input d p.buf_size d.clear_screen clr_eos (take (p.buf_size - 1) (c ∷ s))))
    pure goes_on

  -- Input from the child process
  unfoldable pub serve_pty : Ready → Act Running Next
  serve_pty w = if w.pty then output_read w.output else pure goes_on

  abbrev pub accept_client : Option (ℕ × Socket) → Act (Program Drawn) (Unit {0})
  accept_client none m = (ok tt, m)
  accept_client (some (fd, sock)) m =
      (do
        table ← lift (add_client fd m.table)
        λ (m : Program Drawn).
            (ok tt, record m { table = table; sockets = with_open fd sock m.sockets }))
        m

  -- A connection to the control socket
  unfoldable pub serve_server : Ready → Act Running (Unit {0})
  serve_server w = if w.server then on_program (accept_client w.accepted) else pure tt

  abbrev pub dispatched : ControlMessage → Act (Program Drawn) (Unit {0})
  dispatched message m =
      let (r, fep) = go_on (dispatch_control_message fuel t message m.fep) (λ fep. (ok tt, fep)) in
      (r, record m { fep = fep })

  -- What is left where the message was read, or where the client was taken from the table.
  abbrev pub message_read :
      ℕ → (Outcome ControlMessage × List Arrival) × Clients → Act (Program Drawn) (Unit {0})
  message_read fd ((ok message, incoming), table) m = dispatched message (record m {
    table = table;
    sockets = with_incoming m.sockets fd (socket_at m.sockets fd) incoming;
  })
  message_read fd ((failed, incoming), table) m =
      (ok tt, record m { table = table; sockets = set m.sockets fd none })
  message_read fd ((fault, incoming), table) m = (fault, m)
  message_read fd ((died, incoming), table) m = (died, m)
  message_read fd ((looping, incoming), table) m = (looping, m)

  unfoldable pub serve_client : ℕ → Act (Program Drawn) (Unit {0})
  serve_client fd m =
      message_read fd
        (read_control_message_from_fd p fuel fd (incoming_of (socket_at m.sockets fd)) m.table) m

  -- `if (fep->clients[i] >= 0 && FD_ISSET(fep->clients[i], &fds))`
  abbrev pub serve_fd : List ℕ → Option ℕ → Act (Program Drawn) (Unit {0})
  serve_fd control none m = (fault, m)
  serve_fd control (some fd) m =
      if ltb fd (2 ^ 31) && is_set fd control then serve_client fd m else (ok tt, m)

  unfoldable pub serve_place : List ℕ → ℕ → Act (Program Drawn) (Unit {0})
  serve_place control i m = serve_fd control (get_elem? m.table.fds i) m

  -- `for (i = 0; i < fep->n_clients; i++)`, with fuel
  unfoldable pub serve_from : ℕ → List ℕ → ℕ → Act (Program Drawn) (Unit {0})
  serve_from zero control i m = (looping, m)
  serve_from (suc f) control i m =
      if ltb i m.table.n_clients
      then (do serve_place control i; serve_from f control (i + 1)) m
      else (ok tt, m)

  -- Input from the clients
  unfoldable pub serve_clients : List ℕ → Act (Program Drawn) (Unit {0})
  serve_clients control m = serve_from (suc m.table.n_clients) control 0 m

  abbrev pub serve_rest : Ready → List ℕ → Act Running Next
  serve_rest w control = do
    next ← serve_pty w
    unless_left (do serve_server w; on_program (serve_clients control); settle; pure goes_on) next
