-- ===== src/Server.antt =====
-- fep/control.c, lines 133 to 191 and 220 to 330, with `_fep_output_send_text` and
-- `_fep_output_send_data` of fep/output.c: the server's end of the control socket. What is read of a
-- message is in Reply, and the table of clients in Clients. Drawing text (`_fep_output_cursor_text`,
-- `_fep_output_status_text`) is an interface, and `str_iconv` of gnulib and `tigetstr` are
-- parameters. The socket's set-up is in ControlSocket.
pub mod Requests
pub mod Exchange
use libfep.Base.{
  ℕ, zero, suc, Option, none, some, List, Bytes, [], ◌∷◌, length, drop, get_elem?, ◌==◌,
  if◌then◌else◌, Outcome, ok, failed, fault, died, looping,
}
use libfep.Base.Act.{Act, ◌>>=◌, ◌>>◌, lift, pure}
use libfep.Cap.{Tigetstr}
use libfep.FepString.{FepString}
use libfep.Key.{key_to_string}
use libfep.Message
use libfep.Message.{ControlMessage, Attribute, arg_at, read_attribute_arg, append_control_message}
use libfep.Reply.{text_at, option_of, check_response}
use libfep.Request.{read_pair}
use libfep.Wire.{
  Platform, Arrival, Sink, write_fd, send_once, readable, read_control_message,
  write_control_message,
}

-- What draws on the terminal, on a state of its own, and what the libraries give. A conversion that
-- fails gives `none`.
pub record Terminal (S : Type 0) : Type 0 where
  pub cursor_text : Bytes → Attribute → S → S
  pub status_text : Bytes → Attribute → S → S
  pub to_locale : Bytes → Option Bytes
  pub tigetstr : Tigetstr

-- What the handlers change of `struct _Fep`: the screen, and what the child process is sent.
pub record Fep (S : Type 0) : Type 0 where
  pub screen : S
  pub pty : Sink

-- The loop of writes to the child process, with fuel; an error ends it, and is not reported.
unfoldable pub send_all : ℕ → Bytes → Sink → Outcome (Unit {0}) × Sink
send_all zero s pty = (looping, pty)
send_all (suc f) [] pty = (ok tt, pty)
send_all (suc f) (c ∷ s) pty =
    let (n, pty') = write_fd (c ∷ s) pty in
    elim n [ none ↦ (ok tt, pty') | some n ↦ send_all f (drop n (c ∷ s)) pty' ]

module _ {S : Type 0} where
  abbrev pub on_pty : (Sink → Outcome (Unit {0}) × Sink) → Act (Fep S) (Unit {0})
  on_pty m fep = let (r, pty) = m fep.pty in (r, record fep { pty = pty })

  abbrev pub on_screen : (S → S) → Act (Fep S) (Unit {0})
  on_screen draw fep = (ok tt, record fep { screen = draw fep.screen })

module _ (fuel : ℕ) {S : Type 0} (t : Terminal S) where
  -- `_fep_output_cursor_text` or `_fep_output_status_text`, if the attribute can be read.
  abbrev pub draw_with :
      (Bytes → Attribute → S → S) → ControlMessage → Option Attribute → Act (Fep S) (Unit {0})
  draw_with draw request none = pure tt
  draw_with draw request (some attr) = do
    text ← lift (text_at request 0)
    on_screen (draw text attr)

  unfoldable pub command_set_cursor_text : ControlMessage → Act (Fep S) (Unit {0})
  command_set_cursor_text request = do
    attr ← lift (option_of (read_attribute_arg request 1))
    draw_with t.cursor_text request attr

  unfoldable pub command_set_status_text : ControlMessage → Act (Fep S) (Unit {0})
  command_set_status_text request = do
    attr ← lift (option_of (read_attribute_arg request 1))
    draw_with t.status_text request attr

  -- `_fep_output_send_text`
  abbrev pub send_local : Option Bytes → Act (Fep S) (Unit {0})
  send_local none = pure tt
  send_local (some local) = on_pty (send_all fuel local)

  unfoldable pub command_send_text : ControlMessage → Act (Fep S) (Unit {0})
  command_send_text request = do text ← lift (text_at request 0); send_local (t.to_locale text)

  unfoldable pub command_send_data : ControlMessage → Act (Fep S) (Unit {0})
  command_send_data request = do
    arg ← lift (arg_at request 0)
    s ← lift (readable arg)
    on_pty (send_all fuel s)

  -- `if (data)`: a key without a string sends nothing.
  abbrev pub send_key : Bytes → Act (Fep S) (Unit {0})
  send_key [] = pure tt
  send_key (c ∷ s) = on_pty (λ pty. (ok tt, send_once (c ∷ s) pty))

  abbrev pub forward : Option (ℕ × ℕ) → Act (Fep S) (Unit {0})
  forward none = pure tt
  forward (some (keyval, modifiers)) = send_key (key_to_string t.tigetstr keyval modifiers)

  unfoldable pub command_forward_key_event : ControlMessage → Act (Fep S) (Unit {0})
  command_forward_key_event request = do pair ← lift (read_pair request); forward pair

  -- `_fep_dispatch_control_message`
  unfoldable pub dispatch_control_message : ControlMessage → Act (Fep S) (Unit {0})
  dispatch_control_message message =
      if message.command == Message.set_cursor_text
      then command_set_cursor_text message
      else if message.command == Message.set_status_text
      then command_set_status_text message
      else if message.command == Message.send_text
      then command_send_text message
      else if message.command == Message.send_data
      then command_send_data message
      else if message.command == Message.forward_key_event
      then command_forward_key_event message
      else lift failed

-- A call whose return of -1 is ignored.
abbrev pub go_on :
    {S : Type 0} → Outcome (Unit {0}) × S → (S → Outcome (Unit {0}) × S) → Outcome (Unit {0}) × S
go_on (ok u, s) next = next s
go_on (failed, s) next = next s
go_on (fault, s) next = (fault, s)
go_on (died, s) next = (died, s)
go_on (looping, s) next = (looping, s)

-- What the loop that waits for a response leaves: the response or the error, the queue, and the
-- rest of the socket.
pub record Waited : Type 0 where
  pub outcome : Outcome ControlMessage
  pub queue : List ControlMessage
  pub incoming : List Arrival

abbrev pub queued :
    (List ControlMessage → List Arrival → Waited)
    → List ControlMessage
    → List Arrival
    → Outcome (List ControlMessage)
    → Waited
queued again queue fd (ok messages) = again messages fd
queued again queue fd failed = record { outcome = failed; queue = queue; incoming = fd }
queued again queue fd fault = record { outcome = fault; queue = queue; incoming = fd }
queued again queue fd died = record { outcome = died; queue = queue; incoming = fd }
queued again queue fd looping = record { outcome = looping; queue = queue; incoming = fd }

-- What one client's connection and the handlers share.
pub record Link (S : Type 0) : Type 0 where
  pub fep : Fep S
  pub incoming : List Arrival
  pub control : Sink

module _ (p : Platform) (fuel : ℕ) where
  abbrev pub received :
      (List ControlMessage → List Arrival → Waited)
      → List ControlMessage
      → Outcome ControlMessage × List Arrival
      → Waited
  received again queue (ok message, fd) =
      if message.command == Message.response
      then record { outcome = ok message; queue = queue; incoming = fd }
      else queued again queue fd (append_control_message p.memory queue message)
  received again queue (failed, fd) = record { outcome = failed; queue = queue; incoming = fd }
  received again queue (fault, fd) = record { outcome = fault; queue = queue; incoming = fd }
  received again queue (died, fd) = record { outcome = died; queue = queue; incoming = fd }
  received again queue (looping, fd) = record { outcome = looping; queue = queue; incoming = fd }

  -- `while (true)`, with fuel for the messages.
  unfoldable pub wait : ℕ → List ControlMessage → List Arrival → Waited
  wait zero queue fd = record { outcome = looping; queue = queue; incoming = fd }
  wait (suc n) queue fd =
      let again = λ (q : List ControlMessage) (r : List Arrival). wait n q r in
      received again queue (read_control_message p fuel fd)

  module _ {S : Type 0} (t : Terminal S) where
    -- The loop behind `out:`.
    unfoldable pub flush_queue : List ControlMessage → Act (Fep S) (Unit {0})
    flush_queue [] fep = (ok tt, fep)
    flush_queue (message ∷ messages) fep =
        go_on (dispatch_control_message fuel t message fep) (flush_queue messages)

    -- From the loop on, given what it left. An access out of bounds, the end of the process and a
    -- loop without end never reach `out:`.
    abbrev pub flushed : Outcome ControlMessage → Outcome (Unit {0}) → Outcome ControlMessage
    flushed result (ok u) = result
    flushed result failed = result
    flushed result fault = fault
    flushed result died = died
    flushed result looping = looping

    abbrev pub out : List ControlMessage → Outcome ControlMessage → Act (Fep S) ControlMessage
    out queue (ok response) fep =
        let (r, fep') = flush_queue queue fep in (flushed (ok response) r, fep')
    out queue failed fep = let (r, fep') = flush_queue queue fep in (flushed failed r, fep')
    out queue fault fep = (fault, fep)
    out queue died fep = (died, fep)
    out queue looping fep = (looping, fep)

    abbrev pub conclude : ControlMessage → Waited → Link S → Outcome ControlMessage × Link S
    conclude request waited link =
        let (r, fep) = out waited.queue (check_response request waited.outcome) link.fep in
        (r, record link { fep = fep; incoming = waited.incoming })

    -- `_fep_transceive_control_message`, with the response as its result.
    unfoldable pub transceive : ControlMessage → Act (Link S) ControlMessage
    transceive request link =
        (do
          (λ (l : Link S).
              let (r, sink) = write_control_message fuel request l.control in
              (r, record l { control = sink }))
          λ (l : Link S). conclude request (wait fuel [] l.incoming) l)
          link
