-- ===== src/Client.antt =====
-- libfep/client.c: the client's end of the control socket. The opening of the connection is in
-- Opening; closing it and handing out its descriptor are left out. The event filter is the
-- application's: a function from the event to the client calls that it makes, in order, and its
-- result, an `int` as its 32-bit pattern. The result of a write is ignored, as the code ignores it.
pub mod Calls
pub mod Dispatch
pub mod Handling
pub mod Steps
pub mod Opening
use libfep.Base.{
  ℕ, ◌-◌, ◌^◌, Bool, true, false, ◌||◌, Option, none, some, List, [], ◌∷◌, ◌==◌, if◌then◌else◌,
  Outcome, ok, failed, fault, died, looping,
}
use libfep.Base.Act.{Act, ◌>>=◌, ◌>>◌, lift, pure}
use libfep.Message
use libfep.Message.{ControlMessage, write_uint32_arg, append_control_message}
use libfep.Request.{
  Call, send_data, message_of, Event, read_pair, start_response, source_of, key_event_of,
  resize_event_of,
}
use libfep.Wire.{Platform, Arrival, Sink, read_control_message, write_control_message}

-- `struct _FepClient` but for the filter, and the two directions of its socket.
pub record Client : Type 0 where
  pub incoming : List Arrival
  pub control : Sink
  pub filter_running : Bool
  pub messages : List ControlMessage

abbrev pub Filter : Type 0
Filter = Event → List Call × ℕ

-- A call whose return of -1 is ignored.
abbrev pub ignoring : Outcome (Unit {0}) × Sink → Client → Outcome (Unit {0}) × Client
ignoring (ok u, sink) client = (ok tt, record client { control = sink })
ignoring (failed, sink) client = (ok tt, record client { control = sink })
ignoring (fault, sink) client = (fault, record client { control = sink })
ignoring (died, sink) client = (died, record client { control = sink })
ignoring (looping, sink) client = (looping, record client { control = sink })

abbrev pub has_handler : ℕ → Bool
has_handler command = command == Message.key_event || command == Message.resize_event

-- `client->filter_running = …`
abbrev pub running : Bool → Act Client (Unit {0})
running b client = (ok tt, record client { filter_running = b })

-- A read from the socket of the client.
abbrev pub receiving : Act (List Arrival) ControlMessage → Act Client ControlMessage
receiving m client = let (r, fd) = m client.incoming in (r, record client { incoming = fd })

module _ (p : Platform) (fuel : ℕ) where
  unfoldable pub write_message : ControlMessage → Act Client (Unit {0})
  write_message message client = ignoring (write_control_message fuel message client.control) client

  -- `client->messages = _fep_append_control_message (client->messages, &message)`
  unfoldable pub queue_message : ControlMessage → Act Client (Unit {0})
  queue_message message client =
      (do
        messages ← lift (append_control_message p.memory client.messages message)
        λ (c : Client). (ok tt, record c { messages = messages }))
        client

  -- Queue the message while a handler runs, else write it.
  unfoldable pub submit : ControlMessage → Act Client (Unit {0})
  submit message client =
      if client.filter_running then queue_message message client else write_message message client

  -- `fep_client_set_cursor_text` and the four calls like it.
  unfoldable pub perform : Call → Act Client (Unit {0})
  perform call = do message ← lift (message_of call); submit message

  unfoldable pub perform_all : List Call → Act Client (Unit {0})
  perform_all [] client = (ok tt, client)
  perform_all (call ∷ calls) client = (do perform call; perform_all calls) client

  -- `if (retval == 0 && client->filter)`: the filter is called and its result put in the
  -- response. The number is `intval`: the filter's result, or `retval` as a `uint32_t`.
  unfoldable pub run_filter :
      Option Filter
      → Option (ℕ × ℕ)
      → (ℕ × ℕ → Outcome Event)
      → ControlMessage
      → Act Client (ControlMessage × ℕ)
  run_filter filter none event_of response client = (ok (response, 2 ^ 32 - 1), client)
  run_filter none (some pair) event_of response client = (ok (response, 0), client)
  run_filter (some filter) (some pair) event_of response client =
      (do
        event ← lift (event_of pair)
        perform_all (filter event).0
        response' ← lift (write_uint32_arg response 1 (filter event).1)
        pure (response', (filter event).1))
        client

  unfoldable pub send_back : ControlMessage → Act Client (Unit {0})
  send_back request = do source ← lift (source_of request); perform (send_data source)

  unfoldable pub command_key_event : Option Filter → ControlMessage → Act Client ControlMessage
  command_key_event filter request = do
    pair ← lift (read_pair request)
    response ← lift (start_response Message.key_event)
    answered ← run_filter filter pair (key_event_of request) response
    (if answered.1 == 0 then send_back request else pure tt)
    pure answered.0

  unfoldable pub command_resize_event : Option Filter → ControlMessage → Act Client ControlMessage
  command_resize_event filter request = do
    pair ← lift (read_pair request)
    response ← lift (start_response Message.resize_event)
    answered ← run_filter filter pair resize_event_of response
    pure answered.0

  -- The entry of `handlers`, which has these two.
  unfoldable pub handle : Option Filter → ControlMessage → Act Client ControlMessage
  handle filter request =
      if request.command == Message.key_event
      then command_key_event filter request
      else command_resize_event filter request

  -- The loop that flushes the queue, on the messages in it.
  unfoldable pub flush : List ControlMessage → Act Client (Unit {0})
  flush [] client = (ok tt, client)
  flush (message ∷ rest) client =
      (do write_message message; flush rest) (record client { messages = rest })

  -- What the client does for a request it has read: the handler, its response, and the queue.
  unfoldable pub respond : Option Filter → ControlMessage → Act Client (Unit {0})
  respond filter request = do
    running true
    response ← handle filter request
    write_message response
    running false
    λ (c : Client). flush c.messages c

  -- `fep_client_dispatch`; `failed` is a return of -1.
  unfoldable pub dispatch : Option Filter → Act Client (Unit {0})
  dispatch filter client =
      (do
        request ← receiving (read_control_message p fuel)
        if has_handler request.command then respond filter request else lift failed)
        client
