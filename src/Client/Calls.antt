-- ===== src/Client/Calls.antt =====
-- A client call sends its message, or queues it while a handler runs.
use libfep.Base.{
  ℕ, suc, ◌+◌, ◌≤◌, ◌<◌, ◌≡◌, refl, ap, ◌∙◌, Bool, true, false, List, Bytes, [], ◌∷◌, ◌++◌, length,
  map, leb, if◌then◌else◌, ok, All, arith, append-nil, append_assoc, take_all, drop_all,
}
use libfep.Client.{Client, write_message, queue_message, submit, perform, perform_all, flush}
use libfep.FepString.{Memory, copy}
use libfep.Message.{
  ControlMessage, exact, le32, attribute_bytes, alloc_args, write_string_arg, write_attribute_arg,
  write_uint32_arg, copy_args, message_copy, append_control_message,
}
use libfep.Request.{
  Call, set_cursor_text, set_status_text, send_text, send_data, forward_key_event, attr_or_empty,
  message_of,
}
use libfep.Message.Args.{alloc_few}
use libfep.Wire.{Platform, Arrival}
use libfep.Wire.Send.{encode, open_sink, write_control_message_lem}

-- A message whose arguments fill their blocks.
abbrev pub message : ℕ → List Bytes → ControlMessage
message command ss = record { command = command; args = map exact ss }

-- The command and the arguments of each call, as documented in libfep/private.h.
abbrev pub command_of : Call → ℕ
command_of (set_cursor_text text attr) = 1
command_of (set_status_text text attr) = 2
command_of (send_text text) = 3
command_of (send_data s) = 4
command_of (forward_key_event keyval modifiers) = 5

abbrev pub arguments : Call → List Bytes
arguments (set_cursor_text text attr) = (text ++ 0 ∷ []) ∷ attribute_bytes (attr_or_empty attr) ∷ []
arguments (set_status_text text attr) = (text ++ 0 ∷ []) ∷ attribute_bytes (attr_or_empty attr) ∷ []
arguments (send_text text) = (text ++ 0 ∷ []) ∷ []
arguments (send_data s) = s ∷ []
arguments (forward_key_event keyval modifiers) = le32 keyval ∷ le32 modifiers ∷ []

abbrev pub message_for : Call → ControlMessage
message_for call = message (command_of call) (arguments call)

pub message_of-message_for : (call : Call) → message_of call ≡ ok (message_for call)
unfolding message_of alloc_args write_string_arg write_attribute_arg write_uint32_arg
message_of-message_for (set_cursor_text text attr) = refl
message_of-message_for (set_status_text text attr) = refl
message_of-message_for (send_text text) = refl
message_of-message_for (send_data s) = refl
message_of-message_for (forward_key_event keyval modifiers) = refl

-- The copies in the queue are equal to the originals.
copy-exact : (m : Memory) (s : Bytes) → copy m (exact s) ≡ ok (exact s)
unfolding copy
copy-exact m s =
    let whole : leb (length s) (length s) ≡ true = ground arith in
    let room : leb (0 + length s) (length (m.alloc (length s))) ≡ true =
      ground (arith, m.length-alloc (length s)) in
    rw (
      whole,
      take_all (length s) s (omega arith),
      room,
      drop_all (0 + length s) (m.alloc (length s)) (omega (arith, m.length-alloc (length s))),
      append-nil,
    )

copy_args-exact : (m : Memory) (ss : List Bytes) → copy_args m (map exact ss) ≡ ok (map exact ss)
unfolding copy_args
copy_args-exact m [] = refl
copy_args-exact m (s ∷ ss) = rw (copy-exact m s, copy_args-exact m ss)

length-map-exact : (ss : List Bytes) → length (map exact ss) ≡ length ss
length-map-exact [] = refl
length-map-exact (s ∷ ss) = ap suc (length-map-exact ss)

pub append_control_message_lem :
    (m : Memory) (queue : List ControlMessage) (command : ℕ) (ss : List Bytes)
    → length ss ≤ 3
    → append_control_message m queue (message command ss) ≡ ok (queue ++ message command ss ∷ [])
unfolding append_control_message message_copy
append_control_message_lem m queue command ss h =
    rw
      (alloc_few (length (map exact ss)) (omega (arith, length-map-exact ss)), copy_args-exact m ss)

abbrev pub encode_call : Call → Bytes
encode_call call = encode (command_of call) (arguments call)

pub few_arguments : (call : Call) → length (arguments call) ≤ 3
few_arguments (set_cursor_text text attr) = omega arith
few_arguments (set_status_text text attr) = omega arith
few_arguments (send_text text) = omega arith
few_arguments (send_data s) = omega arith
few_arguments (forward_key_event keyval modifiers) = omega arith

if-false {ℓ} : {A : Type ℓ} (b : Bool) (x y : A) → b ≡ false → (if b then x else y) ≡ y
if-false b x y h = rw h

-- Every argument is shorter than the rounds granted to a write.
abbrev pub Short : ℕ → List Bytes → Type 0
Short fuel = All (λ s. length s < fuel)

abbrev pub encode_calls : List Call → Bytes
encode_calls [] = []
encode_calls (call ∷ calls) = encode_call call ++ encode_calls calls

module _ (p : Platform) (fuel : ℕ) where
  pub write_message_lem :
      (command : ℕ) (ss : List Bytes) (c : Client) (out : Bytes)
      → Short fuel ss
      → c.control ≡ open_sink out
      → write_message p fuel (message command ss) c
        ≡ (ok tt, record c { control = open_sink (out ++ encode command ss) })
  unfolding write_message
  write_message_lem command ss c out h e = rw (e, write_control_message_lem fuel command ss out h)

  -- While a handler runs, a call puts its message at the end of the queue and writes nothing.
  pub perform_queues :
      (call : Call) (c : Client)
      → c.filter_running ≡ true
      → perform p fuel call c ≡ (ok tt, record c { messages = c.messages ++ message_for call ∷ [] })
  unfolding perform submit queue_message
  perform_queues call c h = rw (
    message_of-message_for call,
    h,
    append_control_message_lem p.memory c.messages (command_of call) (arguments call)
        (few_arguments call),
  )

  -- While no handler runs, a call writes its message, and queues nothing, if every write is taken
  -- whole and the fuel is more than the length of every argument.
  pub perform_writes :
      (call : Call) (c : Client) (out : Bytes)
      → c.filter_running ≡ false
      → c.control ≡ open_sink out
      → Short fuel (arguments call)
      → perform p fuel call c ≡ (ok tt, record c { control = open_sink (out ++ encode_call call) })
  unfolding perform submit
  perform_writes call c out h e s = rw (message_of-message_for call) (
      if-false c.filter_running _ _ h
      ∙ write_message_lem (command_of call) (arguments call) c out s e)

  pub perform_all_queues :
      (calls : List Call) (c : Client)
      → c.filter_running ≡ true
      → perform_all p fuel calls c
        ≡ (ok tt, record c { messages = c.messages ++ map message_for calls })
  unfolding perform_all
  perform_all_queues [] c h = rw append-nil
  perform_all_queues (call ∷ calls) c h = rw (
    perform_queues call c h,
    perform_all_queues calls (record c { messages = c.messages ++ message_for call ∷ [] }) h,
    append_assoc c.messages (message_for call ∷ []) (map message_for calls),
  )

  pub flush_lem :
      (calls : List Call) (fd : List Arrival) (out : Bytes) (b : Bool)
      → All (λ call. Short fuel (arguments call)) calls
      → flush p fuel (map message_for calls) (record {
        incoming = fd;
        control = open_sink out;
        filter_running = b;
        messages = map message_for calls;
      })
        ≡ (
          ok tt,
          record {
            incoming = fd;
            control = open_sink (out ++ encode_calls calls);
            filter_running = b;
            messages = [];
          },
        )
  unfolding flush
  flush_lem [] fd out b h = rw append-nil
  flush_lem (call ∷ calls) fd out b (h, hs) = rw (
    write_message_lem (command_of call) (arguments call)
        (record {
          incoming = fd;
          control = open_sink out;
          filter_running = b;
          messages = map message_for calls;
        })
        out h refl,
    flush_lem calls fd (out ++ encode_call call) b hs,
    append_assoc out (encode_call call) (encode_calls calls),
  )
