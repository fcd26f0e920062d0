-- ===== src/Request.antt =====
-- libfep/client.c, lines 47 to 321: the messages that a client sends, and what it reads from the
-- events of the server.
use libfep.Base.{
  ℕ, Option, none, some, Bytes, [], ◌∷◌, ◌++◌, take, Outcome, ok, failed, fault, died, looping,
  ◌>>=◌,
}
use libfep.Message
use libfep.Message.{
  ControlMessage, Attribute, alloc_args, write_uint32_arg, write_uint8_arg, write_string_arg,
  write_attribute_arg, read_uint32_arg, arg_at,
}

-- `empty_attr`; type 3 is FEP_ATTR_TYPE_NONE.
abbrev pub empty_attr : Attribute
empty_attr = record { type = 3; value = 0; start_index = 0; end_index = 0 }

-- The requests of a client; an attribute may be left out.
pub data Call : Type 0 where
  set_cursor_text set_status_text : Bytes → Option Attribute → Call
  send_text send_data : Bytes → Call
  forward_key_event : ℕ → ℕ → Call

abbrev pub attr_or_empty : Option Attribute → Attribute
attr_or_empty none = empty_attr
attr_or_empty (some attr) = attr

-- `message.command = …; _fep_control_message_alloc_args (&message, n_args)`
abbrev pub new_message : ℕ → ℕ → Outcome ControlMessage
new_message command n_args =
    alloc_args n_args >>= λ args. ok (record { command = command; args = args })

-- A string argument holds the terminating NUL.
abbrev pub text_message : ℕ → Bytes → Option Attribute → Outcome ControlMessage
text_message command text attr = new_message command 2 >>= λ m.
    write_string_arg m 0 (text ++ 0 ∷ []) >>= λ m. write_attribute_arg m 1 (attr_or_empty attr)

unfoldable pub message_of : Call → Outcome ControlMessage
message_of (set_cursor_text text attr) = text_message Message.set_cursor_text text attr
message_of (set_status_text text attr) = text_message Message.set_status_text text attr
message_of (send_text text) =
    new_message Message.send_text 1 >>= λ m. write_string_arg m 0 (text ++ 0 ∷ [])
message_of (send_data s) = new_message Message.send_data 1 >>= λ m. write_string_arg m 0 s
message_of (forward_key_event keyval modifiers) = new_message Message.forward_key_event 2 >>= λ m.
    write_uint32_arg m 0 keyval >>= λ m. write_uint32_arg m 1 modifiers

-- What a filter is shown.
pub data Event : Type 0 where
  key_press : ℕ → ℕ → Bytes → Event
  resized : ℕ → ℕ → Event

-- The two numbers that both events carry; `none` is a `retval` of -1.
abbrev pub pair_of : Outcome ℕ → Outcome ℕ → Outcome (Option (ℕ × ℕ))
pair_of (ok a) (ok b) = ok (some (a, b))
pair_of (ok a) failed = ok none
pair_of (ok a) fault = fault
pair_of (ok a) died = died
pair_of (ok a) looping = looping
pair_of failed b = ok none
pair_of fault b = fault
pair_of died b = died
pair_of looping b = looping

unfoldable pub read_pair : ControlMessage → Outcome (Option (ℕ × ℕ))
read_pair request = pair_of (read_uint32_arg request 0) (read_uint32_arg request 1)

-- The start of a response.
unfoldable pub start_response : ℕ → Outcome ControlMessage
start_response command = new_message Message.response 2 >>= λ m. write_uint8_arg m 0 command

-- `args[2].str` with its length.
unfoldable pub source_of : ControlMessage → Outcome Bytes
source_of request = do arg ← arg_at request 2; ok (take arg.len arg.str)

abbrev pub key_event_of : ControlMessage → ℕ × ℕ → Outcome Event
key_event_of request (keyval, modifiers) = do
  source ← source_of request
  ok (key_press keyval modifiers source)

abbrev pub resize_event_of : ℕ × ℕ → Outcome Event
resize_event_of (cols, rows) = ok (resized cols rows)
