-- ===== src/MainLoop/Events.antt =====
-- fep/fep.c: the events that the clients are sent.
use libfep.Base.{ℕ, Bytes, Outcome, ◌>>=◌}
use libfep.Message
use libfep.Message.{ControlMessage, write_uint32_arg, write_string_arg}
use libfep.Request.{new_message}

-- A key, with the bytes that it was read from.
unfoldable pub key_request : ℕ → ℕ → Bytes → Outcome ControlMessage
key_request keyval state piece = do
  request ← new_message Message.key_event 3
  with_key ← write_uint32_arg request 0 keyval
  with_state ← write_uint32_arg with_key 1 state
  write_string_arg with_state 2 piece

unfoldable pub resize_request : ℕ → ℕ → Outcome ControlMessage
resize_request cols rows = do
  request ← new_message Message.resize_event 2
  with_cols ← write_uint32_arg request 0 cols
  write_uint32_arg with_cols 1 rows
