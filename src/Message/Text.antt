-- ===== src/Message/Text.antt =====
-- libfep/control.c, lines 28 to 43 and 55 to 102: the text of a message, as it is logged.
pub mod Printing
use libfep.Base.{
  ℕ, ◌+◌, ◌-◌, ◌*◌, ◌/◌, ◌%◌, Option, none, some, List, Bytes, [], ◌∷◌, length, set, replicate,
  ◌==◌, ltb, if◌then◌else◌, Outcome, ok, fault, ◌>>=◌,
}
use libfep.FepString.{FepString, memcpy}
use libfep.Message
use libfep.Message.{ControlMessage}
use libfep.Wire.{readable}

-- `commands`: each command with its `name`
abbrev pub command_names : List (ℕ × Bytes)
command_names =
    (
      Message.set_cursor_text,
      b'S' ∷ b'E' ∷ b'T' ∷ b'_' ∷ b'C' ∷ b'U' ∷ b'R' ∷ b'S' ∷ b'O' ∷ b'R' ∷ b'_' ∷ b'T' ∷ b'E'
          ∷ b'X' ∷ b'T' ∷ [],
    )
    ∷ (
      Message.set_status_text,
      b'S' ∷ b'E' ∷ b'T' ∷ b'_' ∷ b'S' ∷ b'T' ∷ b'A' ∷ b'T' ∷ b'U' ∷ b'S' ∷ b'_' ∷ b'T' ∷ b'E'
          ∷ b'X' ∷ b'T' ∷ [],
    )
    ∷ (Message.send_text, b'S' ∷ b'E' ∷ b'N' ∷ b'D' ∷ b'_' ∷ b'T' ∷ b'E' ∷ b'X' ∷ b'T' ∷ [])
    ∷ (Message.send_data, b'S' ∷ b'E' ∷ b'N' ∷ b'D' ∷ b'_' ∷ b'D' ∷ b'A' ∷ b'T' ∷ b'A' ∷ [])
    ∷ (
      Message.forward_key_event,
      b'F' ∷ b'O' ∷ b'R' ∷ b'W' ∷ b'A' ∷ b'R' ∷ b'D' ∷ b'_' ∷ b'K' ∷ b'E' ∷ b'Y' ∷ b'_' ∷ b'E'
          ∷ b'V' ∷ b'E' ∷ b'N' ∷ b'T' ∷ [],
    )
    ∷ (Message.key_event, b'K' ∷ b'E' ∷ b'Y' ∷ b'_' ∷ b'E' ∷ b'V' ∷ b'E' ∷ b'N' ∷ b'T' ∷ [])
    ∷ (
      Message.resize_event,
      b'R' ∷ b'E' ∷ b'S' ∷ b'I' ∷ b'Z' ∷ b'E' ∷ b'_' ∷ b'E' ∷ b'V' ∷ b'E' ∷ b'N' ∷ b'T' ∷ [],
    )
    ∷ (Message.response, b'R' ∷ b'E' ∷ b'S' ∷ b'P' ∷ b'O' ∷ b'N' ∷ b'S' ∷ b'E' ∷ [])
    ∷ []

abbrev pub name_in : List (ℕ × Bytes) → ℕ → Option Bytes
name_in [] command = none
name_in ((c, name) ∷ table) command = if c == command then some name else name_in table command

-- `_fep_control_command_get_name`
unfoldable pub get_name : ℕ → Option Bytes
get_name = name_in command_names

-- `%02X`
abbrev pub hex_digit : ℕ → ℕ
hex_digit n = if ltb n 10 then b'0' + n else b'A' + (n - 10)

abbrev pub hex_of : ℕ → Bytes
hex_of c = hex_digit (c / 16 % 16) ∷ hex_digit (c % 16) ∷ []

-- The first loop: the size of the text, with its terminating NUL.
unfoldable pub args_size : List FepString → ℕ
args_size [] = 0
args_size (arg ∷ args) = (arg.len * 2 + 1) + args_size args

-- A block with the place of `p` in it; what is written goes to `p`, which moves on by `n`.
abbrev pub put : Bytes → ℕ → Bytes × ℕ → Outcome (Bytes × ℕ)
put s n (buf, p) = do buf' ← memcpy buf p s; ok (buf', p + n)

-- `snprintf (p, 3, "%02X", …)` writes a NUL behind the two digits.
unfoldable pub put_bytes : Bytes → Bytes × ℕ → Outcome (Bytes × ℕ)
put_bytes [] at = ok at
put_bytes (c ∷ s) at = do
  at' ← put (hex_digit (c / 16 % 16) ∷ hex_digit (c % 16) ∷ 0 ∷ []) 2 at
  put_bytes s at'

unfoldable pub put_args : List FepString → Bytes × ℕ → Outcome (Bytes × ℕ)
put_args [] at = ok at
put_args (arg ∷ args) at = do
  s ← readable arg
  behind ← put_bytes s at
  at' ← put (b' ' ∷ []) 1 behind
  put_args args at'

-- `*--p = '\0'`
abbrev pub end_text : Bytes × ℕ → Outcome Bytes
end_text (buf, p) = if ltb (p - 1) (length buf) then ok (set buf (p - 1) 0) else fault

-- From the call of `strlen` on.
abbrev pub print : Bytes → List FepString → Outcome Bytes
print name args = do
  let total = (length name + 1) + args_size args
  named ← put name (length name) (replicate total 0, 0)
  spaced ← put (b' ' ∷ []) 1 named
  at ← put_args args spaced
  end_text at

-- `_fep_control_message_to_string`: a command without a name is a null pointer for `strlen`.
unfoldable pub message_to_string : ControlMessage → Outcome Bytes
message_to_string message = elim (get_name message.command) [
  | none ↦ fault
  | some name ↦ print name message.args
]
