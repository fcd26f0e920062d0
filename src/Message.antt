-- ===== src/Message.antt =====
-- libfep/control.c, lines 28 to 63 and 251 to 443, with `struct _FepControlMessage`,
-- `FepControlCommand` (libfep/private.h) and `struct _FepAttribute` (libfep/attribute.h): control
-- messages and their arguments, on a little-endian host (`WORDS_BIGENDIAN` not defined). The number
-- `n_args` is the length of the array `args`. An index past the array, which the guards
-- `index > n_args` let through at `n_args` itself, is a fault.
pub mod Args
pub mod Text
use libfep.Base.{
  ℕ, ◌+◌, ◌*◌, ◌/◌, ◌%◌, ◌^◌, true, false, Option, none, some, List, Bytes, [], ◌∷◌, ◌++◌, length,
  take, get_elem?, set, replicate, drop, ◌==◌, ltb, leb, if◌then◌else◌, Outcome, ok, failed, fault,
  died, ◌>>=◌,
}
use libfep.FepString.{Memory, FepString, zeroed, copy}

-- `FepControlCommand`
abbrev pub set_cursor_text : ℕ
set_cursor_text = 1

abbrev pub set_status_text : ℕ
set_status_text = 2

abbrev pub send_text : ℕ
send_text = 3

abbrev pub send_data : ℕ
send_data = 4

abbrev pub forward_key_event : ℕ
forward_key_event = 5

abbrev pub key_event : ℕ
key_event = 6

abbrev pub resize_event : ℕ
resize_event = 7

abbrev pub response : ℕ
response = 8

-- `commands`: each command with its `n_args`.
abbrev pub commands : List (ℕ × ℕ)
commands =
    (set_cursor_text, 2)
    ∷ (set_status_text, 2)
    ∷ (send_text, 1)
    ∷ (send_data, 1)
    ∷ (forward_key_event, 2)
    ∷ (key_event, 3)
    ∷ (resize_event, 2)
    ∷ (response, 2)
    ∷ []

abbrev pub n_args_in : List (ℕ × ℕ) → ℕ → Option ℕ
n_args_in [] command = none
n_args_in ((c, n) ∷ table) command = if c == command then some n else n_args_in table command

-- `none` is the return of -1.
unfoldable pub get_n_args : ℕ → Option ℕ
get_n_args = n_args_in commands

pub record ControlMessage : Type 0 where
  pub command : ℕ
  pub args : List FepString

pub record Attribute : Type 0 where
  pub type : ℕ
  pub value : ℕ
  pub start_index : ℕ
  pub end_index : ℕ

-- `xcalloc (n_args, sizeof(FepString))`, an array of 24-byte structures; it ends the process where
-- the size exceeds what an object can have.
unfoldable pub alloc_args : ℕ → Outcome (List FepString)
alloc_args n_args = elim (leb (2 ^ 63) (n_args * 24)) [
  | true ↦ died
  | false ↦ ok (replicate n_args zeroed)
]

-- A block from `xmemdup`.
abbrev pub exact : Bytes → FepString
exact s = record { str = s; len = length s; cap = length s }

-- The bytes of a `uint32_t` in memory, and back.
abbrev pub le32 : ℕ → Bytes
le32 v = v % 256 ∷ v / 2 ^ 8 % 256 ∷ v / 2 ^ 16 % 256 ∷ v / 2 ^ 24 % 256 ∷ []

abbrev pub uint32_at : Bytes → Outcome ℕ
uint32_at (a ∷ b ∷ c ∷ d ∷ s) = ok (a + b * 2 ^ 8 + c * 2 ^ 16 + d * 2 ^ 24)
uint32_at _ = fault

-- The guard `index > message->n_args` and the write of `args[index]`.
unfoldable pub write_arg : ControlMessage → ℕ → FepString → Outcome ControlMessage
write_arg message index arg =
    if ltb (length message.args) index
    then failed
    else if ltb index (length message.args)
    then ok (record message { args = set message.args index arg })
    else fault

unfoldable pub write_uint32_arg : ControlMessage → ℕ → ℕ → Outcome ControlMessage
unfolding write_arg
write_uint32_arg message index val = write_arg message index (exact (le32 val))

unfoldable pub write_uint8_arg : ControlMessage → ℕ → ℕ → Outcome ControlMessage
unfolding write_arg
write_uint8_arg message index val = write_arg message index (exact (val ∷ []))

-- The source is the `length` bytes at `str`.
unfoldable pub write_string_arg : ControlMessage → ℕ → Bytes → Outcome ControlMessage
unfolding write_arg
write_string_arg message index str = write_arg message index (exact str)

-- The four fields, one `memcpy` after another.
abbrev pub attribute_bytes : Attribute → Bytes
attribute_bytes attr =
    le32 attr.type ++ (le32 attr.value ++ (le32 attr.start_index ++ le32 attr.end_index))

unfoldable pub write_attribute_arg : ControlMessage → ℕ → Attribute → Outcome ControlMessage
unfolding write_arg
write_attribute_arg message index attr = write_arg message index (exact (attribute_bytes attr))

-- `args[index]`, with no guard, as the handlers of both ends read it.
abbrev pub arg_at : ControlMessage → ℕ → Outcome FepString
arg_at request index = elim (get_elem? request.args index) [ none ↦ fault | some arg ↦ ok arg ]

-- The guard, and the read of `args[index]`.
unfoldable pub read_arg : ControlMessage → ℕ → Outcome FepString
read_arg message index =
    if ltb (length message.args) index
    then failed
    else elim (get_elem? message.args index) [ none ↦ fault | some arg ↦ ok arg ]

unfoldable pub read_uint32_arg : ControlMessage → ℕ → Outcome ℕ
unfolding read_arg
read_uint32_arg message index = do
  arg ← read_arg message index
  if arg.len == 4 then uint32_at arg.str else failed

-- `uint8_t intval = *(uint32_t *) p`
abbrev pub uint8_at : Bytes → Outcome ℕ
uint8_at s = do v ← uint32_at s; ok (v % 256)

unfoldable pub read_attribute_arg : ControlMessage → ℕ → Outcome Attribute
unfolding read_arg
read_attribute_arg message index = do
  arg ← read_arg message index
  if arg.len == 16
      then (do
        type ← uint8_at arg.str
        value ← uint8_at (drop 4 arg.str)
        start_index ← uint8_at (drop 8 arg.str)
        end_index ← uint8_at (drop 12 arg.str)
        ok (record {
          type = type;
          value = value;
          start_index = start_index;
          end_index = end_index;
        }))
      else failed

-- `_fep_control_message_copy`: a fresh array whose entries are copies.
unfoldable pub copy_args : Memory → List FepString → Outcome (List FepString)
copy_args memory [] = ok []
copy_args memory (arg ∷ args) = do
  arg' ← copy memory arg
  args' ← copy_args memory args
  ok (arg' ∷ args')

unfoldable pub message_copy : Memory → ControlMessage → Outcome ControlMessage
unfolding copy_args
message_copy memory src = do
  array ← alloc_args (length src.args)
  args ← copy_args memory src.args
  ok (record { command = src.command; args = args })

-- `_fep_append_control_message`: a copy at the end of the queue.
unfoldable pub append_control_message :
    Memory → List ControlMessage → ControlMessage → Outcome (List ControlMessage)
append_control_message memory head message = do
  copied ← message_copy memory message
  ok (head ++ copied ∷ [])
