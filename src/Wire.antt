-- ===== src/Wire.antt =====
-- libfep/control.c, lines 104 to 249: messages on a socket. The socket is the list of what the
-- system will hand to `read`, and for `write` the list of what it will answer. Log output
-- and the release of memory are left out.
pub mod Length
pub mod Receive
pub mod Send
pub mod RoundTrip
use libfep.Base.{
  ℕ, zero, suc, ◌+◌, ◌-◌, ◌*◌, ◌%◌, ◌^◌, min, bit_or, Bool, true, false, Option, none, some, List,
  Bytes, [], ◌∷◌, ◌++◌, length, take, drop, ltb, leb, if◌then◌else◌, Outcome, ok, failed, fault,
  looping,
}
use libfep.Base.Act.{Act, ◌>>=◌, ◌>>◌, lift, pure}
use libfep.FepString.{Memory, FepString, zeroed, append}
use libfep.Message.{ControlMessage, get_n_args, alloc_args, exact, le32}

-- What the system decides: the size of the buffer `buf` (`BUFSIZ`), whether `char` is signed, and
-- what memory holds.
pub record Platform : Type 0 where
  pub buf_size : ℕ
  pub char_signed : Bool
  pub memory : Memory

-- What a socket will deliver: bytes that have arrived, or an error. The end of the list is the end
-- of the stream.
pub data Arrival : Type 0 where
  bytes : Bytes → Arrival
  broken : Arrival

-- `none` is a return of -1; a read of no bytes is the end of the stream.
unfoldable pub read_fd : ℕ → List Arrival → Option Bytes × List Arrival
read_fd n [] = (some [], [])
read_fd n (broken ∷ fd) = (none, fd)
read_fd n (bytes [] ∷ fd) = read_fd n fd
read_fd n (bytes (c ∷ s) ∷ fd) = (some (take n (c ∷ s)), bytes (drop n (c ∷ s)) ∷ fd)

abbrev pub answer : Option Bytes → Outcome Bytes
answer none = failed
answer (some s) = ok s

abbrev pub receive : ℕ → Act (List Arrival) Bytes
receive n fd = let (r, fd') = read_fd n fd in (answer r, fd')

-- A byte as an `int`, in two's complement over 32 bits.
unfoldable pub int_of_char : Bool → ℕ → ℕ
int_of_char true b = if ltb b 128 then b else b + (2 ^ 32 - 256)
int_of_char false b = b

-- `(buf[3] << 24) | (buf[2] << 16) | (buf[1] << 8) | buf[0]`, as a `uint32_t`.
unfoldable pub decode_length : Bool → ℕ → ℕ → ℕ → ℕ → ℕ
unfolding int_of_char
decode_length signed b0 b1 b2 b3 =
    bit_or
      (bit_or
        (bit_or (int_of_char signed b3 * 2 ^ 24 % 2 ^ 32) (int_of_char signed b2 * 2 ^ 16 % 2 ^ 32))
        (int_of_char signed b1 * 2 ^ 8 % 2 ^ 32))
      (int_of_char signed b0)

-- The four bytes of an argument's length; `retval < 4` is a failure.
unfoldable pub length_of_word : Bool → Bytes → Outcome ℕ
length_of_word signed (b0 ∷ b1 ∷ b2 ∷ b3 ∷ []) = ok (decode_length signed b0 b1 b2 b3)
length_of_word signed _ = failed

-- The first byte of a message; nothing read is a closed connection.
unfoldable pub first_byte : Bytes → Outcome ℕ
first_byte [] = failed
first_byte (c ∷ s) = ok c

-- `n_args`: the return of -1 is no less than -1, and is taken for a number.
unfoldable pub n_args_or_minus_one : Option ℕ → ℕ
n_args_or_minus_one none = 2 ^ 64 - 1
n_args_or_minus_one (some n) = n

module _ (p : Platform) where
  -- What `read` stores in `buf`.
  unfoldable pub store_in_buf : Bytes → Outcome Bytes
  store_in_buf s = if ltb p.buf_size (length s) then fault else ok s

  -- `while (len > 0)`, with fuel.
  unfoldable pub read_body : ℕ → ℕ → FepString → Act (List Arrival) FepString
  read_body zero len arg fd = (looping, fd)
  read_body (suc f) zero arg fd = (ok arg, fd)
  read_body (suc f) (suc n) arg fd =
      (do
        s ← receive (suc n)
        stored ← lift (store_in_buf s)
        arg' ← lift (append p.memory arg stored)
        read_body f (suc n - length s) arg')
        fd

  -- One round of the loop over the arguments: the copy that `args` keeps is of the exact size.
  unfoldable pub read_one : ℕ → Act (List Arrival) FepString
  read_one fuel = do
    word ← receive 4
    len ← lift (length_of_word p.char_signed word)
    arg ← read_body fuel len zeroed
    lift (ok (exact (take arg.len arg.str)))

  unfoldable pub read_args : ℕ → ℕ → Act (List Arrival) (List FepString)
  read_args fuel zero fd = (ok [], fd)
  read_args fuel (suc n) fd =
      (do arg ← read_one fuel; args ← read_args fuel n; lift (ok (arg ∷ args))) fd

  unfoldable pub read_control_message : ℕ → Act (List Arrival) ControlMessage
  read_control_message fuel = do
    s ← receive 1
    command ← lift (first_byte s)
    let n_args = n_args_or_minus_one (get_n_args command)
    array ← lift (alloc_args n_args)
    args ← read_args fuel (length array)
    lift (ok (record { command = command; args = args }))

-- What `write` will answer: a number of bytes taken, or an error. Past the end of the list the
-- system takes all that it is given.
pub data Answer : Type 0 where
  takes : ℕ → Answer
  refuses : Answer

pub record Sink : Type 0 where
  pub sent : Bytes
  pub answers : List Answer

abbrev pub write_with : Bytes → Bytes → List Answer → Option ℕ × Sink
write_with s sent [] = (some (length s), record { sent = sent ++ s; answers = [] })
write_with s sent (takes k ∷ r) =
    (some (min k (length s)), record { sent = sent ++ take k s; answers = r })
write_with s sent (refuses ∷ r) = (none, record { sent = sent; answers = r })

-- `none` is a return of -1, else the number of bytes written.
unfoldable pub write_fd : Bytes → Sink → Option ℕ × Sink
write_fd s sink = write_with s sink.sent sink.answers

-- A single write, whose result is not looked at.
abbrev pub send_once : Bytes → Sink → Sink
send_once s pty = let (n, pty') = write_fd s pty in pty'

abbrev pub write_result : Option ℕ → Outcome ℕ
write_result none = failed
write_result (some n) = ok n

abbrev pub send : Bytes → Act Sink ℕ
send s sink = let (r, sink') = write_fd s sink in (write_result r, sink')

-- `for (total = 0; total < len; total += retval)`, with fuel; `s` is what is left to write.
unfoldable pub write_body : ℕ → Bytes → Act Sink (Unit {0})
write_body zero s sink = (looping, sink)
write_body (suc f) [] sink = (ok tt, sink)
write_body (suc f) (c ∷ s) sink = (do n ← send (c ∷ s); write_body f (drop n (c ∷ s))) sink

-- The `len` bytes at `str`.
abbrev pub readable : FepString → Outcome Bytes
readable arg = if leb arg.len (length arg.str) then ok (take arg.len arg.str) else fault

-- One round of the loop over the arguments. A length word written in part goes unnoticed.
unfoldable pub write_one : ℕ → FepString → Act Sink (Unit {0})
write_one fuel arg = do written ← send (le32 arg.len); s ← lift (readable arg); write_body fuel s

unfoldable pub write_args : ℕ → List FepString → Act Sink (Unit {0})
write_args fuel [] sink = (ok tt, sink)
write_args fuel (arg ∷ args) sink = (do write_one fuel arg; write_args fuel args) sink

-- `retval < 1` at the command byte.
abbrev pub at_least_one : ℕ → Outcome (Unit {0})
at_least_one zero = failed
at_least_one (suc n) = ok tt

unfoldable pub write_control_message : ℕ → ControlMessage → Act Sink (Unit {0})
write_control_message fuel message = do
  n ← send (message.command ∷ [])
  lift (at_least_one n)
  write_args fuel message.args
