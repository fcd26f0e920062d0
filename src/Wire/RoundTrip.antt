-- ===== src/Wire/RoundTrip.antt =====
-- What `_fep_read_control_message` makes of what `_fep_write_control_message` wrote.
use libfep.Base.{
  ℕ, zero, suc, ◌-◌, ◌%◌, ◌^◌, ◌≤◌, ◌<◌, ◌≡◌, refl, ap₂, ◌∙◌, none, some, List, Bytes, [], ◌∷◌,
  ◌++◌, length, drop, map, ok, died, arith, All, append_assoc, append-nil, length-replicate,
  take-append, drop-append,
}
use libfep.FepString.{FepString, zeroed}
use libfep.FepString.Refines.{contents, append_lem}
use libfep.Message.{exact, le32, get_n_args, alloc_args}
use libfep.Message.Args.{alloc_few}
use libfep.Wire.{
  Platform, Arrival, bytes, read_fd, first_byte, n_args_or_minus_one, read_body, read_one,
  read_args, read_control_message, write_control_message,
}
use libfep.Wire.Length.{IsPlain, length_of_word-le32}
use libfep.Wire.Receive.{read_body_step}
use libfep.Wire.Send.{encode_arg, encode_args, encode, open_sink, write_control_message_lem}

-- A read that the arrived bytes satisfy whole.
read_fd_whole :
    (n c : ℕ) (s t : Bytes) (later : List Arrival)
    → n ≡ suc (length s)
    → read_fd n (bytes ((c ∷ s) ++ t) ∷ later) ≡ (some (c ∷ s), bytes t ∷ later)
unfolding read_fd
read_fd_whole n c s t later e =
    ap₂ (λ a b. (some a, bytes b ∷ later)) (take-append n (c ∷ s) t e) (drop-append n (c ∷ s) t e)

-- An argument that the reader takes: its length is read right, and fits the buffer.
abbrev pub Fits : Platform → Bytes → Type 0
Fits p s = IsPlain p.char_signed (length s) × (length s ≤ p.buf_size) × (length s < 2 ^ 63)

module _ (p : Platform) where
  read_body_whole :
      (f : ℕ) (s t : Bytes) (later : List Arrival)
      → length s ≤ p.buf_size
      → length s < 2 ^ 63
      → (arg : FepString) × (read_body p (suc (suc f)) (length s) zeroed (bytes (s ++ t) ∷ later)
          ≡ (ok arg, bytes t ∷ later))
        × (contents arg ≡ s)
  read_body_whole f [] t later h b = (zeroed, unfold read_body in refl, refl)
  read_body_whole f (c ∷ s) t later h b =
      let (arg, e, _, k, _) =
        append_lem p.memory zeroed (c ∷ s) (record { block = refl; within_cap = omega arith })
          (omega arith) in
      (
        arg,
        read_body_step p (suc f) (length s) zeroed (bytes ((c ∷ s) ++ t) ∷ later) (c ∷ s)
              (bytes t ∷ later) (read_fd_whole (suc (length s)) c s t later refl) h e
            ∙ done (suc (length s) - suc (length s)) arg (omega arith),
        k,
      )
    where
      done :
          (n : ℕ) (arg : FepString)
          → n ≡ 0
          → read_body p (suc f) n arg (bytes t ∷ later) ≡ (ok arg, bytes t ∷ later)
      done zero arg e = unfold read_body in refl
      done (suc n) arg e = absurd (omega arith)

  read_one_whole :
      (f : ℕ) (s t : Bytes) (later : List Arrival)
      → Fits p s
      → read_one p (suc (suc f)) (bytes (encode_arg s ++ t) ∷ later)
        ≡ (ok (exact s), bytes t ∷ later)
  unfolding read_one
  read_one_whole f s t later (a, b, c) =
      let (arg, e, k) = read_body_whole f s t later b c in
      rw (
        read_fd_whole 4 (length s % 256) (drop 1 (le32 (length s))) (s ++ t) later refl,
        length_of_word-le32 p.char_signed (length s) a,
        e,
        k,
      )

  read_args_whole :
      (f : ℕ) (ss : List Bytes) (t : Bytes) (later : List Arrival)
      → All (Fits p) ss
      → read_args p (suc (suc f)) (length ss) (bytes (encode_args ss ++ t) ∷ later)
        ≡ (ok (map exact ss), bytes t ∷ later)
  unfolding read_args encode_args
  read_args_whole f [] t later h = refl
  read_args_whole f (s ∷ ss) t later (h, hs) = rw (
    append_assoc (encode_arg s) (encode_args ss) t,
    read_one_whole f s (encode_args ss ++ t) later h,
    read_args_whole f ss t later hs,
  )

  few_args : (c n : ℕ) → get_n_args c ≡ some n → n ≤ 3
  unfolding get_n_args
  few_args c n e = ground arith

  -- A message that has arrived in one piece is read back whole, and what follows it is left on the
  -- socket, if its command is a known one with that many arguments, each argument's length is
  -- plain and fits the buffer, and the fuel is at least two.
  pub read_control_message-encode :
      (f command : ℕ) (ss : List Bytes) (t : Bytes) (later : List Arrival)
      → get_n_args command ≡ some (length ss)
      → All (Fits p) ss
      → read_control_message p (suc (suc f)) (bytes (encode command ss ++ t) ∷ later)
        ≡ (ok (record { command = command; args = map exact ss }), bytes t ∷ later)
  unfolding read_control_message first_byte n_args_or_minus_one
  read_control_message-encode f command ss t later known h = rw (
    read_fd_whole 1 command [] (encode_args ss ++ t) later refl,
    known,
    alloc_few (length ss) (few_args command (length ss) known),
    length-replicate (length ss) zeroed,
    read_args_whole f ss t later h,
  )

  -- A first byte that is no command ends the whole process: the return of -1 passes the test for
  -- it, and an array of that many arguments is asked for.
  read_control_message_unknown :
      (f c : ℕ) (t : Bytes) (later : List Arrival)
      → get_n_args c ≡ none
      → (read_control_message p f (bytes (c ∷ t) ∷ later)).0 ≡ died
  unfolding read_control_message first_byte n_args_or_minus_one alloc_args
  read_control_message_unknown f c t later unknown = rw (read_fd_whole 1 c [] t later refl, unknown)

  -- A message that one end writes, on a socket that takes every write whole, is what the other end
  -- reads, if its command is a known one with that many arguments, each argument's length is plain
  -- and fits the buffer, and the fuel is more than the length of every argument.
  pub read-write_control_message :
      (f command : ℕ) (ss : List Bytes) (later : List Arrival)
      → get_n_args command ≡ some (length ss)
      → All (Fits p) ss
      → All (λ s. length s < f) ss
      → read_control_message p (suc (suc f)) (
          bytes
            (write_control_message f
              (record { command = command; args = map exact ss })
              (open_sink [])).1.sent
          ∷ later)
        ≡ (ok (record { command = command; args = map exact ss }), bytes [] ∷ later)
  read-write_control_message f command ss later known h g =
      rw (write_control_message_lem f command ss [] g, ← append-nil (encode_args ss))
        (read_control_message-encode f command ss [] later known h)
