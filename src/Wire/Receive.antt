-- ===== src/Wire/Receive.antt =====
-- The loop of `_fep_read_control_message` that collects one argument, however the bytes arrive.
use libfep.Base.{
  ℕ, zero, suc, ◌+◌, ◌-◌, ◌^◌, ◌≤◌, ◌<◌, ◌≡◌, refl, sym, ap, ◌∙◌, false, some, List, Bytes, [], ◌∷◌,
  ◌++◌, length, take, drop, ltb, ok, looping, arith, append_assoc, length-append, length-take,
  take-append-drop,
}
use libfep.FepString.{FepString, append}
use libfep.FepString.Refines.{IsValid, contents, append_lem, grows}
use libfep.Wire.{Platform, Arrival, bytes, broken, read_fd, store_in_buf, read_body}

-- All that a socket will deliver before its end.
abbrev pub flat : List Arrival → Bytes
flat [] = []
flat (bytes s ∷ fd) = s ++ flat fd
flat (broken ∷ fd) = flat fd

-- No read will fail.
abbrev pub Intact : List Arrival → Type 0
Intact [] = Unit
Intact (bytes s ∷ fd) = Intact fd
Intact (broken ∷ fd) = ⊥

-- A read of a positive number of bytes gives some of them, unless the stream has ended.
record Reads (n : ℕ) (fd : List Arrival) (s : Bytes) (fd' : List Arrival) : Type 0 where
  result : read_fd n fd ≡ (some s, fd')
  splits : s ++ flat fd' ≡ flat fd
  at_most : length s ≤ n
  at_least : 0 < length (flat fd) → 0 < length s
  intact : Intact fd'

read_fd-Reads :
    (n : ℕ) (fd : List Arrival)
    → Intact fd
    → (s : Bytes) × (fd' : List Arrival) × Reads (suc n) fd s fd'
unfolding read_fd
read_fd-Reads n [] h = (
  [],
  [],
  record { result = refl; splits = refl; at_most = omega arith; at_least = λ a. a; intact = tt },
)
read_fd-Reads n (broken ∷ fd) h = elim h [ ]
read_fd-Reads n (bytes [] ∷ fd) h =
    let (s, fd', r) = read_fd-Reads n fd h in
    (
      s,
      fd',
      record {
        result = r.result;
        splits = r.splits;
        at_most = r.at_most;
        at_least = r.at_least;
        intact = r.intact;
      },
    )
read_fd-Reads n (bytes (c ∷ t) ∷ fd) h = (
  take (suc n) (c ∷ t),
  bytes (drop (suc n) (c ∷ t)) ∷ fd,
  record {
    result = refl;
    splits =
        sym (append_assoc (take (suc n) (c ∷ t)) (drop (suc n) (c ∷ t)) (flat fd))
        ∙ ap (λ u. u ++ flat fd) (take-append-drop (suc n) (c ∷ t));
    at_most = omega (arith, length-take (suc n) (c ∷ t));
    at_least = λ _. omega (arith, length-take (suc n) (c ∷ t));
    intact = h;
  },
)

module _ (p : Platform) where
  -- A round that gets its bytes.
  pub read_body_step :
      (f n : ℕ) (arg : FepString) (fd : List Arrival) (s : Bytes) (fd' : List Arrival)
      {arg' : FepString}
      → read_fd (suc n) fd ≡ (some s, fd')
      → length s ≤ p.buf_size
      → append p.memory arg s ≡ ok arg'
      → read_body p (suc f) (suc n) arg fd ≡ read_body p f (suc n - length s) arg' fd'
  unfolding read_body store_in_buf
  read_body_step f n arg fd s fd' r b a =
      let small : ltb p.buf_size (length s) ≡ false = ground arith in rw (r) (rw small (rw a refl))

  -- What the loop has done when it ends.
  pub record Collected (f len : ℕ) (arg : FepString) (fd : List Arrival) (arg' : FepString)
      (fd' : List Arrival) : Type 0 where
    pub result : read_body p f len arg fd ≡ (ok arg', fd')
    pub valid : IsValid arg'
    pub all : contents arg' ++ flat fd' ≡ contents arg ++ flat fd
    pub size : arg'.len ≡ arg.len + len
    pub intact : Intact fd'

  -- The loop ends after at most `len` reads with exactly `len` more bytes, taken from the front of
  -- the stream, provided that the stream has as many, no read fails, and the buffer and a signed
  -- `size_t` hold as many.
  pub read_body-Collected :
      (f len : ℕ) (arg : FepString) (fd : List Arrival)
      → IsValid arg
      → Intact fd
      → len < f
      → len ≤ p.buf_size
      → len ≤ length (flat fd)
      → arg.len + len < 2 ^ 63
      → (arg' : FepString) × (fd' : List Arrival) × Collected f len arg fd arg' fd'
  read_body-Collected zero len arg fd v h a b c d = absurd (omega arith)
  read_body-Collected (suc f) zero arg fd v h a b c d = (
    arg,
    fd,
    record {
      result = unfold read_body in refl;
      valid = v;
      all = refl;
      size = omega arith;
      intact = h;
    },
  )
  read_body-Collected (suc f) (suc n) arg fd v h a b c d =
      let (s, fd1, r) = read_fd-Reads n fd h in
      let some_read : 0 < length s = r.at_least (omega arith) in
      let short : length s ≤ suc n = r.at_most in
      let (arg1, e, v1, k, _) = append_lem p.memory arg s v (omega arith) in
      let left : length s + length (flat fd1) ≡ length (flat fd) =
        omega (arith, ap length r.splits, length-append s (flat fd1)) in
      let grown : arg1.len ≡ arg.len + length s = grows s v v1 k in
      let (arg', fd', w) =
        read_body-Collected f (suc n - length s) arg1 fd1 v1 r.intact (omega arith) (omega arith)
          (omega arith) (omega arith) in
      (
        arg',
        fd',
        record {
          result = read_body_step f n arg fd s fd1 r.result (omega arith) e ∙ w.result;
          valid = w.valid;
          all =
              w.all
              ∙ ap (λ t. t ++ flat fd1) k
              ∙ append_assoc (contents arg) s (flat fd1)
              ∙ ap (◌++◌ (contents arg)) r.splits;
          size = omega (arith, w.size);
          intact = w.intact;
        },
      )

  -- If the stream ends before the argument does, no number of rounds is enough: the loop goes on
  -- reading the end of the stream, as it takes a read of no bytes for progress. Conditions: no read
  -- fails, and the buffer and a signed `size_t` hold the argument.
  pub read_body_at_end :
      (f len : ℕ) (arg : FepString) (fd : List Arrival)
      → IsValid arg
      → Intact fd
      → length (flat fd) < len
      → len ≤ p.buf_size
      → arg.len + len < 2 ^ 63
      → (read_body p f len arg fd).0 ≡ looping
  read_body_at_end zero len arg fd v h a b d = unfold read_body in refl
  read_body_at_end (suc f) zero arg fd v h a b d = absurd (omega arith)
  read_body_at_end (suc f) (suc n) arg fd v h a b d =
      let (s, fd1, r) = read_fd-Reads n fd h in
      let short : length s ≤ suc n = r.at_most in
      let (arg1, e, v1, k, _) = append_lem p.memory arg s v (omega arith) in
      let left : length s + length (flat fd1) ≡ length (flat fd) =
        omega (arith, ap length r.splits, length-append s (flat fd1)) in
      let grown : arg1.len ≡ arg.len + length s = grows s v v1 k in
      ap (λ t. t.0) (read_body_step f n arg fd s fd1 r.result (omega arith) e)
      ∙ read_body_at_end f (suc n - length s) arg1 fd1 v1 r.intact (omega arith) (omega arith)
          (omega arith)
