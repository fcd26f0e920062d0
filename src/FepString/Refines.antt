-- ===== src/FepString/Refines.antt =====
-- The buffer behaves as the byte sequence that it holds.
use libfep.Base.{
  ℕ, ◌+◌, ◌*◌, ◌^◌, ◌≤◌, ◌<◌, ◌≡◌, refl, sym, ap, ◌∙◌, ◌⊎◌, max, Bytes, List, [], ◌∷◌, ◌++◌, length,
  take, drop, length-append, length-take, length-drop, take-append, append_assoc, arith, Outcome,
  ok, ◌>>=◌,
}
use libfep.FepString.{
  Memory, FepString, memcpy, add_size, mul_size, reserve, append, append_c, copy, clear,
}

pub record IsValid (b : FepString) : Type 0 where
  pub block : length b.str ≡ b.cap
  pub within_cap : b.len ≤ b.cap

abbrev pub contents : FepString → Bytes
contents b = take b.len b.str

pub length-contents : {b : FepString} → IsValid b → length (contents b) ≡ b.len
length-contents {b} v = omega (arith, length-take b.len b.str)

pub grows :
    {b r : FepString} (s : Bytes)
    → IsValid b
    → IsValid r
    → contents r ≡ contents b ++ s
    → r.len ≡ b.len + length s
grows {b} {r} s v w e =
    omega (arith, length-contents v, length-contents w, ap length e, length-append (contents b) s)

-- A write that starts inside the block and fits.
memcpy_lem :
    (dst : Bytes) (off : ℕ) (src : Bytes)
    → off + length src ≤ length dst
    → (out : Bytes) × (memcpy dst off src ≡ ok out)
      × (length out ≡ length dst)
      × (take (off + length src) out ≡ take off dst ++ src)
memcpy_lem dst off src h = (
  take off dst ++ (src ++ drop (off + length src) dst),
  ground arith,
  omega (
    arith,
    length-append (take off dst) (src ++ drop (off + length src) dst),
    length-append src (drop (off + length src) dst),
    length-take off dst,
    length-drop (off + length src) dst,
  ),
  ap (take (off + length src)) (sym (append_assoc (take off dst) src (drop (off + length src) dst)))
      ∙ take-append (off + length src) (take off dst ++ src) (drop (off + length src) dst)
          (omega (arith, length-append (take off dst) src, length-take off dst)),
)

-- A client's calls on one buffer.
pub data Op : Type 0 where
  put : Bytes → Op
  put_c : ℕ → Op
  reset : Op

-- The same calls on a plain byte sequence.
pub replay : Bytes → List Op → Bytes
replay s [] = s
replay s (put t ∷ ops) = replay (s ++ t) ops
replay s (put_c c ∷ ops) = replay (s ++ c ∷ []) ops
replay s (reset ∷ ops) = replay [] ops

-- The bytes that the calls pass in.
abbrev pub volume : List Op → ℕ
volume [] = 0
volume (put s ∷ ops) = length s + volume ops
volume (put_c c ∷ ops) = 1 + volume ops
volume (reset ∷ ops) = volume ops

module _ (m : Memory) where
  -- What the reallocation leaves: room for `count` more bytes, and the same contents.
  record Reserved (b r : FepString) (count : ℕ) : Type 0 where
    block : length r.str ≡ r.cap
    same_len : r.len ≡ b.len
    room : b.len + count ≤ r.cap
    kept : contents r ≡ contents b
    doubled : (r.cap ≡ b.cap) ⊎ (2 * b.cap ≤ r.cap)

  reserve-Reserved :
      (b : FepString) (count : ℕ)
      → IsValid b
      → b.len + count < 2 ^ 63
      → Reserved b (reserve m b count) count
  unfolding reserve
  reserve-Reserved b count v h = ground (
    arith,
    m.length-realloc b.str (max (mul_size b.cap 2) (add_size b.len count)),
    m.take-realloc b.len b.str (max (mul_size b.cap 2) (add_size b.len count)),
  )

  -- `_fep_string_append` never writes outside the block; it appends exactly the given bytes, keeps
  -- the buffer valid, and where it reallocates it at least doubles the capacity, provided that the
  -- new length fits a signed `size_t`.
  pub append_lem :
      (b : FepString) (s : Bytes)
      → IsValid b
      → b.len + length s < 2 ^ 63
      → (r : FepString) × (append m b s ≡ ok r)
        × IsValid r
        × (contents r ≡ contents b ++ s)
        × ((r.cap ≡ b.cap) ⊎ (2 * b.cap ≤ r.cap))
  unfolding append
  append_lem b s v h =
      let g = reserve-Reserved b (length s) v h in
      let grown = reserve m b (length s) in
      let (block, wrote, size, bytes) = memcpy_lem grown.str grown.len s (omega (arith, g)) in
      let summed : add_size grown.len (length s) ≡ grown.len + length s = omega (arith, g) in
      (
        record grown { str = block; len = add_size grown.len (length s) },
        rw wrote,
        record { block = size ∙ g.block; within_cap = omega (arith, g) },
        rw summed (bytes ∙ ap (λ t. t ++ s) g.kept),
        g.doubled,
      )

  -- `_fep_string_copy` of a valid buffer gives a valid buffer of its own with the same contents,
  -- length and capacity.
  pub copy_lem :
      (b : FepString)
      → IsValid b
      → (r : FepString) × (copy m b ≡ ok r)
        × IsValid r
        × (contents r ≡ contents b)
        × (r.len ≡ b.len)
        × (r.cap ≡ b.cap)
  unfolding copy
  copy_lem b v =
      let fits : length (contents b) ≤ length (m.alloc b.cap) =
        omega (arith, m.length-alloc b.cap, length-contents v, v) in
      let (block, wrote, size, bytes) = memcpy_lem (m.alloc b.cap) 0 (contents b) (omega arith) in
      let same_len : 0 + length (contents b) ≡ b.len = omega (arith, length-contents v) in
      (
        record { str = block; len = b.len; cap = b.cap },
        ground arith,
        record { block = size ∙ m.length-alloc b.cap; within_cap = v.within_cap },
        rw same_len at bytes,
        refl,
        refl,
      )

  pub run : FepString → List Op → Outcome FepString
  run b [] = ok b
  run b (put s ∷ ops) = do b' ← append m b s; run b' ops
  run b (put_c c ∷ ops) = do b' ← append_c m b c; run b' ops
  run b (reset ∷ ops) = run (clear b) ops

  -- Any sequence of `_fep_string_append`, `_fep_string_append_c` and `_fep_string_clear` on a valid
  -- buffer succeeds, keeps it valid, and leaves the contents that the same calls leave on a plain
  -- byte sequence, as long as fewer than 2^63 bytes are passed in.
  pub run_refines :
      (ops : List Op) (b : FepString)
      → IsValid b
      → b.len + volume ops < 2 ^ 63
      → (r : FepString) × (run b ops ≡ ok r) × IsValid r × (contents r ≡ replay (contents b) ops)
  unfolding run replay append_c clear
  run_refines [] b v h = (b, refl, v, refl)
  run_refines (put s ∷ ops) b v h =
      let (b1, e, v1, c, _) = append_lem b s v (omega arith) in
      let (r, e', v', c') = run_refines ops b1 v1 (omega (arith, grows s v v1 c)) in
      (r, rw (e, ◌>>=◌) e', v', c' ∙ ap (λ t. replay t ops) c)
  run_refines (put_c c ∷ ops) b v h =
      let (b1, e, v1, k, _) = append_lem b (c ∷ []) v (omega arith) in
      let (r, e', v', k') = run_refines ops b1 v1 (omega (arith, grows (c ∷ []) v v1 k)) in
      (r, rw (e, ◌>>=◌) e', v', k' ∙ ap (λ t. replay t ops) k)
  run_refines (reset ∷ ops) b v h =
      run_refines ops (clear b) (record { block = v.block; within_cap = omega arith }) (omega arith)
