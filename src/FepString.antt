-- ===== src/FepString.antt =====
-- libfep/string.c, lines 24 to 55, and `struct _FepString` of libfep/private.h: the growing byte
-- buffer. A memory block is the list of its bytes. What a fresh block holds is not known: the
-- allocator is a parameter. Running out of memory (`xalloc_die`) is left out.
pub mod Refines
use libfep.Base.{
  ℕ, ◌+◌, ◌*◌, ◌%◌, ◌^◌, ◌≤◌, max, ◌≡◌, Bytes, [], ◌∷◌, ◌++◌, length, take, drop, ltb, leb,
  if◌then◌else◌, Outcome, ok, fault, ◌>>=◌,
}

-- `malloc` and `realloc`, as documented: the size asked for, and the old contents kept.
pub record Memory : Type 0 where
  pub alloc : ℕ → Bytes
  pub realloc : Bytes → ℕ → Bytes
  pub length-alloc : (n : ℕ) → length (alloc n) ≡ n
  pub length-realloc : (s : Bytes) (n : ℕ) → length (realloc s n) ≡ n
  pub take-realloc :
      (k : ℕ) (s : Bytes) (n : ℕ) → k ≤ length s → k ≤ n → take k (realloc s n) ≡ take k s

pub record FepString : Type 0 where
  pub str : Bytes
  pub len : ℕ
  pub cap : ℕ

-- `memset (&arg, 0, sizeof(FepString))`
abbrev pub zeroed : FepString
zeroed = record { str = []; len = 0; cap = 0 }

-- `size_t` arithmetic
abbrev pub add_size : ℕ → ℕ → ℕ
add_size a b = (a + b) % 2 ^ 64

abbrev pub mul_size : ℕ → ℕ → ℕ
mul_size a b = (a * b) % 2 ^ 64

-- `memcpy (dst + off, src, length src)`
abbrev pub memcpy : Bytes → ℕ → Bytes → Outcome Bytes
memcpy dst off src =
    if leb (off + length src) (length dst)
    then ok (take off dst ++ (src ++ drop (off + length src) dst))
    else fault

module _ (m : Memory) where
  -- The reallocation of `_fep_string_append`.
  unfoldable pub reserve : FepString → ℕ → FepString
  reserve buf count =
      if ltb buf.cap (add_size buf.len count)
      then (let cap = max (mul_size buf.cap 2) (add_size buf.len count) in
          record buf { str = m.realloc buf.str cap; cap = cap })
      else buf

  -- The source is the `count` bytes at `str`.
  unfoldable pub append : FepString → Bytes → Outcome FepString
  append buf str = do
    let grown = reserve buf (length str)
    block ← memcpy grown.str grown.len str
    ok (record grown { str = block; len = add_size grown.len (length str) })

  unfoldable pub append_c : FepString → ℕ → Outcome FepString
  unfolding append
  append_c buf c = append buf (c ∷ [])

  -- `memcpy (dst->str, src->str, src->len)` reads `len` bytes of the source.
  unfoldable pub copy : FepString → Outcome FepString
  copy src = do
    block ←
        (if leb src.len (length src.str)
          then memcpy (m.alloc src.cap) 0 (take src.len src.str)
          else fault)
    ok (record { str = block; len = src.len; cap = src.cap })

unfoldable pub clear : FepString → FepString
clear buf = record buf { len = 0 }
