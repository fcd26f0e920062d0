-- ===== src/Glib/Copies.antt =====
-- A copy of an event has a source of its own.
use libfep.Base.{
  ℕ, suc, ◌≡◌, ◌≢◌, refl, sym, true, false, none, some, Bytes, ◌∷◌, length, ◌==◌, leb, take_all, ok,
  arith,
}
use libfep.Base.Act.{◌>>◌}
use libfep.Glib.Events.{
  Blocks, block_at, replaced, key, Allocator, bytes_at, event_free, event_copy, sizeof_event,
}

-- A block that is not in use is another one than a block that is.
unused-other :
    (blocks : Blocks) (a b : ℕ) (s : Bytes)
    → block_at blocks a ≡ some s
    → block_at blocks b ≡ none
    → b ≢ a
unused-other blocks a b s e f same = cc (e, f, same)

==-refl : (a : ℕ) → (a == a) ≡ true
==-refl a = ground arith

==-other : (a b : ℕ) → a ≢ b → (a == b) ≡ false
==-other a b h = ground arith

module _ (alloc : Allocator) where
  -- The copy of a key event has the same key and the same source, in a block of its own: after one
  -- of the two is freed, the other's source can still be read, and reads the same. Conditions:
  -- the source has at least one byte, its block holds just the source, and the event lies in an
  -- object of the size of a `FepGEvent`.
  pub event_copy-event_free :
      (keyval modifiers a : ℕ) (c : ℕ) (s : Bytes) (blocks : Blocks)
      → block_at blocks a ≡ some (c ∷ s)
      → let n = suc (length s) in
        let event = key keyval modifiers (some a) n in
        (b : ℕ) × (blocks' : Blocks) × (event_copy alloc sizeof_event event blocks
          ≡ (ok (key keyval modifiers (some b) n), blocks'))
        × (((event_free alloc event >> bytes_at (some b) n) blocks').0 ≡ ok (c ∷ s))
        × (((event_free alloc (key keyval modifiers (some b) n) >> bytes_at (some a) n) blocks').0
            ≡ ok (c ∷ s))
  unfolding event_copy event_free
  event_copy-event_free keyval modifiers a c s blocks e =
      let n = suc (length s) in
      let whole : leb n n ≡ true = ground arith in
      let all = take_all n (c ∷ s) (omega arith) in
      let (b, unused, copied) =
        alloc.memdup-suc a (length s) (c ∷ s) blocks (rw (e, whole, all) refl) in
      let blocks' = replaced b (some (c ∷ s)) blocks in
      let other = unused-other blocks a b (c ∷ s) e unused in
      let apart : (a == b) ≡ false = ==-other a b (λ same. other (sym same)) in
      let back : (b == a) ≡ false = ==-other b a other in
      (
        b,
        blocks',
        rw copied refl,
        rw (alloc.free-some a (c ∷ s) blocks' (rw (apart, e) refl), back, ==-refl b, whole, all)
            refl,
        rw (alloc.free-some b (c ∷ s) blocks' (rw (==-refl b) refl), apart, e, whole, all) refl,
      )
