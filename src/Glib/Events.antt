-- ===== src/Glib/Events.antt =====
-- libfep-glib/fepgevents.c: events that own their source. The allocator is GLib's, and a parameter;
-- only the blocks that hold the source of a key event are followed in memory.
use libfep.Base.{
  ℕ, suc, max, ◌≡◌, Option, none, some, List, Bytes, [], ◌∷◌, length, take, ◌==◌, leb,
  if◌then◌else◌, Outcome, ok, fault,
}
use libfep.Base.Act.{Act, ◌>>=◌, lift, pure}

-- The blocks, by their addresses, with what each holds while it is in use; the first entry for an
-- address counts.
abbrev pub Blocks : Type 0
Blocks = List (ℕ × Option Bytes)

abbrev pub block_at : Blocks → ℕ → Option Bytes
block_at [] a = none
block_at ((b, v) ∷ blocks) a = if a == b then v else block_at blocks a

abbrev pub replaced : ℕ → Option Bytes → Blocks → Blocks
replaced a v blocks = (a, v) ∷ blocks

-- `FepGEvent`: a source is a pointer and a length.
pub data GEvent : Type 0 where
  nothing : GEvent
  key : ℕ → ℕ → Option ℕ → ℕ → GEvent
  resize : ℕ → ℕ → GEvent

-- The sizes of `FepGEventKey`, which is laid out as `FepEventKey`, of `FepGEventResize`, which is as
-- `FepEventResize`, and of `FepGEvent`, where a pointer has eight bytes.
abbrev pub sizeof_key : ℕ
sizeof_key = 32

abbrev pub sizeof_resize : ℕ
sizeof_resize = 12

abbrev pub sizeof_event : ℕ
sizeof_event = max sizeof_key sizeof_resize

-- The bytes at a pointer
abbrev pub bytes_in : Option Bytes → ℕ → Outcome Bytes
bytes_in none n = fault
bytes_in (some s) n = if leb n (length s) then ok (take n s) else fault

abbrev pub bytes_at : Option ℕ → ℕ → Act Blocks Bytes
bytes_at none n blocks = (if n == 0 then ok [] else fault, blocks)
bytes_at (some a) n blocks = (bytes_in (block_at blocks a) n, blocks)

-- GLib's `g_memdup` and `g_free`: a copy is in a new block, and there is none of no bytes.
pub record Allocator : Type 0 where
  pub memdup : Option ℕ → ℕ → Act Blocks (Option ℕ)
  pub memdup-zero :
      (source : Option ℕ) (blocks : Blocks) → memdup source 0 blocks ≡ (ok none, blocks)
  pub memdup-suc :
      (a n : ℕ) (s : Bytes) (blocks : Blocks)
      → bytes_at (some a) (suc n) blocks ≡ (ok s, blocks)
      → (b : ℕ) × (block_at blocks b ≡ none)
        × (memdup (some a) (suc n) blocks ≡ (ok (some b), replaced b (some s) blocks))
  pub free : Option ℕ → Act Blocks (Unit {0})
  pub free-none : (blocks : Blocks) → free none blocks ≡ (ok tt, blocks)
  pub free-some :
      (a : ℕ) (s : Bytes) (blocks : Blocks)
      → block_at blocks a ≡ some s
      → free (some a) blocks ≡ (ok tt, replaced a none blocks)

-- `fep_g_event_new`
pub data GEventType : Type 0 where
  type_nothing type_key_press type_resized : GEventType

unfoldable pub event_new : GEventType → GEvent
event_new type_nothing = nothing
event_new type_key_press = key 0 0 none 0
event_new type_resized = resize 0 0

module _ (alloc : Allocator) where
  -- `fep_g_event_free`
  unfoldable pub event_free : GEvent → Act Blocks (Unit {0})
  event_free nothing = pure tt
  event_free (key keyval modifiers source n) = alloc.free source
  event_free (resize cols rows) = pure tt

  -- The `switch` of `fep_g_event_copy`
  abbrev pub own_source : GEvent → Act Blocks GEvent
  own_source nothing = pure nothing
  own_source (key keyval modifiers source n) = do
    source' ← alloc.memdup source n
    pure (key keyval modifiers source' n)
  own_source (resize cols rows) = pure (resize cols rows)

  -- `fep_g_event_copy` of an event that lies in an object of `size` bytes: `g_slice_dup` reads as
  -- many as a `FepGEvent` has.
  unfoldable pub event_copy : ℕ → GEvent → Act Blocks GEvent
  event_copy size event = if leb sizeof_event size then own_source event else lift fault
