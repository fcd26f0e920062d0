-- ===== src/FepList.antt =====
-- libfep/list.c and `struct _FepList` of libfep/private.h: the doubly linked list that holds the
-- queue of messages. A heap gives each address that is in use its node; an access to any other is a
-- fault. Only `prev` of the first node is ever read: it points to the last one.
pub mod Shapes
pub mod Appending
use libfep.Base.{ℕ, ◌+◌, Option, none, some, ◌==◌, if◌then◌else◌, Outcome, ok, fault, ◌>>=◌}

pub record Node (A : Type 0) : Type 0 where
  pub prev : Option ℕ
  pub next : Option ℕ
  pub contents : A

pub record Heap (A : Type 0) : Type 0 where
  pub cell : ℕ → Option (Node A)
  pub fresh : ℕ

abbrev pub update : {A : Type 0} → (ℕ → Option (Node A)) → ℕ → Node A → ℕ → Option (Node A)
update f p n q = if p == q then some n else f q

abbrev pub load : {A : Type 0} → Heap A → ℕ → Outcome (Node A)
load heap p = elim (heap.cell p) [ none ↦ fault | some n ↦ ok n ]

abbrev pub store : {A : Type 0} → Heap A → ℕ → Node A → Heap A
store heap p n = record heap { cell = update heap.cell p n }

-- `xzalloc (sizeof(FepList))` and the write of `data`: a new node at an address not in use.
abbrev pub new_node : {A : Type 0} → Heap A → A → Heap A
new_node heap x = record {
  cell = update heap.cell heap.fresh (record { prev = none; next = none; contents = x });
  fresh = heap.fresh + 1;
}

-- `head->prev ? head->prev : head`
abbrev pub last_of : {A : Type 0} → ℕ → Node A → ℕ
last_of h head = elim head.prev [ none ↦ h | some l ↦ l ]

-- The stores of the second branch, in the code's order; `a` is the new node.
unfoldable pub link_last : {A : Type 0} → Heap A → ℕ → ℕ → ℕ → Outcome (Heap A)
link_last heap h last a = do
  n ← load heap last
  let heap1 = store heap last (record n { next = some a })
  head ← load heap1 h
  let heap2 = store heap1 h (record head { prev = some a })
  new ← load heap2 a
  ok (store heap2 a (record new { prev = some last; next = none }))

-- `_fep_list_append`: the new head and the heap.
unfoldable pub list_append : {A : Type 0} → Heap A → Option ℕ → A → Outcome (ℕ × Heap A)
list_append heap none x = ok (heap.fresh, new_node heap x)
list_append heap (some h) x = do
  let heap0 = new_node heap x
  head ← load heap0 h
  heap' ← link_last heap0 h (last_of h head) heap.fresh
  ok (h, heap')
