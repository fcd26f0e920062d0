-- ===== src/FepList/Shapes.antt =====
-- The shape of a linked list: its addresses, its nodes, and what is known of its last one.
use libfep.Base.{
  ℕ, ◌+◌, ◌<◌, ◌≡◌, ◌≢◌, refl, Option, none, some, List, [], ◌∷◌, ◌++◌, All, Distinct, arith,
}
use libfep.FepList.{Node, Heap}

abbrev pub first : List ℕ → Option ℕ
first [] = none
first (a ∷ ads) = some a

abbrev pub last : ℕ → List ℕ → ℕ
last a [] = a
last a (b ∷ ads) = last b ads

pub last-not : (a b : ℕ) (ads : List ℕ) → All (λ c. c ≢ a) (b ∷ ads) → last b ads ≢ a
last-not a b [] h = h.0
last-not a b (c ∷ ads) h = last-not a c ads h.1

pub last-append : (b : ℕ) (ads : List ℕ) (a : ℕ) → last b (ads ++ a ∷ []) ≡ a
last-append b [] a = refl
last-append b (c ∷ ads) a = last-append c ads a

pub All-last : (m b : ℕ) (ads : List ℕ) → All (λ c. c < m) (b ∷ ads) → last b ads < m
All-last m b [] h = h.0
All-last m b (c ∷ ads) h = All-last m c ads h.1

not_above :
    (a b : ℕ) (ads : List ℕ) → All (λ c. c ≢ b) ads → b < a → All (λ c. c ≢ b) (ads ++ a ∷ [])
not_above a b [] h u = ((λ e. omega (arith, e)), tt)
not_above a b (c ∷ ads) (h, hs) u = (h, not_above a b ads hs u)

pub Distinct-append :
    (a : ℕ) (ads : List ℕ) → Distinct ads → All (λ c. c < a) ads → Distinct (ads ++ a ∷ [])
Distinct-append a [] d u = (tt, tt)
Distinct-append a (b ∷ ads) (f, d) (v, u) = (not_above a b ads f v, Distinct-append a ads d u)

pub in_use-append :
    (a : ℕ) (ads : List ℕ) → All (λ c. c < a) ads → All (λ c. c < a + 1) (ads ++ a ∷ [])
in_use-append a [] u = (omega arith, tt)
in_use-append a (b ∷ ads) (v, u) = (omega arith, in_use-append a ads u)

module _ {A : Type 0} where
  -- The nodes at the addresses `ads`, linked by `next`, hold `xs`.
  abbrev pub Chain : (ℕ → Option (Node A)) → List ℕ → List A → Type 0
  Chain cell [] [] = Unit
  Chain cell [] (x ∷ xs) = ⊥
  Chain cell (a ∷ ads) [] = ⊥
  Chain cell (a ∷ ads) (x ∷ xs) =
      (n : Node A) × (cell a ≡ some n) × (n.contents ≡ x) × (n.next ≡ first ads) × Chain cell ads xs

  -- `prev` of the first node, as `_fep_list_append` reads it, gives the last one.
  abbrev pub LastKnown : (ℕ → Option (Node A)) → List ℕ → Type 0
  LastKnown cell [] = Unit
  LastKnown cell (a ∷ ads) =
      (n : Node A) × (cell a ≡ some n) × (elim n.prev [ none ↦ a | some l ↦ l ] ≡ last a ads)

  pub record IsList (heap : Heap A) (head : Option ℕ) (ads : List ℕ) (xs : List A) : Type 0 where
    pub head_first : head ≡ first ads
    pub chain : Chain heap.cell ads xs
    pub distinct : Distinct ads
    pub in_use : All (λ a. a < heap.fresh) ads
    pub last_known : LastKnown heap.cell ads
