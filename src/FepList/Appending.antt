-- ===== src/FepList/Appending.antt =====
-- Appending to a well-formed list.
use libfep.Base.{
  ℕ, ◌+◌, ◌<◌, ◌≡◌, ◌≢◌, refl, sym, ◌∙◌, Option, none, some, List, [], ◌∷◌, ◌++◌, ◌==◌,
  if◌then◌else◌, ok, All, Distinct, arith,
}
use libfep.FepList.Shapes.{
  last, last-append, All-last, Distinct-append, in_use-append, last-not, Chain, IsList,
}
use libfep.FepList.{Node, Heap, load, update, new_node, link_last, list_append}

module _ {A : Type 0} where
  -- A heap in which the last node has got a successor, and the other nodes keep what they hold.
  record Extends (cell cell' : ℕ → Option (Node A)) (l a : ℕ) (x : A) : Type 0 where
    keep :
        (b : ℕ) (n : Node A)
        → cell b ≡ some n
        → b ≢ l
        → b ≢ a
        → (n' : Node A) × (cell' b ≡ some n') × (n'.contents ≡ n.contents) × (n'.next ≡ n.next)
    link :
        (n : Node A)
        → cell l ≡ some n
        → (n' : Node A) × (cell' l ≡ some n') × (n'.contents ≡ n.contents) × (n'.next ≡ some a)
    fresh_end : (n' : Node A) × (cell' a ≡ some n') × (n'.contents ≡ x) × (n'.next ≡ none)

  Chain-Extends :
      (cell cell' : ℕ → Option (Node A)) (a : ℕ) (x : A) (b : ℕ) (ads : List ℕ) (xs : List A)
      → Extends cell cell' (last b ads) a x
      → Chain cell (b ∷ ads) xs
      → Distinct (b ∷ ads)
      → All (λ c. c < a) (b ∷ ads)
      → Chain cell' ((b ∷ ads) ++ a ∷ []) (xs ++ x ∷ [])
  Chain-Extends cell cell' a x b [] [] e c d u = elim c [ ]
  Chain-Extends cell cell' a x b [] (y ∷ []) e (n, at, holds, ends, _) d u =
      let (n', at', same, linked) = e.link n at in
      let (m, at_end, is_x, stops) = e.fresh_end in
      (n', at', same ∙ holds, linked, (m, at_end, is_x, stops, tt))
  Chain-Extends cell cell' a x b [] (y ∷ z ∷ xs) e (n, at, holds, ends, c) d u = elim c [ ]
  Chain-Extends cell cell' a x b (c ∷ ads) [] e h d u = elim h [ ]
  Chain-Extends cell cell' a x b (c ∷ ads) (y ∷ xs) e (n, at, holds, ends, rest) (fresh, d) (v, u) =
      let (n', at', same, next) =
        e.keep b n at (λ q. last-not b c ads fresh (sym q)) (omega arith) in
      (n', at', same ∙ holds, next ∙ ends, Chain-Extends cell cell' a x c ads xs e rest d u)

  -- The heap after the stores: the new node ends the list, `last` has it as its successor, and
  -- `prev` of the first node points to it.
  record Linked (heap heap' : Heap A) (h l : ℕ) (x : A) : Type 0 where
    extends : Extends heap.cell heap'.cell l heap.fresh x
    known : (n : Node A) × (heap'.cell h ≡ some n) × (n.prev ≡ some heap.fresh)
    fresh : heap'.fresh ≡ heap.fresh + 1

  -- The node `first1` is what the first node holds once the last one has got its successor.
  abbrev linked : (heap : Heap A) (h l : ℕ) (x : A) (first1 last0 : Node A) → Heap A
  linked heap h l x first1 last0 =
      let a = heap.fresh in
      let new : Node A = record { prev = none; next = none; contents = x } in
      record {
        cell =
            update
              (update (update (update heap.cell a new) l (record last0 { next = some a })) h
                (record first1 { prev = some a }))
              a (record new { prev = some l });
        fresh = a + 1;
      }

  link_last-linked :
      (heap : Heap A) (h l : ℕ) (x : A) (first1 last0 : Node A)
      → heap.cell l ≡ some last0
      → (if l == h then some (record last0 { next = some heap.fresh }) else heap.cell h)
        ≡ some first1
      → h < heap.fresh
      → l < heap.fresh
      → link_last (new_node heap x) h l heap.fresh ≡ ok (linked heap h l x first1 last0)
  unfolding link_last
  link_last-linked heap h l x first1 last0 el eh uh ul = ground arith

  linked-Extends :
      (heap : Heap A) (h l : ℕ) (x : A) (first1 last0 : Node A)
      → heap.cell l ≡ some last0
      → (if l == h then some (record last0 { next = some heap.fresh }) else heap.cell h)
        ≡ some first1
      → h < heap.fresh
      → l < heap.fresh
      → Extends heap.cell (linked heap h l x first1 last0).cell l heap.fresh x
  linked-Extends heap h l x first1 last0 el eh uh ul = record {
    keep = λ b n e nl na. (
      if h == b then record first1 { prev = some heap.fresh } else n,
      ground arith,
      ground arith,
      ground arith,
    );
    link = λ n e. (
      if h == l
          then record first1 { prev = some heap.fresh }
          else record last0 { next = some heap.fresh },
      ground arith,
      ground arith,
      ground arith,
    );
    fresh_end = (record { prev = some l; next = none; contents = x }, ground arith, refl, refl);
  }

  linked-known :
      (heap : Heap A) (h l : ℕ) (x : A) (first1 last0 : Node A)
      → h < heap.fresh
      → (linked heap h l x first1 last0).cell h ≡ some (record first1 { prev = some heap.fresh })
  linked-known heap h l x first1 last0 uh = ground arith

  Chain-last :
      (cell : ℕ → Option (Node A)) (b : ℕ) (ads : List ℕ) (xs : List A)
      → Chain cell (b ∷ ads) xs
      → (n : Node A) × (cell (last b ads) ≡ some n)
  Chain-last cell b ads [] c = elim c [ ]
  Chain-last cell b [] (x ∷ xs) (n, at, _, _, _) = (n, at)
  Chain-last cell b (c ∷ ads) (x ∷ xs) (n, at, _, _, rest) = Chain-last cell c ads xs rest

  list_append-nonempty :
      (heap : Heap A) (b : ℕ) (nb : Node A) (l : ℕ) (x : A) (heap' : Heap A)
      → heap.cell b ≡ some nb
      → b < heap.fresh
      → elim nb.prev [ none ↦ b | some l ↦ l ] ≡ l
      → link_last (new_node heap x) b l heap.fresh ≡ ok heap'
      → list_append heap (some b) x ≡ ok (b, heap')
  unfolding list_append
  list_append-nonempty heap b nb l x heap' at u known done =
      let e : load (new_node heap x) b ≡ ok nb = ground arith in rw (e) (rw (known, done))

  -- `_fep_list_append` to a well-formed list never follows a wild pointer, and gives a well-formed
  -- list whose first node is the old one, if there was one, and which holds the old contents
  -- followed by the new.
  pub list_append_lem :
      (heap : Heap A) (head : Option ℕ) (ads : List ℕ) (xs : List A) (x : A)
      → IsList heap head ads xs
      → (h : ℕ) × (heap' : Heap A) × (list_append heap head x ≡ ok (h, heap'))
        × IsList heap' (some h) (ads ++ heap.fresh ∷ []) (xs ++ x ∷ [])
        × (elim head [ none ↦ heap.fresh | some h0 ↦ h0 ] ≡ h)
  list_append_lem heap head [] [] x v = rw v.head_first (
    heap.fresh,
    new_node heap x,
    unfold list_append in refl,
    record {
      head_first = refl;
      chain = (record { prev = none; next = none; contents = x }, ground arith, refl, refl, tt);
      distinct = (tt, tt);
      in_use = (omega arith, tt);
      last_known = (record { prev = none; next = none; contents = x }, ground arith, refl);
    },
    refl,
  )
  list_append_lem heap head [] (y ∷ xs) x v = elim v.chain [ ]
  list_append_lem heap head (b ∷ ads) xs x v =
      let (nb, at, known) = v.last_known in
      let l = last b ads in
      let below : l < heap.fresh = All-last heap.fresh b ads v.in_use in
      let (last0, at_last) = Chain-last heap.cell b ads xs v.chain in
      let first1 = if l == b then record last0 { next = some heap.fresh } else nb in
      let at_first : (if l == b
            then some (record last0 { next = some heap.fresh })
            else heap.cell b)
          ≡ some first1 =
        ground arith in
      let heap' = linked heap b l x first1 last0 in
      rw v.head_first (
        b,
        heap',
        list_append-nonempty heap b nb l x heap' at v.in_use.0 known
            (link_last-linked heap b l x first1 last0 at_last at_first v.in_use.0 below),
        record {
          head_first = refl;
          chain =
              Chain-Extends heap.cell heap'.cell heap.fresh x b ads xs
                (linked-Extends heap b l x first1 last0 at_last at_first v.in_use.0 below) v.chain
                v.distinct v.in_use;
          distinct = Distinct-append heap.fresh (b ∷ ads) v.distinct v.in_use;
          in_use = in_use-append heap.fresh (b ∷ ads) v.in_use;
          last_known = (
            record first1 { prev = some heap.fresh },
            linked-known heap b l x first1 last0 v.in_use.0,
            sym (last-append b ads heap.fresh),
          );
        },
        refl,
      )
