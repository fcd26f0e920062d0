-- ===== src/Strv/Fields.antt =====
-- `_fep_strsplit` at a delimiter of one byte, which is how every caller uses it.
use libfep.Base.{
  ℕ, zero, suc, ◌+◌, ◌≤◌, ◌<◌, ◌≡◌, refl, sym, ap, ◌∙◌, true, false, Option, none, some, List,
  Bytes, [], ◌∷◌, ◌++◌, length, drop, ◌==◌, ltb, if◌then◌else◌, ok, arith, append-nil, Bool-cases,
  inl, inr, lt→ltb, append_assoc, length-append,
}
use libfep.Strv.{
  Match, Search, has_prefix, later, strstr, search_strstr, count_loop, split_loop, strsplit_full,
  strsplit,
}

abbrev pub push_head : ℕ → List Bytes → List Bytes
push_head c [] = (c ∷ []) ∷ []
push_head c (t ∷ ts) = (c ∷ t) ∷ ts

-- The pieces between the delimiters; an empty last piece is dropped.
unfoldable pub fields : ℕ → Bytes → List Bytes
fields d [] = []
fields d (c ∷ s) = if c == d then [] ∷ fields d s else push_head c (fields d s)

-- What stands behind the last delimiter, if anything.
abbrev pub last_piece : Bytes → List Bytes
last_piece [] = []
last_piece (c ∷ s) = (c ∷ s) ∷ []

-- What `strstr` finds, read off the string.
abbrev Reads : ℕ → Bytes → Option (Bytes × Bytes) → Type 0
Reads d s none = fields d s ≡ last_piece s
Reads d s (some (b, p)) =
    (fields d s ≡ b ∷ fields d (drop 1 p)) × (length (drop 1 p) < length s) × (0 < length p)

later-Reads :
    (d c : ℕ) (s : Bytes) (o : Option (Bytes × Bytes))
    → (c == d) ≡ false
    → Reads d s o
    → Reads d (c ∷ s) (later c o)
unfolding fields
later-Reads d c [] none ne h = rw ne refl
later-Reads d c (a ∷ s) none ne h = rw ne (ap (push_head c) h)
later-Reads d c s (some (b, p)) ne (e, l, m) = (rw ne (ap (push_head c) e), omega arith, m)

strstr-Reads : (d : ℕ) (s : Bytes) → Reads d s (strstr s (d ∷ []))
unfolding strstr has_prefix fields
strstr-Reads d [] = refl
strstr-Reads d (c ∷ s) = elim (Bool-cases (c == d)) [
  | inl same ↦ rw same (rw same, omega arith, omega arith)
  | inr other ↦ rw other (later-Reads d c s (strstr s (d ∷ [])) other (strstr-Reads d s))
]

abbrev Found : ℕ → Bytes → Option Match → Type 0
Found d s none = fields d s ≡ last_piece s
Found d s (some q) =
    (fields d s ≡ q.before ∷ fields d q.next) × (length q.next < length s) × (0 < length q.found)

search-Found : (d : ℕ) (s : Bytes) → Found d s (search_strstr (d ∷ []) s)
unfolding search_strstr
search-Found d s = go (strstr s (d ∷ [])) (strstr-Reads d s)
  where
    go :
        (o : Option (Bytes × Bytes))
        → Reads d s o
        → Found d s (elim o [
          | none ↦ none
          | some (b, p) ↦ some (record { before = b; found = p; next = drop (length (d ∷ [])) p })
        ])
    go none h = h
    go (some (b, p)) h = h

-- The first loop counts the pieces that a delimiter ends, the second one collects them.
module _ (d : ℕ) where
  split_loop-fields :
      (f : ℕ) (p : Bytes) (q : Option Match) (r : List Bytes)
      → length p < f
      → Found d p q
      → (ts : List Bytes) × (rest : Bytes) × (split_loop (search_strstr (d ∷ [])) f p q r
          ≡ ok (r ++ ts, rest))
        × (ts ++ last_piece rest ≡ fields d p)
        × ((n : ℕ) → count_loop (search_strstr (d ∷ [])) f q n ≡ ok (n + length ts))
  unfolding split_loop count_loop
  split_loop-fields zero p q r h w = absurd (omega arith)
  split_loop-fields (suc f) p none r h w =
      ([], p, ap (λ t. ok (t, p)) (sym (append-nil r)), sym w, λ n. ap ok (omega arith))
  split_loop-fields (suc f) p (some q) r h (e, l, m) =
      let more : ltb 0 (length q.found) ≡ true = omega (arith, lt→ltb) in
      let (ts, rest, i, j, k) =
        split_loop-fields f q.next (search_strstr (d ∷ []) q.next) (r ++ q.before ∷ [])
          (omega arith) (search-Found d q.next) in
      (
        q.before ∷ ts,
        rest,
        rw more (i ∙ ap (λ t. ok (t, rest)) (append_assoc r (q.before ∷ []) ts)),
        ap (◌∷◌ q.before) j ∙ sym e,
        λ n. rw more (k (n + 1) ∙ ap ok (omega arith)),
      )

-- What follows the loops.
strsplit_full-loops :
    (search : Search) (s : Bytes) {n : ℕ} {ts : List Bytes} (p : Bytes)
    → count_loop search (suc (length s)) (search s) 0 ≡ ok n
    → split_loop search (suc (length s)) s (search s) [] ≡ ok (ts, p)
    → length ts ≤ n
    → strsplit_full search s ≡ ok (ts ++ last_piece p)
unfolding strsplit_full
strsplit_full-loops search s {ts} [] c l h = rw (c, l, append-nil) (ground arith)
strsplit_full-loops search s {ts} (a ∷ p) c l h =
    rw (c, l) (ground (arith, length-append ts ((a ∷ p) ∷ [])))

-- `_fep_strsplit` at a delimiter of one byte terminates, stays inside the array that it allocates,
-- and returns the pieces between the delimiters, the last one only if it is not empty.
pub strsplit-fields : (d : ℕ) (s : Bytes) → strsplit s (d ∷ []) ≡ ok (fields d s)
unfolding strsplit
strsplit-fields d s =
    let search = search_strstr (d ∷ []) in
    let (ts, rest, i, j, k) =
      split_loop-fields d (suc (length s)) s (search s) [] (omega arith) (search-Found d s) in
    strsplit_full-loops search s rest (k 0) i (omega arith) ∙ ap ok j
