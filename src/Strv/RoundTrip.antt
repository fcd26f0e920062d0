-- ===== src/Strv/RoundTrip.antt =====
-- `_fep_strjoinv`, and what it and `_fep_strsplit` undo of one another.
use libfep.Base.{
  ℕ, ◌+◌, ◌≡◌, ◌≢◌, refl, sym, ap, ◌∙◌, List, Bytes, [], ◌∷◌, ◌++◌, length, ok, ◌>>=◌, arith, All,
  append-nil, append_assoc, length-append,
}
use libfep.Strv.{strsplit, joined_length, joined, strjoinv}
use libfep.Strv.Fields.{fields, last_piece, strsplit-fields}

-- The strings with the delimiter between them.
unfoldable pub join : Bytes → List Bytes → Bytes
join d [] = []
join d (t ∷ []) = t
join d (t ∷ u ∷ r) = t ++ (d ++ join d (u ∷ r))

joined-join : (d : Bytes) (ts : List Bytes) (out : Bytes) → joined d ts out ≡ out ++ join d ts
unfolding joined join
joined-join d [] out = sym (append-nil out)
joined-join d (t ∷ []) out = refl
joined-join d (t ∷ u ∷ r) out = simp (joined-join d (u ∷ r), append_assoc)

joined_length-join :
    (d : Bytes) (ts : List Bytes) (n : ℕ) → joined_length (length d) ts n ≡ n + length (join d ts)
unfolding joined_length join
joined_length-join d [] n = omega arith
joined_length-join d (t ∷ []) n = refl
joined_length-join d (t ∷ u ∷ r) n = omega (
  arith,
  joined_length-join d (u ∷ r) (n + length t + length d),
  length-append t (d ++ join d (u ∷ r)),
  length-append d (join d (u ∷ r)),
)

-- `_fep_strjoinv` never writes past the block that its first loop sized, and returns the strings
-- with the delimiter between each two.
pub strjoinv-join : (ts : List Bytes) (d : Bytes) → strjoinv ts d ≡ ok (join d ts)
unfolding strjoinv
strjoinv-join ts d = rw (joined-join d ts []) (ground (arith, joined_length-join d ts 0))

abbrev pub Free : ℕ → Bytes → Type 0
Free d = All (λ c. c ≢ d)

abbrev pub LastNonempty : List Bytes → Type 0
LastNonempty [] = Unit
LastNonempty (t ∷ []) = t ≢ []
LastNonempty (t ∷ u ∷ r) = LastNonempty (u ∷ r)

fields-Free : (d : ℕ) (t : Bytes) → Free d t → fields d t ≡ last_piece t
unfolding fields
fields-Free d [] h = refl
fields-Free d (c ∷ []) h = ground (arith, h.0)
fields-Free d (c ∷ a ∷ t) h = ground (arith, fields-Free d (a ∷ t) h.1)

fields-append : (d : ℕ) (t rest : Bytes) → Free d t → fields d (t ++ d ∷ rest) ≡ t ∷ fields d rest
unfolding fields
fields-append d [] rest h = ground arith
fields-append d (c ∷ t) rest h = ground (arith, fields-append d t rest h.1)

fields-join :
    (d : ℕ) (ts : List Bytes) → All (Free d) ts → LastNonempty ts → fields d (join (d ∷ []) ts) ≡ ts
unfolding join
fields-join d [] h l = unfold fields in refl
fields-join d ([] ∷ []) h l = absurd (l refl)
fields-join d ((c ∷ t) ∷ []) h l = fields-Free d (c ∷ t) h.0
fields-join d (t ∷ u ∷ r) h l =
    fields-append d t (join (d ∷ []) (u ∷ r)) h.0 ∙ ap (◌∷◌ t) (fields-join d (u ∷ r) h.1 l)

-- Splitting what was joined gives the strings back, if none holds the delimiter and the last one
-- is not empty.
pub strsplit-strjoinv :
    (d : ℕ) (ts : List Bytes)
    → All (Free d) ts
    → LastNonempty ts
    → (strjoinv ts (d ∷ []) >>= λ s. strsplit s (d ∷ [])) ≡ ok ts
strsplit-strjoinv d ts h l =
    rw strjoinv-join (strsplit-fields d (join (d ∷ []) ts) ∙ ap ok (fields-join d ts h l))
