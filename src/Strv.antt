-- ===== src/Strv.antt =====
-- libfep/string.c, lines 57 to 145: splitting and joining of C strings. A C string is the list of
-- its bytes before the terminating NUL, and a pointer into it is the part that it points at.
-- `max_tokens`, which the code never reads, is left out. The loops run on fuel: `strsplit_full` is
-- given one round more than the string has bytes.
pub mod Fields
pub mod RoundTrip
use libfep.Base.{
  ℕ, zero, suc, ◌+◌, Bool, true, false, ◌&&◌, Option, none, some, List, Bytes, [], ◌∷◌, ◌++◌,
  length, drop, ◌==◌, leb, ltb, if◌then◌else◌, Outcome, ok, fault, looping, ◌>>=◌,
}

-- What a search hands back: the text before the match, the match `p`, and `*next`.
pub record Match : Type 0 where
  pub before : Bytes
  pub found : Bytes
  pub next : Bytes

abbrev pub Search : Type 0
Search = Bytes → Option Match

unfoldable pub has_prefix : Bytes → Bytes → Bool
has_prefix [] s = true
has_prefix (d ∷ ds) [] = false
has_prefix (d ∷ ds) (c ∷ s) = c == d && has_prefix ds s

-- The text before the first match, and the text from it on.
abbrev pub later : ℕ → Option (Bytes × Bytes) → Option (Bytes × Bytes)
later c none = none
later c (some (b, f)) = some (c ∷ b, f)

unfoldable pub strstr : Bytes → Bytes → Option (Bytes × Bytes)
strstr [] d = if has_prefix d [] then some ([], []) else none
strstr (c ∷ s) d = if has_prefix d (c ∷ s) then some ([], c ∷ s) else later c (strstr s d)

unfoldable pub is_in : ℕ → Bytes → Bool
is_in c [] = false
is_in c (d ∷ ds) = if c == d then true else is_in c ds

unfoldable pub strpbrk : Bytes → Bytes → Option (Bytes × Bytes)
strpbrk [] set = none
strpbrk (c ∷ s) set = if is_in c set then some ([], c ∷ s) else later c (strpbrk s set)

unfoldable pub strspn : Bytes → Bytes → ℕ
strspn [] set = 0
strspn (c ∷ s) set = if is_in c set then suc (strspn s set) else 0

unfoldable pub search_strstr : Bytes → Search
unfolding strstr has_prefix
search_strstr delimiter str = elim (strstr str delimiter) [
  | none ↦ none
  | some (b, p) ↦ some (record { before = b; found = p; next = drop (length delimiter) p })
]

-- `*next = p + strspn (str, delimiter)`
unfoldable pub search_strpbrk : Bytes → Search
unfolding strpbrk strspn is_in
search_strpbrk delimiter str = elim (strpbrk str delimiter) [
  | none ↦ none
  | some (b, p) ↦ some (record { before = b; found = p; next = drop (strspn str delimiter) p })
]

-- The first loop of `_fep_strsplit_full`: `n_delimiters` at its end.
unfoldable pub count_loop : Search → ℕ → Option Match → ℕ → Outcome ℕ
count_loop search zero q n = looping
count_loop search (suc f) none n = ok n
count_loop search (suc f) (some q) n =
    let rest = count_loop search f (search q.next) (n + 1) in
    if ltb 0 (length q.found) then rest else ok n

-- The second loop: the tokens written through `r`, and the final `p`.
unfoldable pub split_loop :
    Search → ℕ → Bytes → Option Match → List Bytes → Outcome (List Bytes × Bytes)
split_loop search zero p q r = looping
split_loop search (suc f) p none r = ok (r, p)
split_loop search (suc f) p (some q) r =
    let rest = split_loop search f q.next (search q.next) (r ++ q.before ∷ []) in
    if ltb 0 (length q.found) then rest else ok (r, p)

-- `strv` has `n_delimiters + 2` places, the last token and the NULL that ends it included.
unfoldable pub strsplit_full : Search → Bytes → Outcome (List Bytes)
strsplit_full search str = do
  n ← count_loop search (suc (length str)) (search str) 0
  (tokens, p) ← split_loop search (suc (length str)) str (search str) []
  let strv = if ltb 0 (length p) then tokens ++ p ∷ [] else tokens
  if leb (length strv + 1) (n + 2) then ok strv else fault

unfoldable pub strsplit : Bytes → Bytes → Outcome (List Bytes)
strsplit str delimiter = strsplit_full (search_strstr delimiter) str

unfoldable pub strsplit_set : Bytes → Bytes → Outcome (List Bytes)
strsplit_set str delimiter = strsplit_full (search_strpbrk delimiter) str

-- The first loop of `_fep_strjoinv`: the length that is allocated, less one.
unfoldable pub joined_length : ℕ → List Bytes → ℕ → ℕ
joined_length delimiter_len [] len = len
joined_length delimiter_len (t ∷ []) len = len + length t
joined_length delimiter_len (t ∷ u ∷ r) len =
    joined_length delimiter_len (u ∷ r) (len + length t + delimiter_len)

-- The second loop, by `strcat`.
unfoldable pub joined : Bytes → List Bytes → Bytes → Bytes
joined delimiter [] str = str
joined delimiter (t ∷ []) str = str ++ t
joined delimiter (t ∷ u ∷ r) str = joined delimiter (u ∷ r) ((str ++ t) ++ delimiter)

-- `strcat` past the `len + 1` bytes allocated would be a fault.
unfoldable pub strjoinv : List Bytes → Bytes → Outcome Bytes
strjoinv strv delimiter =
    let len = joined_length (length delimiter) strv 0 in
    let str = joined delimiter strv [] in if leb (length str + 1) (len + 1) then ok str else fault

unfoldable pub strv_length : List Bytes → ℕ
strv_length [] = 0
strv_length (t ∷ r) = strv_length r + 1
