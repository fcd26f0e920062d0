-- ===== src/MainLoop/Matching.antt =====
-- Where the screen is found to be cleared, and the padding of capabilities.
use libfep.Base.{
  ℕ, zero, suc, ◌+◌, ◌-◌, ◌<◌, ◌≤◌, ◌≡◌, refl, sym, ap, ◌∙◌, Bool, true, false, ◌&&◌, Option, none,
  some, Bytes, [], ◌∷◌, length, drop, get_elem?, ◌==◌, ==_iff, &&-true_left, ltb, leb,
  if◌then◌else◌, Bool-cases, inl, inr, arith, Outcome, ok,
}
use libfep.Csi.{skip}
use libfep.MainLoop.{memrchr, matches_at, match_loop, find_match_end, padding_at, remove_padding}
use libfep.Strv.{has_prefix, later, strstr}

module _ (h : Bytes) (c : ℕ) (ds : Bytes) where
  -- The needle is at none of these places.
  abbrev NoneFrom : ℕ → ℕ → Type 0
  NoneFrom lo hi = (q : ℕ) → lo ≤ q → q < hi → matches_at h (c ∷ ds) q ≡ false

  -- The end of the last of the needle's places.
  abbrev pub LastMatch : Option ℕ → Type 0
  LastMatch none = NoneFrom 0 (length h)
  LastMatch (some end) =
      (p : ℕ) × (end ≡ p + length (c ∷ ds))
      × (matches_at h (c ∷ ds) p ≡ true)
      × NoneFrom (suc p) (length h)

  abbrev Unlike : Option ℕ → Type 0
  Unlike none = Unit
  Unlike (some a) = (a == c) ≡ false

  no_prefix : (s : Bytes) (q : ℕ) → Unlike (get_elem? s q) → has_prefix (c ∷ ds) (drop q s) ≡ false
  unfolding has_prefix
  no_prefix [] zero u = refl
  no_prefix [] (suc q) u = refl
  no_prefix (a ∷ s) zero u = rw u refl
  no_prefix (a ∷ s) (suc q) u = no_prefix s q u

  no_match : (q : ℕ) → Unlike (get_elem? h q) → matches_at h (c ∷ ds) q ≡ false
  no_match q u = rw (no_prefix h q u) (and_false (leb (length (c ∷ ds)) (length h - q)))
    where
      and_false : (b : Bool) → (b && false) ≡ false
      and_false true = refl
      and_false false = refl

  NoneFrom-join : (lo mid hi : ℕ) → NoneFrom lo mid → NoneFrom mid hi → NoneFrom lo hi
  NoneFrom-join lo mid hi a b q l r = elim (Bool-cases (ltb q mid)) [
    | inl e ↦ a q l (ground (arith, e))
    | inr e ↦ b q (ground (arith, e)) r
  ]

  NoneFrom-one : (n : ℕ) → matches_at h (c ∷ ds) n ≡ false → NoneFrom n (suc n)
  NoneFrom-one n e q l r =
      let same : n ≡ q = omega (arith, l, r) in ap (matches_at h (c ∷ ds)) (sym same) ∙ e

  abbrev Found : ℕ → Option ℕ → Type 0
  Found n none = NoneFrom 0 n
  Found n (some p) = (p < n) × NoneFrom (suc p) n

  Found-suc : (n : ℕ) (r : Option ℕ) → Found n r → matches_at h (c ∷ ds) n ≡ false → Found (suc n) r
  Found-suc n none f e = NoneFrom-join 0 n (suc n) f (NoneFrom-one n e)
  Found-suc n (some p) (l, f) e =
      (omega (arith, l), NoneFrom-join (suc p) n (suc n) f (NoneFrom-one n e))

  Found-byte :
      (n : ℕ) (r : Option ℕ) (o : Option ℕ)
      → Found n r
      → get_elem? h n ≡ o
      → Found (suc n) (elim o [ none ↦ r | some a ↦ if a == c then some n else r ])
  Found-byte n r none f e = Found-suc n r f (no_match n (rw e tt))
  Found-byte n r (some a) f e = elim (Bool-cases (a == c)) [
    | inl hit ↦ rw hit (omega arith, λ q l k. absurd (omega (arith, l, k)))
    | inr miss ↦ rw miss (Found-suc n r f (no_match n (rw e miss)))
  ]

  memrchr-Found : (n : ℕ) → Found n (memrchr h c n)
  unfolding memrchr
  memrchr-Found zero = λ q l r. absurd (omega (arith, r))
  memrchr-Found (suc n) = Found-byte n (memrchr h c n) (get_elem? h n) (memrchr-Found n) refl

  -- The rounds of the loop from `n` on end with the last place.
  abbrev Ends : Outcome (Option ℕ) → Type 0
  Ends out = (r : Option ℕ) × (out ≡ ok r) × LastMatch r

  match_at-Ends :
      (n : ℕ) (o : Option ℕ) (again : ℕ → Outcome (Option ℕ))
      → Found (suc n) o
      → NoneFrom (suc n) (length h)
      → ((p : ℕ) → p < suc n → NoneFrom p (length h) → Ends (again p))
      → Ends (elim o [
        | none ↦ ok none
        | some p ↦
            (let rest = again p in
              if matches_at h (c ∷ ds) p then ok (some (p + length (c ∷ ds))) else rest)
      ])
  match_at-Ends n none again g b k = (none, refl, NoneFrom-join 0 (suc n) (length h) g b)
  match_at-Ends n (some p) again (l, g) b k =
      let above = NoneFrom-join (suc p) (suc n) (length h) g b in
      elim (Bool-cases (matches_at h (c ∷ ds) p)) [
        | inl hit ↦ (some (p + length (c ∷ ds)), rw hit refl, (p, refl, hit, above))
        | inr miss ↦
            (let (r, e, last) =
                k p l (NoneFrom-join p (suc p) (length h) (NoneFrom-one p miss) above) in
              (r, rw miss e, last))
      ]

  match_loop-Ends : (f n : ℕ) → n < f → NoneFrom n (length h) → Ends (match_loop f h c (c ∷ ds) n)
  unfolding match_loop
  match_loop-Ends zero n l b = absurd (omega (arith, l))
  match_loop-Ends (suc f) zero l b = (none, refl, b)
  match_loop-Ends (suc f) (suc n) l b =
      match_at-Ends n (memrchr h c (suc n)) (λ p. match_loop f h c (c ∷ ds) p)
        (memrchr-Found (suc n)) b (λ p k above. match_loop-Ends f p (omega (arith, k, l)) above)

  -- The search for what clears the screen ends, and gives the end of the last place where it
  -- stands in the text, or nothing where it stands nowhere, if it is not empty.
  pub find_match_end-LastMatch : (r : Option ℕ) × (find_match_end h (c ∷ ds) ≡ ok r) × LastMatch r
  unfolding find_match_end
  find_match_end-LastMatch =
      match_loop-Ends (suc (length h)) (length h) (omega arith)
        (λ q l r. absurd (omega (arith, l, r)))

-- What is found starts with the first byte that was looked for.
abbrev StartsWith : ℕ → Option (Bytes × Bytes) → Type 0
StartsWith c none = Unit
StartsWith c (some (before, [])) = ⊥
StartsWith c (some (before, a ∷ s)) = a ≡ c

strstr-StartsWith : (c : ℕ) (ds str : Bytes) → StartsWith c (strstr str (c ∷ ds))
unfolding strstr has_prefix
strstr-StartsWith c ds [] = tt
strstr-StartsWith c ds (a ∷ str) = elim (Bool-cases (a == c && has_prefix ds str)) [
  | inl hit ↦ rw hit ((==_iff a c).0 (&&-true_left (a == c) (has_prefix ds str) hit))
  | inr miss ↦ rw miss (later-StartsWith (strstr str (c ∷ ds)) (strstr-StartsWith c ds str))
]
  where
    later-StartsWith : (o : Option (Bytes × Bytes)) → StartsWith c o → StartsWith c (later a o)
    later-StartsWith none h = tt
    later-StartsWith (some (before, [])) h = h
    later-StartsWith (some (before, b ∷ s)) h = h

-- No padding is ever removed from a capability.
pub remove_padding_lem : (str : Bytes) → remove_padding str ≡ str
unfolding remove_padding skip
remove_padding_lem str =
    unpadded (strstr str (b'$' ∷ b'<' ∷ [])) (strstr-StartsWith b'$' (b'<' ∷ []) str)
  where
    unpadded : (o : Option (Bytes × Bytes)) → StartsWith b'$' o → padding_at str o ≡ str
    unpadded none h = refl
    unpadded (some (before, [])) h = elim h [ ]
    unpadded (some (before, a ∷ s)) h = rw h refl
