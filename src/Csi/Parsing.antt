-- ===== src/Csi/Parsing.antt =====
-- `_fep_csi_parse` and `_fep_csi_format` undo one another.
use libfep.Base.{
  ℕ, ◌≡◌, refl, ap, subst, some-injective, Bool, true, false, some, Bytes, [], ◌∷◌, ◌++◌, length,
  ltb, arith, All, Bool-cases, inl, inr, append_assoc, length-append,
}
use libfep.Csi.{
  Csi, esc, is_param, is_intermediate, is_final, skip, parse_final, parse_intermediate, csi_parse,
  csi_format,
}

abbrev pub Passes : (ℕ → Bool) → Bytes → Type 0
Passes test = All (λ c. test c ≡ true)

-- The rest is where the test first fails.
abbrev pub Stops : (ℕ → Bool) → Bytes → Type 0
Stops test [] = Unit
Stops test (c ∷ s) = test c ≡ false

pub skip-append :
    (test : ℕ → Bool) (a b : Bytes) → Passes test a → Stops test b → skip test (a ++ b) ≡ (a, b)
unfolding skip
skip-append test [] [] p h = refl
skip-append test [] (c ∷ b) p h = rw h
skip-append test (c ∷ a) b (p, ps) h = rw (p, skip-append test a b ps h)

pub record Skipped (test : ℕ → Bool) (s : Bytes) (r : Bytes × Bytes) : Type 0 where
  pub splits : s ≡ r.0 ++ r.1
  pub passed : Passes test r.0
  pub stopped : Stops test r.1

pub skip-Skipped : (test : ℕ → Bool) (s : Bytes) → Skipped test s (skip test s)
unfolding skip
skip-Skipped test [] = record { splits = refl; passed = tt; stopped = tt }
skip-Skipped test (c ∷ s) = elim (Bool-cases (test c)) [
  | inl e ↦
      let ih = skip-Skipped test s in
      rw e (record { splits = ap (◌∷◌ c) ih.splits; passed = (e, ih.passed); stopped = ih.stopped })
  | inr e ↦ rw e (record { splits = refl; passed = tt; stopped = e })
]

-- The sequences that the standard allows.
pub record IsWellFormed (c : Csi) : Type 0 where
  pub params_ok : Passes is_param c.params
  pub intermediate_ok : Passes is_intermediate c.intermediate
  pub final_ok : is_final c.final ≡ true

pub final-not_param : (c : ℕ) → is_final c ≡ true → is_param c ≡ false
final-not_param c h = ground arith

pub final-not_intermediate : (c : ℕ) → is_final c ≡ true → is_intermediate c ≡ false
final-not_intermediate c h = ground arith

pub intermediate-not_param : (c : ℕ) → is_intermediate c ≡ true → is_param c ≡ false
intermediate-not_param c h = ground arith

-- Where the parameters end.
pub Stops-params :
    (i : Bytes) (f : ℕ) (rest : Bytes)
    → Passes is_intermediate i
    → is_final f ≡ true
    → Stops is_param (i ++ f ∷ rest)
Stops-params [] f rest p h = final-not_param f h
Stops-params (c ∷ i) f rest p h = intermediate-not_param c p.0

parse_intermediate_lem :
    (params i : Bytes) (f : ℕ) (rest : Bytes)
    → Passes is_intermediate i
    → is_final f ≡ true
    → parse_intermediate params (i ++ f ∷ rest)
      ≡ some (record { params = params; intermediate = i; final = f }, rest)
parse_intermediate_lem params [] f rest p h =
    rw (skip-append is_intermediate [] (f ∷ rest) tt (final-not_intermediate f h)) refl
parse_intermediate_lem params (c ∷ i) f rest p h =
    rw (skip-append is_intermediate (c ∷ i) (f ∷ rest) p (final-not_intermediate f h)) refl

-- Parsing what was printed gives the sequence back, and leaves what follows it.
pub csi_parse-csi_format :
    (c : Csi) (rest : Bytes)
    → IsWellFormed c
    → csi_parse (csi_format c ++ rest) b'[' ≡ some (c, rest)
unfolding csi_parse csi_format
csi_parse-csi_format c rest w =
    let tail = c.intermediate ++ c.final ∷ rest in
    let e : ((c.params ++ (c.intermediate ++ c.final ∷ [])) ++ rest) ≡ c.params ++ tail =
      simp append_assoc in
    let big : ltb (length (esc ∷ b'[' ∷ (c.params ++ tail))) 3 ≡ false =
      ground (arith, length-append c.params tail, length-append c.intermediate (c.final ∷ rest)) in
    rw (e, big)
      (rw
        (skip-append is_param c.params tail w.params_ok
          (Stops-params c.intermediate c.final rest w.intermediate_ok w.final_ok))
        (parse_intermediate_lem c.params c.intermediate c.final rest w.intermediate_ok w.final_ok))

-- What a successful parse says of the text.
pub record Parsed (introducer : ℕ) (s : Bytes) (r : Csi × Bytes) : Type 0 where
  pub text : s ≡ esc ∷ introducer ∷ (r.0.params ++ (r.0.intermediate ++ r.0.final ∷ r.1))
  pub params_ok : Passes is_param r.0.params
  pub intermediate_ok : Passes is_intermediate r.0.intermediate
  pub final_not_intermediate : is_intermediate r.0.final ≡ false

parse_final-Parsed :
    (introducer : ℕ) (params s i p : Bytes) {r : Csi × Bytes}
    → parse_final params i p ≡ some r
    → Passes is_param params
    → Skipped is_intermediate s (i, p)
    → Parsed introducer (esc ∷ introducer ∷ (params ++ s)) r
parse_final-Parsed introducer params s i [] e h k = cc
parse_final-Parsed introducer params s i (f ∷ rest) e h k =
    subst (λ r. Parsed introducer (esc ∷ introducer ∷ (params ++ s)) r) (some-injective _ _ e)
      (record {
        text = ap (λ t. esc ∷ introducer ∷ (params ++ t)) k.splits;
        params_ok = h;
        intermediate_ok = k.passed;
        final_not_intermediate = k.stopped;
      })

parse_intermediate-Parsed :
    (introducer : ℕ) (params s : Bytes) {r : Csi × Bytes}
    → parse_intermediate params s ≡ some r
    → Passes is_param params
    → Parsed introducer (esc ∷ introducer ∷ (params ++ s)) r
parse_intermediate-Parsed introducer params [] e h = cc
parse_intermediate-Parsed introducer params (c ∷ s) e h =
    let (i, p) = skip is_intermediate (c ∷ s) in
    parse_final-Parsed introducer params (c ∷ s) i p e h (skip-Skipped is_intermediate (c ∷ s))

-- The checks in front of the loops.
csi_parse_guard :
    (a b : ℕ) (s : Bytes) (introducer : ℕ) {r : Csi × Bytes}
    → csi_parse (a ∷ b ∷ s) introducer ≡ some r
    → (a ≡ esc)
      × (b ≡ introducer)
      × (parse_intermediate (skip is_param s).0 (skip is_param s).1 ≡ some r)
unfolding csi_parse
csi_parse_guard a b s introducer e = ground arith

-- A successful `_fep_csi_parse` splits the text at the introducer into parameter bytes,
-- intermediate bytes, one final byte that is not an intermediate byte, and the rest.
pub csi_parse-Parsed :
    (s : Bytes) (introducer : ℕ) {r : Csi × Bytes}
    → csi_parse s introducer ≡ some r
    → Parsed introducer s r
unfolding csi_parse
csi_parse-Parsed [] i e = cc
csi_parse-Parsed (a ∷ []) i e = ground arith
csi_parse-Parsed (a ∷ b ∷ s) i e =
    let (ea, eb, parsed) = csi_parse_guard a b s i e in
    let k = skip-Skipped is_param s in
    rw (ea, eb, k.splits)
      (parse_intermediate-Parsed i (skip is_param s).0 (skip is_param s).1 parsed k.passed)
