-- ===== src/Csi/Scanning.antt =====
-- `_fep_csi_scan`: it ends, and what it reports.
use libfep.Base.{
  ℕ, zero, suc, ◌<◌, ◌≡◌, ◌≢◌, refl, sym, ap, ap₂, ◌∙◌, true, ◌&&◌, Option, none, some, Bytes, [],
  ◌∷◌, ◌++◌, length, ◌==◌, ltb, ==_iff, &&-true_left, &&-true_right, arith, All, Bool-cases, inl,
  inr, append-nil, append_assoc, length-append, Outcome, ok,
}
use libfep.Csi.{
  Csi, esc, is_param, is_intermediate, is_final, skip, csi_format, memchr_esc, Scan, complete,
  partial, absent, accepts, scan_final, scan_body, scan_esc, scan_at, scan_loop, csi_scan,
}
use libfep.Csi.Parsing.{
  Passes, skip-append, skip-Skipped, IsWellFormed, Stops-params, final-not_intermediate,
}

-- A text that ends inside a control sequence.
pub data IsCutOff : Bytes → Type 0 where
  after_esc : IsCutOff (esc ∷ [])
  inside :
      (params intermediate : Bytes)
      → Passes is_param params
      → Passes is_intermediate intermediate
      → IsCutOff (esc ∷ b'[' ∷ (params ++ intermediate))

-- What each report says of the text.
abbrev pub Reports : Bytes → Option ℕ → Scan → Type 0
Reports str final (complete before csi rest) =
    (before ++ (csi ++ rest) ≡ str)
    × (c : Csi) × (csi ≡ csi_format c)
    × IsWellFormed c
    × (accepts final c.final ≡ true)
Reports str final (partial before csi) = (before ++ csi ≡ str) × IsCutOff csi
Reports str final absent = Unit

-- A round that ends with a report about the whole text.
abbrev Ends : Bytes → Option ℕ → Outcome Scan → Type 0
Ends str final out = (r : Scan) × (out ≡ ok r) × Reports str final r

-- `memchr` finds the first ESC.
abbrev EscAt : Bytes → Option (Bytes × Bytes) → Type 0
EscAt p none = Unit
EscAt p (some (b, [])) = ⊥
EscAt p (some (b, c ∷ s)) = (c ≡ esc) × (p ≡ b ++ c ∷ s)

EscAt-cons :
    (c : ℕ) (p : Bytes) (o : Option (Bytes × Bytes))
    → EscAt p o
    → EscAt (c ∷ p) (elim o [ none ↦ none | some (b, q) ↦ some (c ∷ b, q) ])
EscAt-cons c p none h = tt
EscAt-cons c p (some (b, [])) h = h
EscAt-cons c p (some (b, a ∷ s)) h = (h.0, ap (◌∷◌ c) h.1)

memchr_esc-EscAt : (p : Bytes) → EscAt p (memchr_esc p)
unfolding memchr_esc
memchr_esc-EscAt [] = tt
memchr_esc-EscAt (c ∷ p) = elim (Bool-cases (c == esc)) [
  | inl hit ↦ rw hit ((==_iff c esc).0 hit, refl)
  | inr miss ↦ rw miss (EscAt-cons c p (memchr_esc p) (memchr_esc-EscAt p))
]

module _ (str : Bytes) (final : Option ℕ) where
  -- The next round, on a shorter text.
  abbrev Again : (Bytes → Bytes → Outcome Scan) → ℕ → Type 0
  Again again f = (b s : Bytes) → b ++ s ≡ str → length s < f → Ends str final (again b s)

  scan_final-Ends :
      (again : Bytes → Bytes → Outcome Scan) (f : ℕ) (before params i q : Bytes)
      → Again again f
      → Passes is_param params
      → Passes is_intermediate i
      → before ++ ((esc ∷ b'[' ∷ (params ++ i)) ++ q) ≡ str
      → length q < f
      → Ends str final (scan_final again final before (esc ∷ b'[' ∷ (params ++ i)) q)
  scan_final-Ends again f before params i [] h a b e l =
      (partial before (esc ∷ b'[' ∷ (params ++ i)), refl, (rw append-nil at e, inside params i a b))
  scan_final-Ends again f before params i (c ∷ rest) h a b e l =
      elim (Bool-cases (accepts final c && is_final c)) [
        | inl hit ↦ rw hit (
          complete before ((esc ∷ b'[' ∷ (params ++ i)) ++ c ∷ []) rest,
          refl,
          (
            simp append_assoc (rw append_assoc at e),
            record { params = params; intermediate = i; final = c },
            unfold csi_format in rw append_assoc,
            record {
              params_ok = a;
              intermediate_ok = b;
              final_ok = &&-true_right (accepts final c) (is_final c) hit;
            },
            &&-true_left (accepts final c) (is_final c) hit,
          ),
        )
        | inr miss ↦ rw miss (
            h (before ++ (esc ∷ b'[' ∷ (params ++ i))) (c ∷ rest)
              (append_assoc before (esc ∷ b'[' ∷ (params ++ i)) (c ∷ rest) ∙ e) l)
      ]

  scan_body-Ends :
      (again : Bytes → Bytes → Outcome Scan) (f : ℕ) (before s : Bytes)
      → Again again f
      → before ++ (esc ∷ b'[' ∷ s) ≡ str
      → length s < f
      → Ends str final (scan_body again final before s)
  scan_body-Ends again f before s h e l =
      let k = skip-Skipped is_param s in
      let (params, p) = skip is_param s in
      let j = skip-Skipped is_intermediate p in
      let (i, q) = skip is_intermediate p in
      scan_final-Ends again f before params i q h k.passed j.passed
        (ap (λ t. before ++ (esc ∷ b'[' ∷ t))
            (append_assoc params i q ∙ ap (◌++◌ params) (sym j.splits) ∙ sym k.splits)
          ∙ e)
        (omega (
          arith,
          ap length k.splits,
          ap length j.splits,
          length-append params p,
          length-append i q,
        ))

  scan_esc-Ends :
      (again : Bytes → Bytes → Outcome Scan) (f : ℕ) (before s : Bytes)
      → Again again f
      → before ++ esc ∷ s ≡ str
      → length s < f
      → Ends str final (scan_esc again final before s)
  scan_esc-Ends again f before [] h e l = (partial before (esc ∷ []), refl, (e, after_esc))
  scan_esc-Ends again f before (c ∷ s) h e l = elim (Bool-cases (c == b'[')) [
    | inl hit ↦ rw hit (
        scan_body-Ends again f before s h
          (ap (λ t. before ++ (esc ∷ t ∷ s)) (sym ((==_iff c b'[').0 hit)) ∙ e) (omega arith))
    | inr miss ↦ rw miss (h (before ++ esc ∷ []) (c ∷ s) (rw append_assoc e) l)
  ]

  scan_at-Ends :
      (again : Bytes → Bytes → Outcome Scan) (f : ℕ) (before p : Bytes) (o : Option (Bytes × Bytes))
      → Again again f
      → EscAt p o
      → before ++ p ≡ str
      → length p < suc f
      → Ends str final (scan_at again final before o)
  scan_at-Ends again f before p none h w e l = (absent, refl, tt)
  scan_at-Ends again f before p (some (b, [])) h w e l = elim w [ ]
  scan_at-Ends again f before p (some (b, c ∷ s)) h (we, ws) e l =
      scan_esc-Ends again f (before ++ b) s h
        (append_assoc before b (esc ∷ s)
          ∙ ap (λ t. before ++ (b ++ t ∷ s)) (sym we)
          ∙ ap (◌++◌ before) (sym ws)
          ∙ e)
        (omega (arith, ap length ws, length-append b (c ∷ s)))

  scan_loop-Ends :
      (f : ℕ) (before p : Bytes)
      → before ++ p ≡ str
      → length p < f
      → Ends str final (scan_loop f final before p)
  unfolding scan_loop
  scan_loop-Ends zero before p e l = absurd (omega arith)
  scan_loop-Ends (suc f) before p e l = elim (Bool-cases (ltb 0 (length p))) [
    | inl more ↦ rw more (
        scan_at-Ends (λ b s. scan_loop f final b s) f before p (memchr_esc p) (scan_loop-Ends f)
          (memchr_esc-EscAt p) e l)
    | inr done ↦ rw done (absent, refl, tt)
  ]

-- The scan ends on every text. A sequence that it reports complete is a well-formed control
-- sequence at that place of the text, with a final byte that the caller asked for; one that it
-- reports cut off is the end of the text and the start of a control sequence.
pub csi_scan-Reports :
    (str : Bytes) (final : Option ℕ)
    → (r : Scan) × (csi_scan str final ≡ ok r) × Reports str final r
unfolding csi_scan
csi_scan-Reports str final = scan_loop-Ends str final (suc (length str)) [] str refl (omega arith)

Free-memchr_esc :
    (b s : Bytes) → All (λ c. c ≢ esc) b → memchr_esc (b ++ esc ∷ s) ≡ some (b, esc ∷ s)
unfolding memchr_esc
Free-memchr_esc [] s h = refl
Free-memchr_esc (c ∷ b) s h = ground (arith, Free-memchr_esc b s h.1)

-- The scan finds a well-formed sequence with the wanted final byte behind any text without ESC.
pub csi_scan_finds :
    (before rest : Bytes) (final : Option ℕ) (c : Csi)
    → All (λ a. a ≢ esc) before
    → IsWellFormed c
    → accepts final c.final ≡ true
    → csi_scan (before ++ (csi_format c ++ rest)) final ≡ ok (complete before (csi_format c) rest)
unfolding csi_scan scan_loop csi_format
csi_scan_finds before rest final c h w a =
    let tail = c.intermediate ++ c.final ∷ rest in
    let body : ((c.params ++ (c.intermediate ++ c.final ∷ [])) ++ rest) ≡ c.params ++ tail =
      simp append_assoc in
    let text = esc ∷ b'[' ∷ (c.params ++ tail) in
    let more : ltb 0 (length (before ++ text)) ≡ true = ground (arith, length-append before text) in
    rw (body, more, Free-memchr_esc before (b'[' ∷ (c.params ++ tail)) h)
      (rw
        (skip-append is_param c.params tail w.params_ok
          (Stops-params c.intermediate c.final rest w.intermediate_ok w.final_ok))
        (rw
          (skip-append is_intermediate c.intermediate (c.final ∷ rest) w.intermediate_ok
            (final-not_intermediate c.final w.final_ok))
          (rw (a, w.final_ok)
            (ap₂ (λ t u. ok (complete t u rest)) refl
              (ap (λ t. esc ∷ b'[' ∷ t) (append_assoc c.params c.intermediate (c.final ∷ [])))))))
