-- ===== src/Draw/Passing.antt =====
-- Text of the child process that is passed on to the terminal, and the attributes in it.
use libfep.Base.{
  ℕ, zero, suc, ◌-◌, ◌≤◌, ◌<◌, ◌≡◌, ◌≢◌, refl, sym, ap, subst, ◌∙◌, true, false, Option, none, some,
  Bytes, [], ◌∷◌, ◌++◌, length, take, drop, ltb, All, arith, Bool-cases, inl, inr, append-nil,
  append_assoc, length-append, take-append, drop-append, Outcome, ok, fault,
}
use libfep.Base.Act.{Act, and_then}
use libfep.Base.Int.{negsuc}
use libfep.Csi.{Csi, esc, csi_parse, csi_format, memchr_esc, csi_scan, scan_loop, absent, complete}
use libfep.Csi.Parsing.{IsWellFormed, csi_parse-csi_format}
use libfep.Csi.Scanning.{csi_scan_finds}
use libfep.Draw.Pty.{Cut, byte_behind, attr_in, attrs_loop, keep_cut, redraw, string_from_pty}
use libfep.Screen.{Device, Screen, write_tty}
use libfep.Screen.Sending.{
  sends, Takes, write_tty-sends, sends-sends, change_bytes, apply_attr-sends,
}
use libfep.Sgr.{SgrAttr, params_to_attr}
use libfep.Strv.Fields.{fields, strsplit-fields}

-- A text without ESC
abbrev pub Plain : Bytes → Type 0
Plain s = All (λ c. c ≢ esc) s

memchr_esc-Plain : (s : Bytes) → Plain s → memchr_esc s ≡ none
unfolding memchr_esc
memchr_esc-Plain [] h = refl
memchr_esc-Plain (c ∷ s) h = ground (arith, memchr_esc-Plain s h.1)

csi_scan-Plain : (s : Bytes) (final : Option ℕ) → Plain s → csi_scan s final ≡ ok absent
unfolding csi_scan scan_loop
csi_scan-Plain s final h = elim (Bool-cases (ltb 0 (length s))) [
  | inl e ↦ rw (e, memchr_esc-Plain s h) refl
  | inr e ↦ rw e refl
]

Plain-take : (n : ℕ) (s : Bytes) → Plain s → Plain (take n s)
Plain-take zero s h = tt
Plain-take (suc n) [] h = tt
Plain-take (suc n) (c ∷ s) (h, hs) = (h, Plain-take n s hs)

-- A text with a sequence is not empty.
text_size :
    (a b rest : Bytes) (c : Csi)
    → (f : ℕ) × (length ((a ++ (csi_format c ++ b)) ++ rest) ≡ suc f)
      × (n : ℕ) × (length (a ++ (csi_format c ++ b)) ≡ suc n)
unfolding csi_format
text_size a b rest c =
    let text = a ++ (csi_format c ++ b) in
    let e = length-append a (csi_format c ++ b) in
    (
      length (text ++ rest) - 1,
      omega (arith, e, length-append text rest),
      length text - 1,
      omega (arith, e),
    )

module _ (d : Device) where
  byte_behind_lem : (p : Bytes) → 1 ≤ length p → (c : ℕ) × (byte_behind d p ≡ ok c)
  byte_behind_lem [] h = absurd (omega (arith, h))
  byte_behind_lem (c ∷ p) h = (c, refl)

  -- A plain window ends the loop; one that reaches past the memory is read past its end.
  attrs_loop_ends :
      (f n : ℕ) (p : Bytes) (s : Screen)
      → Plain (take n p)
      → n ≤ length p
      → attrs_loop d (suc f) n p s ≡ (ok none, s)
  unfolding attrs_loop
  attrs_loop_ends f n p s h l =
      let inside : ltb (length p) n ≡ false = ground (arith, l) in
      rw (csi_scan-Plain (take n p) (some b'm') h) (rw inside refl)

  attrs_loop_overruns :
      (f n : ℕ) (p : Bytes) (s : Screen)
      → Plain (take n p)
      → length p < n
      → attrs_loop d (suc f) n p s ≡ (fault, s)
  unfolding attrs_loop
  attrs_loop_overruns f n p s h l =
      let past : ltb (length p) n ≡ true = ground (arith, l) in
      rw (csi_scan-Plain (take n p) (some b'm') h) (rw past refl)

  attr_in_lem :
      (p : Bytes) (c : Csi) (attr : SgrAttr) (s : Screen)
      → IsWellFormed c
      → params_to_attr s.sgr_codes (fields b';' c.params) ≡ ok attr
      → 1 ≤ length p
      → attr_in d p (csi_parse (csi_format c) b'[') s ≡ (ok tt, record s { attr_pty = attr })
  attr_in_lem p c attr s w e l =
      let parsed : csi_parse (csi_format c) b'[' ≡ some (c, []) =
        ap (λ t. csi_parse t b'[') (sym (append-nil (csi_format c)))
        ∙ csi_parse-csi_format c [] w in
      let (x, behind) = byte_behind_lem p l in
      ap (λ o. attr_in d p o s) parsed ∙ rw (strsplit-fields b';' c.params) (rw e (rw behind refl))

  -- The first round finds the sequence, and goes on behind it.
  attrs_loop_finds :
      (f : ℕ) (a b rest : Bytes) (c : Csi) (attr : SgrAttr) (s : Screen)
      → Plain a
      → IsWellFormed c
      → c.final ≡ b'm'
      → params_to_attr s.sgr_codes (fields b';' c.params) ≡ ok attr
      → 1 ≤ length (b ++ rest)
      → attrs_loop d
          (suc f)
          (length (a ++ (csi_format c ++ b)))
          ((a ++ (csi_format c ++ b)) ++ rest)
          s
        ≡ attrs_loop d f
            (length (a ++ (csi_format c ++ b)))
            (b ++ rest)
            (record s { attr_pty = attr })
  unfolding attrs_loop
  attrs_loop_finds f a b rest c attr s h w m e l =
      let text = a ++ (csi_format c ++ b) in
      let n = length text in
      let found : csi_scan (take n (text ++ rest)) (some b'm') ≡ ok (complete a (csi_format c) b) =
        ap (λ t. csi_scan t (some b'm')) (take-append n text rest refl)
        ∙ csi_scan_finds a b (some b'm') c h w (rw m refl) in
      let left : drop (length (a ++ csi_format c)) (text ++ rest) ≡ b ++ rest =
        ap (drop (length (a ++ csi_format c))) (simp append_assoc refl)
        ∙ drop-append (length (a ++ csi_format c)) (a ++ csi_format c) (b ++ rest) refl in
      rw found (
        rw left (
          ap (λ r. and_then r (λ u t. attrs_loop d f n (b ++ rest) t))
            (attr_in_lem (b ++ rest) c attr s w e l)))

  -- The screen when the text is out: its attributes are those of the child process, and the place of
  -- the cursor is not known.
  abbrev pub passed_on : Screen → Screen
  passed_on s = record s { attr = s.attr_pty; cursor = record { row = negsuc 0; col = negsuc 0 } }

  abbrev pub written : Bytes → Screen → Screen
  written text s = sends (change_bytes d s s.attr_pty ++ text) (record s { attr = s.attr_pty })

  -- What is written before the loop.
  string_from_pty_writes :
      (text rest : Bytes) (n : ℕ) (s : Screen) (out : Outcome Cut × Screen)
      → Takes s
      → length text ≡ suc n
      → attrs_loop d (suc (length (text ++ rest))) (length text) (text ++ rest) (written text s)
        ≡ out
      → string_from_pty d (text ++ rest) (length text) s
        ≡ and_then out (λ cut t. and_then (keep_cut d cut (record t { attr = t.attr_pty })) (λ u v.
          redraw d v.cursor_text (record v { cursor = record { row = negsuc 0; col = negsuc 0 } })))
  unfolding string_from_pty
  string_from_pty_writes text rest n s out h e loop =
      let mem = text ++ rest in
      let f = suc (length mem) in
      let k : Cut → Act Screen (Unit {0}) = λ cut t.
        and_then (keep_cut d cut (record t { attr = t.attr_pty })) (λ u v.
          redraw d v.cursor_text
            (record v { cursor = record { row = negsuc 0; col = negsuc 0 } })) in
      let s1 = sends (change_bytes d s s.attr_pty) (record s { attr = s.attr_pty }) in
      let whole : write_tty (take (suc n) mem) s1 ≡ written text s =
        write_tty-sends (take (suc n) mem) s1 refl
        ∙ ap (λ t. sends t s1) (take-append (suc n) text rest (sym e))
        ∙ sends-sends (change_bytes d s s.attr_pty) text (record s { attr = s.attr_pty }) in
      subst (λ j. string_from_pty d mem j s ≡ and_then out k) (sym e)
        (ap
            (λ r.
              and_then r
                (λ u v. and_then (attrs_loop d f (suc n) mem (write_tty (take (suc n) mem) v)) k))
            (apply_attr-sends d s.attr_pty s h)
          ∙ ap (λ v. and_then (attrs_loop d f (suc n) mem v) k) whole
          ∙ ap (λ j. and_then (attrs_loop d f j mem (written text s)) k) (sym e)
          ∙ ap (λ r. and_then r k) loop)

  -- With one SGR sequence in a text of the child process, the text is written as it is behind what
  -- takes the terminal to the attributes of the child process, and the terminal's and the child
  -- process's attributes are from then on those of the sequence, if the terminal takes every byte,
  -- no text is drawn at the cursor, and what stands behind the text in memory has no ESC and is at
  -- least as long as the text up to the end of the sequence.
  pub string_from_pty_tracks :
      (a b rest : Bytes) (c : Csi) (attr : SgrAttr) (s : Screen)
      → Plain a
      → Plain (b ++ rest)
      → IsWellFormed c
      → c.final ≡ b'm'
      → params_to_attr s.sgr_codes (fields b';' c.params) ≡ ok attr
      → Takes s
      → s.cursor_text ≡ none
      → length (a ++ csi_format c) ≤ length rest
      → string_from_pty d ((a ++ (csi_format c ++ b)) ++ rest) (length (a ++ (csi_format c ++ b))) s
        ≡ (ok tt, passed_on (record (written (a ++ (csi_format c ++ b)) s) { attr_pty = attr }))
  string_from_pty_tracks a b rest c attr s ha hb w m e h quiet l =
      let text = a ++ (csi_format c ++ b) in
      let (f, fuel, n, size) = text_size a b rest c in
      let t = record (written text s) { attr_pty = attr } in
      let room : length text ≤ length (b ++ rest) = omega (
        arith,
        l,
        length-append a (csi_format c),
        length-append a (csi_format c ++ b),
        length-append (csi_format c) b,
        length-append b rest,
      ) in
      let second : attrs_loop d (length (text ++ rest)) (length text) (b ++ rest) t ≡ (ok none, t) =
        ap (λ j. attrs_loop d j (length text) (b ++ rest) t) fuel
        ∙ attrs_loop_ends f (length text) (b ++ rest) t (Plain-take (length text) (b ++ rest) hb)
            room in
      string_from_pty_writes text rest n s (ok none, t) h size
        (attrs_loop_finds (length (text ++ rest)) a b rest c attr (written text s) ha w m e
            (omega (arith, size, room))
          ∙ second)
      ∙ ap (λ o. redraw d o (passed_on t)) quiet

  -- Where what stands behind the text in memory is shorter than the text up to the end of its SGR
  -- sequence, the second scan reads past the end of the memory. Conditions: there is no other ESC in
  -- the text or behind it, the sequence is well formed and its parameters can be read, something
  -- stands behind the sequence, and the terminal takes every byte.
  pub string_from_pty_overruns :
      (a b rest : Bytes) (c : Csi) (attr : SgrAttr) (s : Screen)
      → Plain a
      → Plain (b ++ rest)
      → IsWellFormed c
      → c.final ≡ b'm'
      → params_to_attr s.sgr_codes (fields b';' c.params) ≡ ok attr
      → Takes s
      → 1 ≤ length (b ++ rest)
      → length rest < length (a ++ csi_format c)
      → (string_from_pty d
          ((a ++ (csi_format c ++ b)) ++ rest)
          (length (a ++ (csi_format c ++ b)))
          s).0
        ≡ fault
  string_from_pty_overruns a b rest c attr s ha hb w m e h l k =
      let text = a ++ (csi_format c ++ b) in
      let (f, fuel, n, size) = text_size a b rest c in
      let t = record (written text s) { attr_pty = attr } in
      let past : length (b ++ rest) < length text = omega (
        arith,
        k,
        length-append a (csi_format c),
        length-append a (csi_format c ++ b),
        length-append (csi_format c) b,
        length-append b rest,
      ) in
      let second : attrs_loop d (length (text ++ rest)) (length text) (b ++ rest) t ≡ (fault, t) =
        ap (λ j. attrs_loop d j (length text) (b ++ rest) t) fuel
        ∙ attrs_loop_overruns f (length text) (b ++ rest) t
            (Plain-take (length text) (b ++ rest) hb) past in
      ap (λ (r : Outcome (Unit {0}) × Screen). r.0)
        (string_from_pty_writes text rest n s (fault, t) h size
          (attrs_loop_finds (length (text ++ rest)) a b rest c attr (written text s) ha w m e l
            ∙ second))
