-- ===== src/Draw/Texts.antt =====
-- What a text drawn with an attribute puts on the terminal.
use libfep.Base.{
  ℕ, zero, suc, take_all, drop_all, ◌^◌, ◌≤◌, ◌<◌, min, ◌≡◌, refl, sym, ap, ap₂, ◌∙◌, Bool, true,
  false, not, ◌&&◌, Option, some, List, Bytes, [], ◌∷◌, ◌++◌, length, take, drop, ◌==◌, ltb,
  if◌then◌else◌, Bool-cases, inl, inr, arith, append_assoc, Outcome, ok,
}
use libfep.Base.Act.{Act, and_then}
use libfep.Base.Int.{ℤ}
use libfep.Draw.{
  type_none, range_of, count_or_max, write_piece, when_true, local_of, marked, draw_parts,
  draw_truncated, clear_ptybuf, string_with_attribute,
}
use libfep.Message.{Attribute}
use libfep.Screen.{Device, Screen, set_attributes}
use libfep.Screen.Sending.{
  sends, Takes, write_tty-sends, sends-sends, sends-nil, set_bytes, set_attributes-sends,
  change_bytes, apply_attr-sends,
}
use libfep.Sgr.{attr_from_attribute}
use libfep.Wide.{substring, charcount, strtrunc}
use libfep.Wide.Pieces.{all_bytes, Faithful, substring_lem}

goes_on :
    {r : Outcome (Unit {0}) × Screen} {t : Screen} (f : Unit {0} → Act Screen (Unit {0}))
    → r ≡ (ok tt, t)
    → and_then r f ≡ f tt t
goes_on f e = ap (λ r. and_then r f) e

sends_after :
    (a b : Bytes) (s : Screen) {r : Outcome (Unit {0}) × Screen}
    → r ≡ (ok tt, sends b (sends a s))
    → r ≡ (ok tt, sends (a ++ b) s)
sends_after a b s e = e ∙ ap (λ t. (ok tt, t)) (sends-sends a b s)

write_piece-sends :
    (p : Option Bytes) (x : Bytes) (s : Screen)
    → Takes s
    → p ≡ some x
    → write_piece p s ≡ (ok tt, sends x s)
write_piece-sends p x s h e = rw e (ap (λ t. (ok tt, t)) (write_tty-sends x s h))

-- A part that is left out has no bytes.
part-sends :
    (test : Bool) (m : Act Screen (Unit {0})) (x : Bytes) (s : Screen)
    → Takes s
    → m s ≡ (ok tt, sends x s)
    → (test ≡ false → x ≡ [])
    → when_true test m s ≡ (ok tt, sends x s)
part-sends true m x s h e k = e
part-sends false m x s h e k =
    ap (λ t. (ok tt, t)) (sends-nil s h ∙ ap (λ t. sends t s) (sym (k refl)))

frame-sends :
    (test : Bool) (m : Act Screen (Unit {0})) (x : Bytes) (s : Screen)
    → Takes s
    → (test ≡ true → m s ≡ (ok tt, sends x s))
    → when_true test m s ≡ (ok tt, sends (if test then x else []) s)
frame-sends true m x s h e = e refl
frame-sends false m x s h e = ap (λ t. (ok tt, t)) (sends-nil s h)

module _ (d : Device) where
  no_first :
      (wcs : List ℕ) (i : ℕ) → (ltb 0 i && true) ≡ false → all_bytes d.locale (take i wcs) ≡ []
  unfolding all_bytes
  no_first wcs zero k = refl
  no_first wcs (suc i) k = absurd (ground (arith, k))

  no_last : (wcs : List ℕ) (j : ℕ) → length wcs ≤ j → all_bytes d.locale (drop j wcs) ≡ []
  unfolding all_bytes
  no_last wcs j k = rw (drop_all j wcs k) refl

  -- A part between the sequences that set its attribute and the terminal's.
  abbrev pub framed : Screen → Attribute → Bytes → Bytes
  framed s attr b = set_bytes d s (attr_from_attribute attr) ++ (b ++ set_bytes d s s.attr_tty)

  marked-sends :
      (trunc b : Bytes) (i j : ℕ) (attr : Attribute) (s : Screen)
      → Takes s
      → (attr.type == type_none) ≡ false
      → s.attr ≡ s.attr_tty
      → substring d.locale trunc i j ≡ some b
      → marked d trunc i j attr s ≡ (ok tt, sends (framed s attr b) s)
  unfolding set_bytes
  marked-sends trunc b i j attr s h t same e =
      let on = set_bytes d s (attr_from_attribute attr) in
      let off = set_bytes d s s.attr_tty in
      let s1 = sends on (record s { attr = attr_from_attribute attr }) in
      let s2 = sends b s1 in
      rw t (
        goes_on
          (λ u v.
            and_then (write_piece (substring d.locale trunc i j) v)
              (λ u' w. set_attributes d w.attr_tty w))
          (set_attributes-sends d (attr_from_attribute attr) s h)
        ∙ goes_on (λ u' w. set_attributes d w.attr_tty w)
            (write_piece-sends (substring d.locale trunc i j) b s1 refl e)
        ∙ set_attributes-sends d s.attr_tty s2 refl
        ∙ ap₂ (λ u a. (ok tt, record s { tty_out = record { sent = u; answers = [] }; attr = a }))
            (append_assoc (s.tty_out.sent ++ on) b off ∙ append_assoc s.tty_out.sent on (b ++ off))
            (sym same))

  -- The three parts of a text of `wcs`: before `i`, from `i` to `j`, and from `j` on.
  unfoldable pub parts : Screen → List ℕ → ℕ → ℕ → Attribute → Bytes
  parts s wcs i j attr =
      all_bytes d.locale (take i wcs)
      ++ ((if ltb i j then framed s attr (all_bytes d.locale (drop i (take j wcs))) else [])
          ++ all_bytes d.locale (drop j wcs))

  draw_parts-sends :
      (trunc : Bytes) (wcs : List ℕ) (i j : ℕ) (attr : Attribute) (s : Screen)
      → Takes s
      → (attr.type == type_none) ≡ false
      → s.attr ≡ s.attr_tty
      → Faithful d.locale
      → d.locale.to_wide trunc ≡ some wcs
      → i ≤ j
      → j ≤ length wcs
      → draw_parts d trunc (length wcs) (i, j) attr s ≡ (ok tt, sends (parts s wcs i j attr) s)
  unfolding draw_parts parts all_bytes set_bytes
  draw_parts-sends trunc wcs i j attr s h t same f e le top =
      let a = all_bytes d.locale (take i wcs) in
      let b = all_bytes d.locale (drop i (take j wcs)) in
      let c = all_bytes d.locale (drop j wcs) in
      let mid : Bytes = if ltb i j then framed s attr b else [] in
      let s1 = sends a s in
      let s2 = sends mid s1 in
      let middle = marked d trunc i j attr in
      let last = write_piece (substring d.locale trunc j (length wcs)) in
      let first : when_true (ltb 0 i && not (attr.type == type_none))
            (write_piece (substring d.locale trunc 0 i)) s
          ≡ (ok tt, s1) =
        part-sends (ltb 0 i && not (attr.type == type_none))
          (write_piece (substring d.locale trunc 0 i)) a s h
          (write_piece-sends (substring d.locale trunc 0 i) a s h
            (substring_lem d.locale trunc wcs 0 i f e (omega arith) (omega (arith, le, top))))
          (λ k. no_first wcs i (rw t at k)) in
      let second : when_true (ltb i j) middle s1 ≡ (ok tt, s2) =
        frame-sends (ltb i j) middle (framed s attr b) s1 refl (λ k.
          marked-sends trunc b i j attr s1 refl t same
            (substring_lem d.locale trunc wcs i j f e le top)) in
      let third : when_true (ltb j (length wcs)) last s2 ≡ (ok tt, sends c s2) =
        part-sends (ltb j (length wcs)) last c s2 refl
          (write_piece-sends (substring d.locale trunc j (length wcs)) c s2 refl (
            substring_lem d.locale trunc wcs j (length wcs) f e top (omega arith)
            ∙ ap (λ l. some (all_bytes d.locale (drop j l)))
                (take_all (length wcs) wcs (omega arith))))
          (λ k. no_last wcs j (ground (arith, k))) in
      goes_on
        (λ u v.
          and_then (when_true (ltb i j) middle v) (λ u' w. when_true (ltb j (length wcs)) last w))
        first
      ∙ goes_on (λ u' w. when_true (ltb j (length wcs)) last w) second
      ∙ third
      ∙ ap (λ v. (ok tt, record s { tty_out = record { sent = v; answers = [] } }))
          (append_assoc (s.tty_out.sent ++ a) mid c ∙ append_assoc s.tty_out.sent a (mid ++ c))

  count_lem :
      (trunc : Bytes) (wcs : List ℕ)
      → d.locale.to_wide trunc ≡ some wcs
      → length wcs < 2 ^ 32
      → count_or_max (charcount d.locale trunc) ≡ length wcs
  unfolding charcount
  count_lem trunc wcs e small =
      let counted : charcount d.locale trunc ≡ some (length wcs) = rw (e, charcount) refl in
      ap count_or_max counted ∙ omega arith

  local_lem : (str local : Bytes) → d.to_locale str ≡ some local → local_of d str ≡ ok local
  local_lem str local e = rw (e, local_of) refl

  range_lem :
      (n : ℕ) (attr : Attribute)
      → ((range_of n attr).0 ≤ (range_of n attr).1) × ((range_of n attr).1 ≤ n)
  range_lem n attr =
      let a = min n attr.start_index in
      let b = min n attr.end_index in
      elim (Bool-cases (ltb b a)) [
        | inl e ↦ rw e (ground (arith, e), omega arith)
        | inr e ↦ rw e (ground (arith, e), omega arith)
      ]

  clear_ptybuf-Takes : (s : Screen) → Takes s → Takes (clear_ptybuf d s)
  clear_ptybuf-Takes s h = elim (Bool-cases (ltb 0 s.ptybuf.len)) [
    | inl e ↦ simp e h
    | inr e ↦ simp e h
  ]

  -- A text with an attribute puts out, on a terminal that takes every byte: what takes it to its own
  -- attributes, the characters before the marked range, the range between the sequences for the
  -- attribute and for the terminal's own if it is not empty, and the characters behind it, where the
  -- range is put in order and cut to the text as truncated to the width. The terminal is left with
  -- its own attributes. The text is not empty, has an attribute other than NONE, and can be
  -- converted, in an encoding without states.
  pub string_with_attribute_lem :
      (c : ℕ) (str local trunc : Bytes) (wcs : List ℕ) (width : ℤ) (attr : Attribute) (s : Screen)
      → Takes s
      → (attr.type == type_none) ≡ false
      → Faithful d.locale
      → d.to_locale (c ∷ str) ≡ some local
      → strtrunc d.locale local width ≡ some trunc
      → d.locale.to_wide trunc ≡ some wcs
      → length wcs < 2 ^ 32
      → string_with_attribute d (c ∷ str) width attr s ≡ (
          let s0 = clear_ptybuf d s in
          let (i, j) = range_of (length wcs) attr in
          (
            ok tt,
            sends
                (change_bytes d s0 s0.attr_tty ++ parts s0 wcs i j attr)
                (record s0 { attr = s0.attr_tty }),
          ))
  unfolding string_with_attribute set_bytes parts
  string_with_attribute_lem c str local trunc wcs width attr s h t f e1 e2 e3 small =
      let s0 = clear_ptybuf d s in
      let n = length wcs in
      let (i, j) = range_of n attr in
      let change = change_bytes d s0 s0.attr_tty in
      let s1 = sends change (record s0 { attr = s0.attr_tty }) in
      let shown : draw_truncated d (some trunc) attr s1
          ≡ (ok tt, sends (parts s1 wcs i j attr) s1) =
        rw (count_lem trunc wcs e3 small) (
          draw_parts-sends trunc wcs i j attr s1 refl t refl f e3 (range_lem n attr).0
            (range_lem n attr).1) in
      goes_on
        (λ u v.
          and_then (local_of d (c ∷ str), v)
            (λ local'. draw_truncated d (strtrunc d.locale local' width) attr))
        (apply_attr-sends d s0.attr_tty s0 (clear_ptybuf-Takes s h))
      ∙ ap
          (λ o. and_then (o, s1) (λ local'. draw_truncated d (strtrunc d.locale local' width) attr))
          (local_lem (c ∷ str) local e1)
      ∙ ap (λ o. draw_truncated d o attr s1) e2
      ∙ shown
      ∙ ap (λ v. (ok tt, v))
          (sends-sends change (parts s0 wcs i j attr) (record s0 { attr = s0.attr_tty }))
