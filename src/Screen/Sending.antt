-- ===== src/Screen/Sending.antt =====
-- What is sent to a terminal that takes every byte.
use libfep.Base.{
  ℕ, ◌≡◌, refl, sym, ap, ap₂, ◌∙◌, true, ◌&&◌, Bytes, [], ◌∷◌, ◌++◌, ◌==◌, ==_iff, &&-true_left,
  &&-true_right, ok, append-nil, append_assoc, if◌then◌else◌, Bool-cases, inl, inr,
}
use libfep.Csi.{csi_format}
use libfep.Screen.{
  Device, Screen, write_tty, put_each, putp, is_cleared, same_attr, sgr_csi, set_attributes,
  apply_attr,
}
use libfep.Sgr.{SgrAttr, params_from_attr}
use libfep.Strv.RoundTrip.{join, strjoinv-join}
use libfep.Wire.{write_fd}

-- The screen when these bytes have been sent.
abbrev pub sends : Bytes → Screen → Screen
sends str s = record s { tty_out = record { sent = s.tty_out.sent ++ str; answers = [] } }

-- The terminal takes what it is given.
abbrev pub Takes : Screen → Type 0
Takes s = s.tty_out.answers ≡ []

pub write_tty-sends : (str : Bytes) (s : Screen) → Takes s → write_tty str s ≡ sends str s
unfolding write_fd
write_tty-sends str s h = rw h refl

pub sends-sends : (a b : Bytes) (s : Screen) → sends b (sends a s) ≡ sends (a ++ b) s
sends-sends a b s = rw append_assoc refl

pub sends-nil : (s : Screen) → Takes s → s ≡ sends [] s
sends-nil s h =
    ap₂ (λ u v. record s { tty_out = record { sent = u; answers = v } })
      (sym (append-nil s.tty_out.sent)) h

put_each-sends : (str : Bytes) (s : Screen) → Takes s → put_each str s ≡ sends str s
unfolding put_each
put_each-sends [] s h = sends-nil s h
put_each-sends (c ∷ str) s h =
    ap (put_each str) (write_tty-sends (c ∷ []) s h)
    ∙ put_each-sends str (sends (c ∷ []) s) refl
    ∙ sends-sends (c ∷ []) str s

module _ (d : Device) where
  pub putp-sends : (str : Bytes) (s : Screen) → Takes s → putp d str s ≡ sends (d.tputs str) s
  unfolding putp
  putp-sends str s h = put_each-sends (d.tputs str) s h

  -- The sequence that sets the attributes.
  unfoldable pub set_bytes : Screen → SgrAttr → Bytes
  set_bytes s attr =
      d.tputs (csi_format (sgr_csi (join (b';' ∷ []) (params_from_attr s.sgr_codes attr))))

  pub set_attributes-sends :
      (attr : SgrAttr) (s : Screen)
      → Takes s
      → set_attributes d attr s ≡ (ok tt, sends (set_bytes s attr) (record s { attr = attr }))
  unfolding set_attributes set_bytes
  set_attributes-sends attr s h =
      rw (strjoinv-join (params_from_attr s.sgr_codes attr) (b';' ∷ []))
        (ap (λ t. (ok tt, t)) (putp-sends _ (record s { attr = attr }) h))

  -- What takes the terminal from its attributes to others: all are reset where one is cleared, and
  -- nothing is sent where they are the same.
  abbrev pub change_bytes : Screen → SgrAttr → Bytes
  change_bytes s attr =
      if is_cleared s.attr attr
      then d.tputs d.exit_attribute_mode ++ set_bytes s attr
      else if same_attr s.attr attr
      then []
      else set_bytes s attr

  same_attr-equal : (a b : SgrAttr) → same_attr a b ≡ true → a ≡ b
  same_attr-equal a b h =
      let first = &&-true_left (a.attr == b.attr && a.foreground == b.foreground) _ h in
      ap₂ (λ u (v : ℕ × ℕ). record { attr = u; foreground = v.0; background = v.1 })
        ((==_iff a.attr b.attr).0 (&&-true_left (a.attr == b.attr) _ first))
        (ap₂ (λ v w. (v, w))
          ((==_iff a.foreground b.foreground).0
            (&&-true_right (a.attr == b.attr) (a.foreground == b.foreground) first))
          ((==_iff a.background b.background).0 (
            &&-true_right (a.attr == b.attr && a.foreground == b.foreground)
              (a.background == b.background) h)))

  pub apply_attr-sends :
      (attr : SgrAttr) (s : Screen)
      → Takes s
      → apply_attr d attr s ≡ (ok tt, sends (change_bytes s attr) (record s { attr = attr }))
  unfolding apply_attr set_bytes
  apply_attr-sends attr s h = elim (Bool-cases (is_cleared s.attr attr)) [
    | inl cleared ↦ rw cleared (
        ap (set_attributes d attr) (putp-sends d.exit_attribute_mode s h)
        ∙ set_attributes-sends attr (sends (d.tputs d.exit_attribute_mode) s) refl
        ∙ ap (λ t. (ok tt, t)) (sends-sends _ _ (record s { attr = attr })))
    | inr kept ↦ elim (Bool-cases (same_attr s.attr attr)) [
      | inl same ↦
          rw (kept, same)
            (ap (λ t. (ok tt, t))
              (ap (λ a. record s { attr = a }) (same_attr-equal s.attr attr same)
                ∙ sends-nil (record s { attr = attr }) h))
      | inr other ↦ rw (kept, other) (set_attributes-sends attr s h)
    ]
  ]
