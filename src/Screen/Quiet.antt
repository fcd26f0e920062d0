-- ===== src/Screen/Quiet.antt =====
-- The terminal's input is left alone by what is sent to it.
use libfep.Base.{
  ◌≡◌, false, Bytes, [], ◌∷◌, Outcome, ok, failed, fault, died, looping, Bool-cases, inl, inr,
}
use libfep.Base.Act.{Act, and_then}
use libfep.Base.Ends.{Ends, Ends-and_then}
use libfep.Base.Int.{ℤ}
use libfep.Csi.{csi_format}
use libfep.Input.{Tty}
use libfep.Screen
use libfep.Screen.{
  Point, Device, Screen, is_cleared, same_attr, sgr_csi, write_tty, put_each, putp, set_attributes,
  change_scroll_region, apply_attr, get_cursor_position, save_cursor, restore_cursor,
}
use libfep.Sgr.{SgrAttr, params_from_attr}
use libfep.Strv.{strjoinv}

module _ (q : Tty) where
  -- The terminal is not asked where the cursor is, and its input is as it was.
  pub record LeavesInput (s : Screen) : Type 0 where
    pub no_cpr : s.has_cpr ≡ false
    pub untouched : s.tty ≡ q

  abbrev pub Quiet : Screen → Screen → Type 0
  Quiet s t = LeavesInput s → LeavesInput t

  -- What a computation ends with, returned or failed.
  abbrev pub Quietly : {A : Type 0} → Outcome A × Screen → Type 0
  Quietly r = Ends (λ _. LeavesInput) LeavesInput r

module _ {q : Tty} where
  pub and_then-Quietly :
      {A B : Type 0} (r : Outcome A × Screen) (f : A → Act Screen B)
      → Quietly q r
      → ((a : A) (t : Screen) → LeavesInput q t → Quietly q (f a t))
      → Quietly q (and_then r f)
  and_then-Quietly r f h k =
      Ends-and_then (λ _. LeavesInput q) (λ _. LeavesInput q) (LeavesInput q) r f h k

  pub lift-Quietly : {A : Type 0} (o : Outcome A) (s : Screen) → LeavesInput q s → Quietly q (o, s)
  lift-Quietly (ok a) s i = i
  lift-Quietly failed s i = i
  lift-Quietly fault s i = tt
  lift-Quietly died s i = tt
  lift-Quietly looping s i = tt

  pub write_tty-Quiet : (str : Bytes) (s : Screen) → Quiet q s (write_tty str s)
  write_tty-Quiet str s i = record { no_cpr = i.no_cpr; untouched = i.untouched }

  pub put_each-Quiet : (str : Bytes) (s : Screen) → Quiet q s (put_each str s)
  unfolding put_each
  put_each-Quiet [] s i = i
  put_each-Quiet (c ∷ str) s i =
      put_each-Quiet str (write_tty (c ∷ []) s) (write_tty-Quiet (c ∷ []) s i)

module _ (d : Device) {q : Tty} where
  pub putp-Quiet : (str : Bytes) (s : Screen) → Quiet q s (putp d str s)
  unfolding putp
  putp-Quiet str s i = put_each-Quiet (d.tputs str) s i

  pub set_attributes-Quietly :
      (attr : SgrAttr) (s : Screen) → LeavesInput q s → Quietly q (set_attributes d attr s)
  unfolding set_attributes
  set_attributes-Quietly attr s i =
      let params = strjoinv (params_from_attr s.sgr_codes attr) (b';' ∷ []) in
      and_then-Quietly (params, s) _ (lift-Quietly params s i)
        (λ p t j.
          putp-Quiet (csi_format (sgr_csi p)) (record t { attr = attr })
            (record { no_cpr = j.no_cpr; untouched = j.untouched }))

  pub apply_attr-Quietly :
      (attr : SgrAttr) (s : Screen) → LeavesInput q s → Quietly q (apply_attr d attr s)
  unfolding apply_attr
  apply_attr-Quietly attr s i = elim (Bool-cases (is_cleared s.attr attr)) [
    | inl e ↦ rw e (
        set_attributes-Quietly attr (putp d d.exit_attribute_mode s)
          (putp-Quiet d.exit_attribute_mode s i))
    | inr e ↦ elim (Bool-cases (same_attr s.attr attr)) [
      | inl h ↦ rw (e, h) i
      | inr h ↦ rw (e, h) (set_attributes-Quietly attr s i)
    ]
  ]

  pub cursor_address-Quiet :
      (row col : ℤ) (s : Screen) → Quiet q s (Screen.cursor_address d row col s)
  unfolding Screen.cursor_address
  cursor_address-Quiet row col s i =
      let j = putp-Quiet (d.cursor_address row col) s i in
      record { no_cpr = j.no_cpr; untouched = j.untouched }

  pub change_scroll_region-Quiet :
      (start end : ℤ) (s : Screen) → Quiet q s (change_scroll_region d start end s)
  unfolding change_scroll_region
  change_scroll_region-Quiet start end s i =
      let j = putp-Quiet (d.change_scroll_region start end) s i in
      record { no_cpr = j.no_cpr; untouched = j.untouched }

  pub save_cursor-Quietly : (s : Screen) → LeavesInput q s → Quietly q (save_cursor d s)
  unfolding save_cursor
  save_cursor-Quietly s i = simp i.no_cpr (
      let j = putp-Quiet d.save_cursor s i in record { no_cpr = j.no_cpr; untouched = j.untouched })

  pub restore_cursor-Quiet : (s : Screen) → Quiet q s (restore_cursor d s)
  unfolding restore_cursor
  restore_cursor-Quiet s i = simp i.no_cpr (
      let j = putp-Quiet d.restore_cursor s i in
      record { no_cpr = j.no_cpr; untouched = j.untouched })

  pub get_cursor_position-Quietly :
      (point : Point) (s : Screen) → LeavesInput q s → Quietly q (get_cursor_position d point s)
  unfolding get_cursor_position
  get_cursor_position-Quietly point s i = simp i.no_cpr i
