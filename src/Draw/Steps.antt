-- ===== src/Draw/Steps.antt =====
-- The text of the child process and the start of the screen take nothing from the keyboard.
use libfep.Base.{
  ℕ, zero, suc, ◌≡◌, refl, ◌∙◌, inl, inr, ltb, Option, none, some, Bytes, [], ◌∷◌, length, drop,
  take, ◌++◌, false, Bool-cases,
}
use libfep.Base.Act.{Act}
use libfep.Base.Int.{pos, negsuc, ◌+ℤ◌}
use libfep.Csi.{Csi, Scan, complete, partial, absent, csi_parse, csi_scan}
use libfep.Draw.{init_screen}
use libfep.Draw.Pty.{
  Cut, byte_behind, attr_in, scanned, attrs_loop, keep_cut, redraw, string_from_pty,
}
use libfep.Draw.Quiet.{status_text-Quietly, cursor_text-Quietly}
use libfep.FepString.{append}
use libfep.Input.{Tty}
use libfep.Screen.{
  Point, Device, Screen, write_tty, put_each, putp, change_scroll_region, apply_attr,
}
use libfep.Screen.Quiet.{
  LeavesInput, Quietly, and_then-Quietly, lift-Quietly, write_tty-Quiet, putp-Quiet,
  apply_attr-Quietly,
}
use libfep.Sgr.{params_to_attr}
use libfep.Strv.{strsplit}

module _ (d : Device) {q : Tty} where
  attr_in-Quietly :
      (p : Bytes) (parsed : Option (Csi × Bytes)) (s : Screen)
      → LeavesInput q s
      → Quietly q (attr_in d p parsed s)
  attr_in-Quietly p none s i = i
  attr_in-Quietly p (some (csi, rest)) s i =
      let params = strsplit csi.params (b';' ∷ []) in
      and_then-Quietly (params, s) _ (lift-Quietly params s i)
        (λ ps t j.
          and_then-Quietly (params_to_attr t.sgr_codes ps, t) _
            (lift-Quietly (params_to_attr t.sgr_codes ps) t j)
            (λ attr v k.
              and_then-Quietly (byte_behind d p, v) _ (lift-Quietly (byte_behind d p) v k)
                (λ c w l. record { no_cpr = l.no_cpr; untouched = l.untouched })))

  scanned-Quietly :
      (again : Bytes → Act Screen Cut) (n : ℕ) (p : Bytes) (r : Scan) (s : Screen)
      → ((p' : Bytes) (s' : Screen) → LeavesInput q s' → Quietly q (again p' s'))
      → LeavesInput q s
      → Quietly q (scanned d again n p r s)
  scanned-Quietly again n p absent s h i = elim (Bool-cases (ltb (length p) n)) [
    | inl e ↦ simp e tt
    | inr e ↦ simp e i
  ]
  scanned-Quietly again n p (partial before csi) s h i = elim (Bool-cases (ltb (length p) n)) [
    | inl e ↦ simp e tt
    | inr e ↦ simp e i
  ]
  scanned-Quietly again n p (complete before csi rest) s h i =
      let rest = drop (length (before ++ csi)) p in
      and_then-Quietly (attr_in d rest (csi_parse csi b'[') s) _
        (attr_in-Quietly rest (csi_parse csi b'[') s i) (λ u t j. h rest t j)

  attrs_loop-Quietly :
      (f n : ℕ) (p : Bytes) (s : Screen) → LeavesInput q s → Quietly q (attrs_loop d f n p s)
  unfolding attrs_loop
  attrs_loop-Quietly zero n p s i = tt
  attrs_loop-Quietly (suc f) n p s i =
      let scan = csi_scan (take n p) (some b'm') in
      and_then-Quietly (scan, s) _ (lift-Quietly scan s i)
        (λ r t j.
          scanned-Quietly (λ p' t'. attrs_loop d f n p' t') n p r t (attrs_loop-Quietly f n) j)

  keep_cut-Quietly : (cut : Cut) (s : Screen) → LeavesInput q s → Quietly q (keep_cut d cut s)
  keep_cut-Quietly none s i = i
  keep_cut-Quietly (some csi) s i =
      let ptybuf = append d.memory s.ptybuf csi in
      and_then-Quietly (ptybuf, s) _ (lift-Quietly ptybuf s i)
        (λ b t j. record { no_cpr = j.no_cpr; untouched = j.untouched })

  redraw-Quietly :
      (text : Option Bytes) (s : Screen) → LeavesInput q s → Quietly q (redraw d text s)
  redraw-Quietly none s i = i
  redraw-Quietly (some text) s i =
      cursor_text-Quietly d text s.cursor_text_attr (record s { cursor_text = none })
        (record { no_cpr = i.no_cpr; untouched = i.untouched })

  pub string_from_pty-Quietly :
      (mem : Bytes) (n : ℕ) (s : Screen) → LeavesInput q s → Quietly q (string_from_pty d mem n s)
  unfolding string_from_pty
  string_from_pty-Quietly mem zero s i = i
  string_from_pty-Quietly mem (suc n) s i =
      and_then-Quietly (apply_attr d s.attr_pty s) _ (apply_attr-Quietly d s.attr_pty s i) (λ u t j.
        let v = write_tty (take (suc n) mem) t in
        let f = suc (length mem) in
        and_then-Quietly (attrs_loop d f (suc n) mem v) _
          (attrs_loop-Quietly f (suc n) mem v (write_tty-Quiet (take (suc n) mem) t j))
          (λ cut w k.
            let x = record w { attr = w.attr_pty } in
            and_then-Quietly (keep_cut d cut x) _
              (keep_cut-Quietly cut x (record { no_cpr = k.no_cpr; untouched = k.untouched }))
              (λ u' y l.
                redraw-Quietly y.cursor_text
                  (record y { cursor = record { row = negsuc 0; col = negsuc 0 } })
                  (record { no_cpr = l.no_cpr; untouched = l.untouched }))))

put_each-tty : (str : Bytes) (s : Screen) → (put_each str s).tty ≡ s.tty
unfolding put_each
put_each-tty [] s = refl
put_each-tty (c ∷ str) s = put_each-tty str (write_tty (c ∷ []) s)

putp-tty : (d : Device) (str : Bytes) (s : Screen) → (putp d str s).tty ≡ s.tty
unfolding putp
putp-tty d str s = put_each-tty (d.tputs str) s

module _ (d : Device) where
  pub init_screen-Quietly : (s : Screen) → Quietly s.tty (init_screen d s)
  unfolding init_screen change_scroll_region
  init_screen-Quietly s =
      let s1 = change_scroll_region d (pos 0) (pos s.ws_row +ℤ negsuc 0) s in
      let s2 = putp d d.cursor_invisible (putp d d.clear_screen s1) in
      let cursor : Point = record { row = negsuc 0; col = negsuc 0 } in
      let s3 = record s2 { cursor = cursor; has_cpr = false } in
      let e : s2.tty ≡ s.tty =
        putp-tty d d.cursor_invisible (putp d d.clear_screen s1)
        ∙ putp-tty d d.clear_screen s1
        ∙ putp-tty d (d.change_scroll_region (pos 0) (pos s.ws_row +ℤ negsuc 0)) s in
      let s4 = putp d d.cursor_normal s3 in
      status_text-Quietly d [] s4.status_text_attr s4
        (putp-Quiet d d.cursor_normal s3 (record { no_cpr = refl; untouched = e }))
