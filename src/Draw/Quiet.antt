-- ===== src/Draw/Quiet.antt =====
-- Drawing takes nothing from the keyboard.
use libfep.Base.{
  ℕ, inl, inr, Bool, ltb, not, ◌&&◌, ◌==◌, Option, none, some, Bytes, [], ◌∷◌, true, false, ok,
  Bool-cases,
}
use libfep.Base.Act.{Act, and_then}
use libfep.Base.Int.{ℤ, pos, negsuc, ◌+ℤ◌}
use libfep.Draw.{
  minℤ, room_of, spaces, type_none, count_or_max, range_of, string_with_attribute, draw_parts,
  draw_truncated, write_piece, when_true, marked, local_of, erase, show, status_text, cursor_text,
  set_screen_size, width_of, clear_ptybuf, address_if_cpr, moved_to,
}
use libfep.Input.{Tty}
use libfep.Message.{Attribute}
use libfep.Screen.{
  Point, Device, Screen, change, write_tty, putp, set_attributes, change_scroll_region, apply_attr,
  goto_status_text, get_cursor_position, save_cursor,
}
use libfep.Screen.Quiet.{
  LeavesInput, Quiet, Quietly, and_then-Quietly, lift-Quietly, write_tty-Quiet, putp-Quiet,
  set_attributes-Quietly, apply_attr-Quietly, cursor_address-Quiet, change_scroll_region-Quiet,
  save_cursor-Quietly, restore_cursor-Quiet, get_cursor_position-Quietly,
}
use libfep.Sgr.{attr_from_attribute}
use libfep.Wide.{substring, charcount, strtrunc, strwidth}

module _ (d : Device) {q : Tty} where
  when_true-Quietly :
      (test : Bool) (m : Act Screen (Unit {0})) (s : Screen)
      → LeavesInput q s
      → Quietly q (m s)
      → Quietly q (when_true test m s)
  when_true-Quietly true m s i h = h
  when_true-Quietly false m s i h = i

  write_piece-Quietly :
      (p : Option Bytes) (s : Screen) → LeavesInput q s → Quietly q (write_piece p s)
  write_piece-Quietly none s i = i
  write_piece-Quietly (some p) s i = write_tty-Quiet p s i

  marked-Quietly :
      (trunc : Bytes) (start end : ℕ) (attr : Attribute) (s : Screen)
      → LeavesInput q s
      → Quietly q (marked d trunc start end attr s)
  marked-Quietly trunc start end attr s i =
      let m = set_attributes d (attr_from_attribute attr) in
      let test = not (attr.type == type_none) in
      let p = substring d.locale trunc start end in
      and_then-Quietly (when_true test m s) _
        (when_true-Quietly test m s i (set_attributes-Quietly d _ s i))
        (λ u t j. and_then-Quietly (write_piece p t) _ (write_piece-Quietly p t j) (λ u' t' k.
          when_true-Quietly test (λ v. set_attributes d v.attr_tty v) t' k
            (set_attributes-Quietly d t'.attr_tty t' k)))

  draw_parts-Quietly :
      (trunc : Bytes) (n start end : ℕ) (attr : Attribute) (s : Screen)
      → LeavesInput q s
      → Quietly q (draw_parts d trunc n (start, end) attr s)
  unfolding draw_parts
  draw_parts-Quietly trunc n start end attr s i =
      let first = substring d.locale trunc 0 start in
      let last = substring d.locale trunc end n in
      let test = ltb 0 start && not (attr.type == type_none) in
      let m = marked d trunc start end attr in
      and_then-Quietly (when_true test (write_piece first) s) _
        (when_true-Quietly test (write_piece first) s i (write_piece-Quietly first s i))
        (λ u t j.
          and_then-Quietly (when_true (ltb start end) m t) _
            (when_true-Quietly (ltb start end) m t j (marked-Quietly trunc start end attr t j))
            (λ u' t' k.
              when_true-Quietly (ltb end n) (write_piece last) t' k
                (write_piece-Quietly last t' k)))

  draw_truncated-Quietly :
      (trunc : Option Bytes) (attr : Attribute) (s : Screen)
      → LeavesInput q s
      → Quietly q (draw_truncated d trunc attr s)
  draw_truncated-Quietly none attr s i = i
  draw_truncated-Quietly (some trunc) attr s i =
      let n = count_or_max (charcount d.locale trunc) in
      draw_parts-Quietly trunc n (range_of n attr).0 (range_of n attr).1 attr s i

  clear_ptybuf-Quiet : (s : Screen) → Quiet q s (clear_ptybuf d s)
  clear_ptybuf-Quiet s i = elim (Bool-cases (ltb 0 s.ptybuf.len)) [
    | inl e ↦ simp e (record { no_cpr = i.no_cpr; untouched = i.untouched })
    | inr e ↦ simp e i
  ]

  pub string_with_attribute-Quietly :
      (str : Bytes) (width : ℤ) (attr : Attribute) (s : Screen)
      → LeavesInput q s
      → Quietly q (string_with_attribute d str width attr s)
  unfolding string_with_attribute
  string_with_attribute-Quietly [] width attr s i = i
  string_with_attribute-Quietly (c ∷ str) width attr s i =
      let s' = clear_ptybuf d s in
      and_then-Quietly (apply_attr d s'.attr_tty s') _
        (apply_attr-Quietly d s'.attr_tty s' (clear_ptybuf-Quiet s i))
        (λ u t j.
          and_then-Quietly (local_of d (c ∷ str), t) _ (lift-Quietly (local_of d (c ∷ str)) t j)
            (λ local t' k. draw_truncated-Quietly (strtrunc d.locale local width) attr t' k))

  pub status_text-Quietly :
      (text : Bytes) (attr : Attribute) (s : Screen)
      → LeavesInput q s
      → Quietly q (status_text d text attr s)
  unfolding status_text goto_status_text
  status_text-Quietly text attr s i =
      let s1 = record s { status_text = text; status_text_attr = attr } in
      let i1 =
        putp-Quiet d d.save_cursor s1 (record { no_cpr = i.no_cpr; untouched = i.untouched }) in
      let s2 = putp d d.save_cursor s1 in
      let i2 = cursor_address-Quiet d (pos s2.ws_row) (pos 0) s2 i1 in
      let s3 = goto_status_text d (pos 0) s2 in
      let i3 = putp-Quiet d d.clr_eol s3 i2 in
      let s4 = putp d d.clr_eol s3 in
      and_then-Quietly (string_with_attribute d s4.status_text (pos s4.ws_col) attr s4) _
        (string_with_attribute-Quietly s4.status_text (pos s4.ws_col) attr s4 i3)
        (λ u t j. putp-Quiet d d.restore_cursor t j)

  address_if_cpr-Quiet : (s : Screen) → Quiet q s (address_if_cpr d s)
  address_if_cpr-Quiet s i = simp i.no_cpr i

  width_of-Quietly : (text : Bytes) (s : Screen) → LeavesInput q s → Quietly q (width_of d text s)
  width_of-Quietly text s i =
      and_then-Quietly (local_of d text, s) _ (lift-Quietly (local_of d text) s i)
        (λ local t j. lift-Quietly (ok (strwidth d.locale local)) t j)

  write_spaces-Quietly :
      (width : ℤ) (s : Screen)
      → LeavesInput q s
      → Quietly q (and_then (spaces width, s) (λ blanks. change (write_tty blanks)))
  write_spaces-Quietly width s i =
      and_then-Quietly (spaces width, s) _ (lift-Quietly (spaces width) s i)
        (λ blanks t j. write_tty-Quiet blanks t j)

  erase-Quietly : (old : Option Bytes) (s : Screen) → LeavesInput q s → Quietly q (erase d old s)
  erase-Quietly none s i = i
  erase-Quietly (some []) s i = i
  erase-Quietly (some (c ∷ old)) s i =
      and_then-Quietly (width_of d (c ∷ old) s) _ (width_of-Quietly (c ∷ old) s i) (λ width t j.
        and_then-Quietly (save_cursor d t) _ (save_cursor-Quietly d t j) (λ u v k.
          let w = address_if_cpr d v in
          let room = minℤ width (room_of w) in
          and_then-Quietly (and_then (spaces room, w) (λ blanks. change (write_tty blanks))) _
            (write_spaces-Quietly room w (address_if_cpr-Quiet v k))
            (λ u' x l.
              restore_cursor-Quiet d (record x { cursor_text = none })
                (record { no_cpr = l.no_cpr; untouched = l.untouched }))))

  moved_to-Quiet : (found : Point × Bool) (s : Screen) → Quiet q s (moved_to d found s)
  moved_to-Quiet (point, true) s i =
      cursor_address-Quiet d point.row point.col (record s { cursor = point })
        (record { no_cpr = i.no_cpr; untouched = i.untouched })
  moved_to-Quiet (point, false) s i = record { no_cpr = i.no_cpr; untouched = i.untouched }

  show-Quietly :
      (text : Bytes) (attr : Attribute) (s : Screen)
      → LeavesInput q s
      → Quietly q (show d text attr s)
  show-Quietly [] attr s i = i
  show-Quietly (c ∷ text) attr s i =
      let s1 = record s { cursor_text = some (c ∷ text) } in
      and_then-Quietly (save_cursor d s1) _
        (save_cursor-Quietly d s1 (record { no_cpr = i.no_cpr; untouched = i.untouched }))
        (λ u t j.
          and_then-Quietly (get_cursor_position d t.cursor t) _
            (get_cursor_position-Quietly d t.cursor t j)
            (λ found v k.
              let m = moved_to-Quiet found v k in
              let w = record (moved_to d found v) { cursor_text_attr = attr } in
              and_then-Quietly (string_with_attribute d (c ∷ text) (room_of w) attr w) _
                (string_with_attribute-Quietly (c ∷ text) (room_of w) attr w
                  (record { no_cpr = m.no_cpr; untouched = m.untouched }))
                (λ u' x l. restore_cursor-Quiet d x l)))

  pub cursor_text-Quietly :
      (text : Bytes) (attr : Attribute) (s : Screen)
      → LeavesInput q s
      → Quietly q (cursor_text d text attr s)
  unfolding cursor_text
  cursor_text-Quietly text attr s i =
      and_then-Quietly (erase d s.cursor_text s) _ (erase-Quietly s.cursor_text s i)
        (λ u t j. show-Quietly text attr t j)

  pub set_screen_size-Quietly :
      (col row : ℤ) (s : Screen) → LeavesInput q s → Quietly q (set_screen_size d col row s)
  unfolding set_screen_size
  set_screen_size-Quietly col row s i =
      and_then-Quietly (save_cursor d s) _ (save_cursor-Quietly d s i) (λ u t j.
        let v = change_scroll_region d (pos 0) (row +ℤ negsuc 0) t in
        and_then-Quietly (status_text d v.status_text v.status_text_attr v) _
          (status_text-Quietly v.status_text v.status_text_attr v
            (change_scroll_region-Quiet d (pos 0) (row +ℤ negsuc 0) t j))
          (λ u' w k. restore_cursor-Quiet d w k))
