-- ===== src/Draw.antt =====
-- fep/output.c, lines 166 to 236, 277 to 396 and 464 to 503: text drawn on the terminal.
pub mod Pty
pub mod Quiet
pub mod Steps
pub mod Texts
pub mod Status
pub mod Passing
use libfep.Base.{
  ℕ, zero, suc, ◌-◌, ◌%◌, ◌^◌, min, max, Bool, true, false, not, ◌&&◌, Option, none, some, List,
  Bytes, [], ◌∷◌, ◌++◌, length, take, drop, replicate, ◌==◌, ltb, if◌then◌else◌, Outcome, ok,
  failed, fault, died, looping,
}
use libfep.Base.Act.{Act, ◌>>=◌, ◌>>◌, lift, pure}
use libfep.Base.Int.{ℤ, pos, negsuc, ◌+ℤ◌, negℤ, ltℤ}
use libfep.Csi.{Csi, Scan, complete, partial, absent, csi_scan, csi_parse}
use libfep.FepString.{Memory, FepString, append, clear}
use libfep.Message.{Attribute}
use libfep.Screen
use libfep.Screen.{
  Point, Device, Screen, change, write_tty, putp, set_attributes, change_scroll_region, apply_attr,
  goto_status_text, get_cursor_position, save_cursor, restore_cursor,
}
use libfep.Sgr.{SgrAttr, SgrCodes, params_to_attr, attr_from_attribute}
use libfep.Strv.{strsplit}
use libfep.Wide.{Locale, strwidth, strtrunc, charcount, substring}

-- `FEP_ATTR_TYPE_NONE`
abbrev pub type_none : ℕ
type_none = 3

-- `start_index` and `end_index`, within the string and in order
abbrev pub range_of : ℕ → Attribute → ℕ × ℕ
range_of length attr =
    let start = min length attr.start_index in
    let end = min length attr.end_index in if ltb end start then (end, start) else (start, end)

-- `length = _fep_charcount (trunc)`: -1 as an `unsigned int`
abbrev pub count_or_max : Option ℕ → ℕ
count_or_max none = 2 ^ 32 - 1
count_or_max (some n) = n % 2 ^ 32

-- `if (p) write (fep->tty_out, p, strlen (p))`
abbrev pub write_piece : Option Bytes → Act Screen (Unit {0})
write_piece none = pure tt
write_piece (some p) = change (write_tty p)

-- `if (test) …`
abbrev pub when_true : Bool → Act Screen (Unit {0}) → Act Screen (Unit {0})
when_true true m = m
when_true false m = pure tt

-- `MIN (width, fep->winsize.ws_col - fep->cursor.col)`
abbrev pub minℤ : ℤ → ℤ → ℤ
minℤ a b = if ltℤ a b then a else b

-- `xcharalloc (width)` and the spaces; a negative number is a size that no block has.
abbrev pub spaces : ℤ → Outcome Bytes
spaces (pos n) = ok (replicate n b' ')
spaces (negsuc n) = died

-- `fep->winsize.ws_col - fep->cursor.col`
abbrev pub room_of : Screen → ℤ
room_of s = pos s.ws_col +ℤ negℤ s.cursor.col

module _ (d : Device) where
  -- A null pointer that `_fep_strtrunc` or `_fep_strwidth` is given
  abbrev pub local_of : Bytes → Outcome Bytes
  local_of str = elim (d.to_locale str) [ none ↦ fault | some local ↦ ok local ]

  -- The second part of the text, between its attribute and the terminal's.
  abbrev pub marked : Bytes → ℕ → ℕ → Attribute → Act Screen (Unit {0})
  marked trunc start end attr = do
    when_true (not (attr.type == type_none)) (set_attributes d (attr_from_attribute attr))
    write_piece (substring d.locale trunc start end)
    when_true (not (attr.type == type_none)) (λ s. set_attributes d s.attr_tty s)

  -- The three parts of the text that is shown. With no attribute the first is not written.
  unfoldable pub draw_parts : Bytes → ℕ → ℕ × ℕ → Attribute → Act Screen (Unit {0})
  draw_parts trunc length (start, end) attr = do
    when_true (ltb 0 start && not (attr.type == type_none))
        (write_piece (substring d.locale trunc 0 start))
    when_true (ltb start end) (marked trunc start end attr)
    when_true (ltb end length) (write_piece (substring d.locale trunc end length))

  abbrev pub draw_truncated : Option Bytes → Attribute → Act Screen (Unit {0})
  draw_truncated none attr = pure tt
  draw_truncated (some trunc) attr =
      let length = count_or_max (charcount d.locale trunc) in
      draw_parts trunc length (range_of length attr) attr

  -- `if (fep->ptybuf.len > 0) _fep_string_clear (&fep->ptybuf)`
  abbrev pub clear_ptybuf : Screen → Screen
  clear_ptybuf s = if ltb 0 s.ptybuf.len then record s { ptybuf = clear s.ptybuf } else s

  -- `_fep_output_string_with_attribute`
  unfoldable pub string_with_attribute : Bytes → ℤ → Attribute → Act Screen (Unit {0})
  string_with_attribute [] width attr = pure tt
  string_with_attribute (c ∷ str) width attr = do
    change clear_ptybuf
    λ s. apply_attr d s.attr_tty s
    local ← lift (local_of (c ∷ str))
    draw_truncated (strtrunc d.locale local width) attr

  -- `_fep_output_status_text`
  unfoldable pub status_text : Bytes → Attribute → Act Screen (Unit {0})
  status_text text attr = do
    change (λ s. putp d d.save_cursor (record s { status_text = text; status_text_attr = attr }))
    change (λ s. putp d d.clr_eol (goto_status_text d (pos 0) s))
    λ s. string_with_attribute s.status_text (pos s.ws_col) attr s
    change (putp d d.restore_cursor)

  -- The width of the text that is drawn over.
  abbrev pub width_of : Bytes → Act Screen ℤ
  width_of text = do local ← lift (local_of text); pure (strwidth d.locale local)

  -- `if (fep->has_cpr) _fep_output_cursor_address (…)`
  abbrev pub address_if_cpr : Screen → Screen
  address_if_cpr s = if s.has_cpr then Screen.cursor_address d s.cursor.row s.cursor.col s else s

  -- The old text is drawn over with spaces.
  abbrev pub erase : Option Bytes → Act Screen (Unit {0})
  erase none = pure tt
  erase (some []) = pure tt
  erase (some (c ∷ old)) = do
    width ← width_of (c ∷ old)
    save_cursor d
    change address_if_cpr
    λ s. (do blanks ← lift (spaces (minℤ width (room_of s))); change (write_tty blanks)) s
    change (λ s. restore_cursor d (record s { cursor_text = none }))

  -- `if (_fep_output_get_cursor_position (fep, &fep->cursor)) _fep_output_cursor_address (…)`
  abbrev pub moved_to : Point × Bool → Screen → Screen
  moved_to (point, found) s =
      let s' = record s { cursor = point } in
      if found then Screen.cursor_address d point.row point.col s' else s'

  -- The new text is drawn and kept.
  abbrev pub show : Bytes → Attribute → Act Screen (Unit {0})
  show [] attr = pure tt
  show (c ∷ text) attr = do
    change (λ s. record s { cursor_text = some (c ∷ text) })
    save_cursor d
    found ← (λ (s : Screen). get_cursor_position d s.cursor s)
    change (λ s. record (moved_to found s) { cursor_text_attr = attr })
    λ s. string_with_attribute (c ∷ text) (room_of s) attr s
    change (restore_cursor d)

  -- `_fep_output_cursor_text`
  unfoldable pub cursor_text : Bytes → Attribute → Act Screen (Unit {0})
  cursor_text text attr = do λ s. erase s.cursor_text s; show text attr

  -- `_fep_output_set_screen_size`
  unfoldable pub set_screen_size : ℤ → ℤ → Act Screen (Unit {0})
  set_screen_size col row = do
    save_cursor d
    change (change_scroll_region d (pos 0) (row +ℤ negsuc 0))
    λ s. status_text s.status_text s.status_text_attr s
    change (restore_cursor d)

  -- `_fep_output_init_screen`. The branch behind `fep->has_cpr = 0` is never taken.
  unfoldable pub init_screen : Act Screen (Unit {0})
  init_screen = do
    change (λ s. change_scroll_region d (pos 0) (pos s.ws_row +ℤ negsuc 0) s)
    change (λ s. putp d d.cursor_invisible (putp d d.clear_screen s))
    change (λ s.
        putp d d.cursor_normal
          (record s { cursor = record { row = negsuc 0; col = negsuc 0 }; has_cpr = false }))
    λ s. status_text [] s.status_text_attr s
