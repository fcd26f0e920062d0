-- ===== src/Draw/Status.antt =====
-- What the status text puts on the terminal.
use libfep.Base.{
  ℕ, ◌^◌, ◌<◌, ◌≡◌, refl, ap, ◌∙◌, false, some, List, Bytes, ◌∷◌, ◌++◌, length, ◌==◌, Outcome, ok,
}
use libfep.Base.Act.{and_then}
use libfep.Base.Int.{pos}
use libfep.Draw.{type_none, range_of, clear_ptybuf, string_with_attribute, status_text}
use libfep.Draw.Texts.{parts, string_with_attribute_lem}
use libfep.Message.{Attribute}
use libfep.Screen.{Device, Screen, putp, cursor_address, goto_status_text}
use libfep.Screen.Sending.{sends, Takes, putp-sends, sends-sends, set_bytes, change_bytes}
use libfep.Wide.{strtrunc}
use libfep.Wide.Pieces.{Faithful}

module _ (d : Device) where
  -- What takes the cursor to an empty status line
  abbrev pub to_status_line : Screen → Bytes
  to_status_line s =
      (d.tputs d.save_cursor ++ d.tputs (d.cursor_address (pos s.ws_row) (pos 0)))
      ++ d.tputs d.clr_eol

  -- The screen with the text kept and the cursor on the status line
  abbrev pub on_status_line : Bytes → Attribute → Screen → Screen
  on_status_line text attr s = record s {
    status_text = text;
    status_text_attr = attr;
    cursor = record { row = pos s.ws_row; col = pos 0 };
  }

  line_cleared :
      (text : Bytes) (attr : Attribute) (s : Screen)
      → Takes s
      → putp d d.clr_eol (
          goto_status_text d
            (pos 0)
            (putp d d.save_cursor (record s { status_text = text; status_text_attr = attr })))
        ≡ sends (to_status_line s) (on_status_line text attr s)
  unfolding goto_status_text cursor_address
  line_cleared text attr s h =
      let kept = record s { status_text = text; status_text_attr = attr } in
      let saved = d.tputs d.save_cursor in
      let placed = d.tputs (d.cursor_address (pos s.ws_row) (pos 0)) in
      let there = on_status_line text attr s in
      ap (λ v. putp d d.clr_eol (cursor_address d (pos v.ws_row) (pos 0) v))
        (putp-sends d d.save_cursor kept h)
      ∙ ap
          (λ (v : Screen).
            putp d d.clr_eol (record v { cursor = record { row = pos s.ws_row; col = pos 0 } }))
          (putp-sends d (d.cursor_address (pos s.ws_row) (pos 0)) (sends saved kept) refl
            ∙ sends-sends saved placed kept)
      ∙ putp-sends d d.clr_eol (sends (saved ++ placed) there) refl
      ∙ sends-sends (saved ++ placed) (d.tputs d.clr_eol) there

  -- A status text puts out, on a terminal that takes every byte: what saves the cursor, takes it to
  -- the status line and clears the line; the text with its attribute, cut to the width of the
  -- terminal; and what restores the cursor. The text and its attribute are kept. Conditions: the
  -- text is not empty, has an attribute other than NONE, and can be converted, in an encoding
  -- without states, and no text of the child process is kept back.
  pub status_text_lem :
      (c : ℕ) (str local trunc : Bytes) (wcs : List ℕ) (attr : Attribute) (s : Screen)
      → Takes s
      → s.ptybuf.len ≡ 0
      → (attr.type == type_none) ≡ false
      → Faithful d.locale
      → d.to_locale (c ∷ str) ≡ some local
      → strtrunc d.locale local (pos s.ws_col) ≡ some trunc
      → d.locale.to_wide trunc ≡ some wcs
      → length wcs < 2 ^ 32
      → status_text d (c ∷ str) attr s ≡ (
          let (i, j) = range_of (length wcs) attr in
          (
            ok tt,
            sends
                ((to_status_line s ++ (change_bytes d s s.attr_tty ++ parts d s wcs i j attr))
                  ++ d.tputs d.restore_cursor)
                (record (on_status_line (c ∷ str) attr s) { attr = s.attr_tty }),
          ))
  unfolding status_text parts set_bytes
  status_text_lem c str local trunc wcs attr s h empty t f e1 e2 e3 small =
      let (i, j) = range_of (length wcs) attr in
      let there = on_status_line (c ∷ str) attr s in
      let line = sends (to_status_line s) there in
      let text = change_bytes d s s.attr_tty ++ parts d s wcs i j attr in
      let left : Screen = record there { attr = s.attr_tty } in
      let unchanged : clear_ptybuf d line ≡ line = rw empty refl in
      let drawn : string_with_attribute d (c ∷ str) (pos s.ws_col) attr line
          ≡ (ok tt, sends (to_status_line s ++ text) left) =
        string_with_attribute_lem d c str local trunc wcs (pos s.ws_col) attr line refl t f e1 e2 e3
          small
        ∙ ap
            (λ (v : Screen). (
              ok tt,
              sends (change_bytes d v v.attr_tty ++ parts d v wcs i j attr)
                  (record v { attr = v.attr_tty }),
            ))
            unchanged
        ∙ ap (λ v. (ok tt, v)) (sends-sends (to_status_line s) text left) in
      let show = λ (v : Screen).
        and_then (string_with_attribute d v.status_text (pos v.ws_col) attr v)
          (λ u w. (ok tt, putp d d.restore_cursor w)) in
      ap show (line_cleared (c ∷ str) attr s h)
      ∙ ap
          (λ (r : Outcome (Unit {0}) × Screen).
            and_then r (λ u w. (ok tt, putp d d.restore_cursor w)))
          drawn
      ∙ ap (λ v. (ok tt, v))
          (putp-sends d d.restore_cursor (sends (to_status_line s ++ text) left) refl
            ∙ sends-sends (to_status_line s ++ text) (d.tputs d.restore_cursor) left)
