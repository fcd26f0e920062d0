-- ===== src/MainLoop/Drawing.antt =====
-- What is drawn from the start of the program to its end.
use libfep.Base.{
  ℕ, ◌≡◌, refl, inl, inr, subst, false, Bytes, [], ◌∷◌, Outcome, ok, failed, fault, died, looping,
  Bool-cases,
}
use libfep.Base.Act.{◌>>=◌, ◌>>◌, lift}
use libfep.Base.Ends.{Ends, Ends-and_then}
use libfep.Base.Int.{ℤ, pos, ltℤ}
use libfep.Cap.{Tigetstr}
use libfep.Draw.{status_text, cursor_text, set_screen_size, init_screen}
use libfep.Draw.Pty.{string_from_pty}
use libfep.Draw.Quiet.{status_text-Quietly, cursor_text-Quietly, set_screen_size-Quietly}
use libfep.Draw.Steps.{string_from_pty-Quietly, init_screen-Quietly}
use libfep.Input.{Tty}
use libfep.MainLoop.Running.{start_screen, place_cursor, last_drawing}
use libfep.Message.{Attribute}
use libfep.Screen.{
  Point, Device, Screen, change, get_cursor_position, change_scroll_region, restore_cursor,
}
use libfep.Screen.Quiet.{
  LeavesInput, Quietly, write_tty-Quiet, change_scroll_region-Quiet, restore_cursor-Quiet,
}
use libfep.Sgr.{SgrCodes, get_sgr_codes}

-- The terminal's input is as it was, and after a return no report of the cursor is enabled.
abbrev Started : {A : Type 0} → Tty → Outcome A × Screen → Type 0
Started q r = Ends (λ _. LeavesInput q) (λ s. s.tty ≡ q) r

Quietly-Started : {A : Type 0} (q : Tty) (r : Outcome A × Screen) → Quietly q r → Started q r
Quietly-Started q (ok a, s) h = h
Quietly-Started q (failed, s) h = h.untouched
Quietly-Started q (fault, s) h = tt
Quietly-Started q (died, s) h = tt
Quietly-Started q (looping, s) h = tt

-- The first question for the cursor is not asked either.
get_cursor_position-unasked :
    (d : Device) (point : Point) (s : Screen)
    → s.has_cpr ≡ false
    → get_cursor_position d point s ≡ (ok (point, false), s)
unfolding get_cursor_position
get_cursor_position-unasked d point s e = rw e refl

module _ (d : Device) {q : Tty} where
  place_cursor-Quietly : (s : Screen) → LeavesInput q s → Quietly q (place_cursor d s)
  place_cursor-Quietly s i =
      rw (get_cursor_position-unasked d s.cursor s i.no_cpr)
        (record { no_cpr = rw i.no_cpr refl; untouched = i.untouched })

  last_drawing-Quietly : (row : ℤ) (s : Screen) → LeavesInput q s → Quietly q (last_drawing d row s)
  last_drawing-Quietly row s i =
      let s1 = change_scroll_region d (pos 0) (pos s.ws_row) s in
      let s2 = restore_cursor d s1 in
      let j = restore_cursor-Quiet d s1 (change_scroll_region-Quiet d (pos 0) (pos s.ws_row) s i) in
      elim (Bool-cases (ltℤ row (pos 0))) [
        | inl e ↦ rw e (write_tty-Quiet (10 ∷ []) s2 j)
        | inr e ↦ rw e j
      ]

module _ (d : Device) where
  start_screen-Started :
      (tigetstr : Tigetstr) (s : Screen) → Started s.tty (start_screen d tigetstr s)
  start_screen-Started tigetstr s = go (get_sgr_codes tigetstr s.sgr_codes)
    where
      go :
          (o : Outcome SgrCodes)
          → Started s.tty (
              ((λ (s : Screen).
                    (lift o >>= (λ codes. change (λ (s : Screen). record s { sgr_codes = codes })))
                      s)
                  >> (init_screen d >> place_cursor d))
                s)
      go (ok codes) =
          let t = record s { sgr_codes = codes } in
          Ends-and_then (λ _. LeavesInput s.tty) (λ _. LeavesInput s.tty) (λ u. u.tty ≡ s.tty)
            (init_screen d t) (λ u. place_cursor d)
            (Quietly-Started s.tty (init_screen d t) (init_screen-Quietly d t))
            (λ u v i. Quietly-Started s.tty (place_cursor d v) (place_cursor-Quietly d v i))
      go failed = refl
      go fault = tt
      go died = tt
      go looping = tt

  -- What the program does to the screen, each call returned: text of the child process, a client's
  -- texts, a new size, the size as the terminal says it, and the last drawing.
  pub data Step : Screen → Screen → Type 0 where
    passed :
        (mem : Bytes) (n : ℕ) {s t : Screen} → string_from_pty d mem n s ≡ (ok tt, t) → Step s t
    at_cursor :
        (text : Bytes) (attr : Attribute) {s t : Screen}
        → cursor_text d text attr s ≡ (ok tt, t)
        → Step s t
    in_status :
        (text : Bytes) (attr : Attribute) {s t : Screen}
        → status_text d text attr s ≡ (ok tt, t)
        → Step s t
    resized : (col row : ℤ) {s t : Screen} → set_screen_size d col row s ≡ (ok tt, t) → Step s t
    measured :
        (ws_row ws_col : ℕ) {s t : Screen}
        → t ≡ record s { ws_row = ws_row; ws_col = ws_col }
        → Step s t
    finished : (row : ℤ) {s t : Screen} → last_drawing d row s ≡ (ok tt, t) → Step s t

  pub data Reach (s : Screen) : Screen → Type 0 where
    here : Reach s s
    next : {t u : Screen} → Reach s t → Step t u → Reach s u

  Step-LeavesInput : (q : Tty) {s t : Screen} → Step s t → LeavesInput q s → LeavesInput q t
  Step-LeavesInput q (passed mem n {s} e) i =
      subst (Quietly q) e (string_from_pty-Quietly d mem n s i)
  Step-LeavesInput q (at_cursor text attr {s} e) i =
      subst (Quietly q) e (cursor_text-Quietly d text attr s i)
  Step-LeavesInput q (in_status text attr {s} e) i =
      subst (Quietly q) e (status_text-Quietly d text attr s i)
  Step-LeavesInput q (resized col row {s} e) i =
      subst (Quietly q) e (set_screen_size-Quietly d col row s i)
  Step-LeavesInput q (measured ws_row ws_col {s} e) i =
      rw e (record { no_cpr = i.no_cpr; untouched = i.untouched })
  Step-LeavesInput q (finished row {s} e) i = subst (Quietly q) e (last_drawing-Quietly d row s i)

  -- From the start of the screen on, with the question for the cursor that the start asks, the
  -- terminal is never asked for its cursor, and drawing takes nothing from the keyboard: in every
  -- state that is reached by calls that return, no report is enabled, and the terminal's input and
  -- the bytes put back are what they were before the start.
  pub Reach-LeavesInput :
      (tigetstr : Tigetstr) (s : Screen) {t u : Screen}
      → start_screen d tigetstr s ≡ (ok tt, t)
      → Reach t u
      → LeavesInput s.tty u
  Reach-LeavesInput tigetstr s e here = subst (Started s.tty) e (start_screen-Started tigetstr s)
  Reach-LeavesInput tigetstr s e (next r st) =
      Step-LeavesInput s.tty st (Reach-LeavesInput tigetstr s e r)
