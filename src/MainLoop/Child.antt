-- ===== src/MainLoop/Child.antt =====
-- fep/fep.c, lines 168 to 200 and 438 to 476: the handling of the text of the child process, and of
-- a new window size.
use libfep.Base.{
  ℕ, ◌+◌, ◌-◌, ◌%◌, ◌^◌, Bool, Option, none, some, Bytes, ◌++◌, length, drop, replicate, ltb,
  if◌then◌else◌, Outcome,
}
use libfep.Base.Act.{Act, and_then, ◌>>=◌, ◌>>◌, lift}
use libfep.Base.Int.{pos}
use libfep.Cap.{Tigetstr}
use libfep.Draw
use libfep.Draw.{set_screen_size}
use libfep.Draw.Pty.{string_from_pty}
use libfep.MainLoop.{find_match_end}
use libfep.MainLoop.Events.{resize_request}
use libfep.MainLoop.Loop.{Program, ask_clients}
use libfep.Screen.{Device, Screen}
use libfep.Server.{Terminal}
use libfep.Wire.{Platform}

-- The larger of two places of the text, where a null pointer is below all.
abbrev pub later_end : Option ℕ → Option ℕ → Option ℕ
later_end none b = b
later_end (some a) none = some a
later_end (some a) (some b) = if ltb a b then some b else some a

-- Drawing as the server does it: a screen, unless drawing has ended the program.
abbrev pub Drawn : Type 0
Drawn = Outcome (Unit {0}) × Screen

-- A change of the screen by the program itself
abbrev pub on_drawn : Act Screen (Unit {0}) → Act (Program Drawn) (Unit {0})
on_drawn draw m =
    let screen = and_then m.fep.screen (λ u. draw) in
    (screen.0, record m { fep = record m.fep { screen = screen } })

module _ (d : Device) where
  -- The text up to the end of what clears the screen, the status text drawn again, and the rest.
  abbrev pub put_parts : Bytes → ℕ → Option ℕ → Act Screen (Unit {0})
  put_parts mem n none = string_from_pty d mem n
  put_parts mem n (some end) = do
    string_from_pty d mem end
    λ s. Draw.status_text d s.status_text s.status_text_attr s
    string_from_pty d (drop end mem) (n - end)

  -- Input from the child process, of the bytes that were read into a block of `size` zeros.
  unfoldable pub pty_input : ℕ → Bytes → Bytes → Bytes → Act Screen (Unit {0})
  pty_input size clear_screen clr_eos buf = do
    str1 ← lift (find_match_end buf clear_screen)
    str2 ← lift (find_match_end buf clr_eos)
    put_parts (buf ++ replicate (size - length buf) 0) (length buf) (later_end str1 str2)

  abbrev pub drawing : Tigetstr → Terminal Drawn
  drawing tigetstr = record {
    cursor_text = λ text attr drawn. and_then drawn (λ u. Draw.cursor_text d text attr);
    status_text = λ text attr drawn. and_then drawn (λ u. Draw.status_text d text attr);
    to_locale = d.to_locale;
    tigetstr = tigetstr;
  }

  -- `ioctl (…, TIOCGWINSZ, &fep->winsize)` and the row taken off, an `unsigned short`
  abbrev pub with_winsize : ℕ → ℕ → Screen → Screen
  with_winsize rows cols s = record s { ws_row = (rows + (2 ^ 16 - 1)) % 2 ^ 16; ws_col = cols }

  -- `handle_winch_signal`, with the size that the terminal says: the screen is set to the size from
  -- before, which is what the clients are sent. The child process is told the new size.
  unfoldable pub handle_winch : Platform → ℕ → Tigetstr → ℕ → ℕ → Act (Program Drawn) Bool
  handle_winch p fuel tigetstr rows cols m =
      let old = m.fep.screen.1 in
      (do
        on_drawn
            (λ s. set_screen_size d (pos old.ws_col) (pos old.ws_row) (with_winsize rows cols s))
        request ← lift (resize_request old.ws_col old.ws_row)
        ask_clients p fuel (drawing tigetstr) request)
        m
