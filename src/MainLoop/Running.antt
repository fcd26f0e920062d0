-- ===== src/MainLoop/Running.antt =====
-- fep/fep.c, lines 76 to 93, 114 to 166, 202 to 310 and 506 to 525: what the program is while it
-- runs, how it starts and ends, and the modes that it gives to the terminal and to two signals. The
-- terminal's modes are cooked or raw; of the signals, only those for the stop of the program are
-- followed, since the others keep their handler until the end.
use libfep.Base.{
  ℕ, zero, suc, ◌^◌, Bool, true, false, ◌||◌, Option, none, List, [], ◌∷◌, set, leb, if◌then◌else◌,
  ok,
}
use libfep.Base.Act.{Act, ◌>>=◌, ◌>>◌, lift}
use libfep.Base.Int.{ℤ, pos, negsuc, ltℤ}
use libfep.Cap.{Tigetstr}
use libfep.Draw.{init_screen}
use libfep.MainLoop.Child.{Drawn, on_drawn}
use libfep.MainLoop.Loop.{Socket, Program, clients}
use libfep.Screen.{
  Device, Screen, change, change_scroll_region, restore_cursor, write_tty, get_cursor_position,
}
use libfep.Sgr.{get_sgr_codes}

-- Whether the terminal is raw, and, for SIGTSTP and SIGCONT, whether the program's handler is set
-- and whether they are blocked. `stops` counts how often the program was stopped.
pub record Modes : Type 0 where
  pub is_raw : Bool
  pub is_handled : Bool
  pub is_blocked : Bool
  pub stops : ℕ

pub record Running : Type 0 where
  pub program : Program Drawn
  pub signals : ℕ
  pub modes : Modes

-- Where the loop goes: on, out of it with `retval`, or to the end of the process with a code.
pub data Next : Type 0 where
  goes_on : Next
  returns : ℤ → Next
  exits : ℕ → Next

abbrev pub on_program : {A : Type 0} → Act (Program Drawn) A → Act Running A
on_program act m = let (r, program) = act m.program in (r, record m { program = program })

abbrev pub on_modes : (Modes → Modes) → Act Running (Unit {0})
on_modes f m = (ok tt, record m { modes = f m.modes })

-- Drawing that has ended the program has done so here.
abbrev pub settle : Act Running (Unit {0})
settle m = (m.program.fep.screen.0, m)

-- `set_signal_handler` and `reset_signal_handler`
unfoldable pub set_signal_handler : Modes → Modes
set_signal_handler m = record m { is_handled = true; is_blocked = true }

unfoldable pub reset_signal_handler : Modes → Modes
reset_signal_handler m = record m { is_handled = false; is_blocked = false }

-- `kill (getpid (), SIGTSTP)`: the program stops, unless the signal is blocked or handled.
abbrev pub kill_tstp : Modes → Modes
kill_tstp m = if m.is_handled || m.is_blocked then m else record m { stops = suc m.stops }

-- `handle_tstp_signal`
unfoldable pub handle_tstp : Modes → Modes
handle_tstp m =
    let cooked = record m { is_raw = false; is_handled = false } in
    let stopped = kill_tstp (record cooked { is_blocked = false }) in
    record stopped { is_blocked = true; is_handled = true }

-- The clients that `fep_free` closes
unfoldable pub close_all : List ℕ → List (Option Socket) → List (Option Socket)
close_all [] sockets = sockets
close_all (fd ∷ fds) sockets =
    close_all fds (if leb (2 ^ 31) fd then sockets else set sockets fd none)

-- `fep_free`, but for the control socket and the release of memory
unfoldable pub fep_free : Running → Running
fep_free m = record m {
  program = record m.program { sockets = close_all (clients m.program) m.program.sockets };
  modes = reset_signal_handler m.modes;
}

module _ (d : Device) where
  -- What `done` draws
  abbrev pub last_drawing : ℤ → Act Screen (Unit {0})
  last_drawing row = do
    change (λ s. change_scroll_region d (pos 0) (pos s.ws_row) s)
    change (λ s. restore_cursor d s)
    change (λ s. if ltℤ row (pos 0) then write_tty (10 ∷ []) s else s)

  unfoldable pub done : ℕ → Act Running Next
  done code = do
    λ (m : Running). on_program (on_drawn (last_drawing m.program.fep.screen.1.cursor.row)) m
    on_modes (λ m. record m { is_raw = false })
    λ (m : Running). (ok (exits code), fep_free m)

  -- `if (_fep_output_get_cursor_position (fep, &fep->cursor)) fep->has_cpr = true;`
  abbrev pub place_cursor : Act Screen (Unit {0})
  place_cursor = do
    λ (s : Screen).
        (do
          found ← get_cursor_position d s.cursor
          change (λ (s : Screen). record s { cursor = found.0; has_cpr = s.has_cpr || found.1 }))
          s

  abbrev pub start_screen : Tigetstr → Act Screen (Unit {0})
  start_screen tigetstr = do
    λ (s : Screen).
        (do
          codes ← lift (get_sgr_codes tigetstr s.sgr_codes)
          change (λ (s : Screen). record s { sgr_codes = codes }))
          s
    init_screen d
    place_cursor

  -- What `fep_run` does between `forkpty` and the loop, in the parent
  unfoldable pub start_loop : Tigetstr → Act Running (Unit {0})
  start_loop tigetstr = do
    on_modes (λ m. record m { is_raw = true })
    on_program (on_drawn (start_screen tigetstr))
    on_modes set_signal_handler

  -- What `fep_run` does behind the loop: `status` is `WEXITSTATUS` of the child process.
  unfoldable pub finish_loop : ℕ → Next → Act Running Next
  finish_loop status goes_on m = (ok goes_on, m)
  finish_loop status (returns (pos zero)) m = done status m
  finish_loop status (returns (pos (suc n))) m = done 1 m
  finish_loop status (returns (negsuc n)) m = done 1 m
  finish_loop status (exits code) m = (ok (exits code), m)
