-- ===== src/MainLoop/Signals.antt =====
-- fep/fep.c, lines 162 to 228 and 342 to 360: the signals that have arrived while the program waited.
use libfep.Base.{ℕ, ◌-◌, ◌^◌, bit_and, Bool, not, List, [], ◌∷◌, ◌==◌, if◌then◌else◌, ok}
use libfep.Base.Act.{Act, ◌>>=◌, ◌>>◌, pure}
use libfep.MainLoop.{Signal, flag_term, flag_winch, flag_tstp, signal_handler}
use libfep.MainLoop.Child.{Drawn, handle_winch}
use libfep.MainLoop.Running.{
  Running, Next, goes_on, on_program, on_modes, settle, handle_tstp, done,
}
use libfep.Screen.{Device}
use libfep.Server.{Terminal}
use libfep.Wire.{Platform}

-- The handlers of the signals that have arrived
unfoldable pub take_signals : List Signal → ℕ → ℕ
take_signals [] signals = signals
take_signals (sig ∷ sigs) signals = take_signals sigs (signal_handler sig signals)

-- `signals & flag`, and `signals &= ~flag`
abbrev pub has_flag : ℕ → Running → Bool
has_flag flag m = not (bit_and m.signals flag == 0)

abbrev pub without_flag : ℕ → Running → Running
without_flag flag m = record m { signals = bit_and m.signals (2 ^ 32 - 1 - flag) }

module _ (p : Platform) (fuel : ℕ) (d : Device) (t : Terminal Drawn) where
  abbrev pub handle_flag : ℕ → Act Running (Unit {0}) → Act Running (Unit {0})
  handle_flag flag handler m = if has_flag flag m then handler (without_flag flag m) else (ok tt, m)

  abbrev pub winch_signal : ℕ → ℕ → Act Running (Unit {0})
  winch_signal rows cols = do
    answered ← on_program (handle_winch d p fuel t.tigetstr rows cols)
    settle

  -- The branch on a wait that was interrupted
  unfoldable pub handle_signals : ℕ → ℕ → Act Running Next
  handle_signals rows cols m =
      if has_flag flag_term m
      then done d 1 (without_flag flag_term m)
      else (do
        handle_flag flag_winch (winch_signal rows cols)
        handle_flag flag_tstp (on_modes handle_tstp)
        pure goes_on)
          m
