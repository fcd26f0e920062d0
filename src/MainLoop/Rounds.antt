-- ===== src/MainLoop/Rounds.antt =====
-- fep/fep.c, lines 331 to 504: the loop. What `_fep_pselect` wakes the program with is an input.
use libfep.Base.{ℕ, true, false, none, List, Bytes, [], ◌∷◌, ltb, if◌then◌else◌, ok}
use libfep.Base.Act.{Act, ◌>>=◌}
use libfep.MainLoop.{Signal}
use libfep.MainLoop.Child.{Drawn}
use libfep.MainLoop.Loop.{Program}
use libfep.MainLoop.Running.{Running, Next, goes_on}
use libfep.MainLoop.Serving.{Ready, unless_left, serve_tty, serve_rest}
use libfep.MainLoop.Signals.{take_signals, handle_signals}
use libfep.Screen.{Device}
use libfep.Server.{Terminal}
use libfep.Wire.{Platform}

-- The wait ends with signals, at a size of the terminal's window, or with what is ready.
pub data Woken : Type 0 where
  interrupted : List Signal → ℕ → ℕ → Woken
  ready : Ready → Woken

module _ (p : Platform) (fuel : ℕ) (d : Device) (t : Terminal Drawn) (clr_eos : Bytes) where
  -- The bytes that were put back are ready at once, and nothing else is then.
  unfoldable pub woken : Program Drawn → Woken → Woken
  woken m w =
      if ltb 0 m.fep.screen.1.tty.ttybuf.len
      then ready (record {
        tty_in = true;
        pty = false;
        server = false;
        control = [];
        output = none;
        accepted = none;
      })
      else w

  -- One round of `while (true)`
  unfoldable pub round : Woken → Act Running Next
  round (interrupted sigs rows cols) m =
      handle_signals p fuel d t rows cols (record m { signals = take_signals sigs m.signals })
  round (ready w) m =
      (do
        served ← serve_tty p fuel d t clr_eos w
        unless_left (serve_rest p fuel d t clr_eos w served.1) served.0)
        m

  -- The loop, on all that it is woken with; at the end of the list it waits.
  unfoldable pub main_loop : List Woken → Act Running Next
  main_loop [] m = (ok goes_on, m)
  main_loop (w ∷ ws) m = (do next ← round (woken m.program w); unless_left (main_loop ws) next) m
