-- ===== src/MainLoop/Exits.antt =====
-- The exit of the main loop, and the signals it comes from.
use libfep.Base.{
  ℕ, ◌≡◌, refl, sym, subst, ltb, ◌⊎◌, inl, inr, Bool, true, false, none, List, Bytes, [], ◌∷◌,
  if◌then◌else◌, Outcome, ok, failed, fault, died, looping,
}
use libfep.Base.Act.{Act, ◌>>◌, pure}
use libfep.Base.Ends.{Ends, Ends-and_then}
use libfep.MainLoop.{flag_tstp}
use libfep.MainLoop.Child.{Drawn, on_drawn, handle_winch}
use libfep.MainLoop.Flags.{ends, resizes, stops, some_of, round_signals, taken, stopped, when}
use libfep.MainLoop.Loop.{Program}
use libfep.MainLoop.Rounds.{Woken, interrupted, ready, woken, round, main_loop}
use libfep.MainLoop.Running.{
  Running, Next, goes_on, returns, exits, on_program, on_modes, settle, last_drawing, done,
  fep_free,
}
use libfep.MainLoop.Serving.{Ready, unless_left}
use libfep.MainLoop.Signals.{winch_signal}
use libfep.Screen.{Device}
use libfep.MainLoop.Stays.{
  Anything, Stays, NoExit, program-Stays, lift-Stays, after_Stays, any-Ends, ready-NoExit,
}
use libfep.Server.{Terminal}
use libfep.Wire.{Platform}

-- A wait that ended with a signal that ends the program
abbrev pub Kills : Woken → Type 0
Kills (interrupted sigs rows cols) = some_of ends sigs ≡ true
Kills (ready w) = ⊥

abbrev pub Killed : List Woken → Type 0
Killed [] = ⊥
Killed (w ∷ ws) = Kills w ⊎ Killed ws

-- Only a signal ends the process within a round, with the status 1.
abbrev ByRound : Woken → Next → Running → Type 0
ByRound w goes_on m = m.signals ≡ 0
ByRound w (returns n) m = Unit
ByRound w (exits code) m = (code ≡ 1) × Kills w

module _ (p : Platform) (fuel : ℕ) (d : Device) (t : Terminal Drawn) (clr_eos : Bytes) where
  done-exits : (w : Woken) (m : Running) → Kills w → Ends (ByRound w) Anything (done d 1 m)
  unfolding done
  done-exits w m k =
      let drawn = on_program (on_drawn (last_drawing d m.program.fep.screen.1.cursor.row)) m in
      Ends-and_then (λ a m. Unit {0}) (ByRound w) Anything drawn
        (λ (u : Unit {0}).
          on_modes (λ m. record m { is_raw = false })
          >> (λ (m : Running). (ok (exits 1), fep_free m)))
        (any-Ends drawn) (λ u m1 h. (refl, k))

  winch-Stays :
      (rows cols : ℕ) (m : Running) → m.signals ≡ 0 → Stays (winch_signal p fuel d t rows cols m)
  winch-Stays rows cols m h =
      let act = handle_winch d p fuel t.tigetstr rows cols in
      after_Stays (λ a m. m.signals ≡ 0) (on_program act) (λ b. settle) m (program-Stays act m h)
        (λ b m1 h1. lift-Stays m1.program.fep.screen.0 m1 h1)

  taken-ByRound :
      (w : Woken) (rows cols : ℕ) (e r s : Bool) (m : Running)
      → (e ≡ true → Kills w)
      → Ends (ByRound w) Anything (taken p fuel d t rows cols e r s m)
  taken-ByRound w rows cols true r s m k = done-exits w _ (k refl)
  taken-ByRound w rows cols false r true m k =
      let resized =
        when p fuel d t r (winch_signal p fuel d t rows cols) (record m { signals = flag_tstp }) in
      Ends-and_then (λ a m. Unit {0}) (ByRound w) Anything resized
        (λ (u : Unit {0}). when p fuel d t true (stopped p fuel d t) >> pure goes_on)
        (any-Ends resized) (λ u m1 h. refl)
  taken-ByRound w rows cols false true false m k =
      after_Stays (ByRound w) (winch_signal p fuel d t rows cols)
        (λ (u : Unit {0}). when p fuel d t false (stopped p fuel d t) >> pure goes_on)
        (record m { signals = 0 }) (winch-Stays rows cols (record m { signals = 0 }) refl)
        (λ u m1 h1. h1)
  taken-ByRound w rows cols false false false m k = refl

  ready-ByRound :
      (w : Ready) (m : Running)
      → m.signals ≡ 0
      → Ends (ByRound (ready w)) Anything (round p fuel d t clr_eos (ready w) m)
  ready-ByRound w m h =
      go (round p fuel d t clr_eos (ready w) m) (ready-NoExit p fuel d t clr_eos w m h)
    where
      go :
          (r : Outcome Next × Running)
          → Ends NoExit Anything r
          → Ends (ByRound (ready w)) Anything r
      go (ok goes_on, m) h = h
      go (ok (returns n), m) h = tt
      go (ok (exits code), m) h = elim h [ ]
      go (failed, m) h = tt
      go (fault, m) h = tt
      go (died, m) h = tt
      go (looping, m) h = tt

  round-ByRound :
      (w : Woken) (m : Running)
      → m.signals ≡ 0
      → Ends (ByRound w) Anything (round p fuel d t clr_eos w m)
  round-ByRound (interrupted sigs rows cols) m h =
      let w = interrupted sigs rows cols in
      subst (Ends (ByRound w) Anything) (sym (round_signals p fuel d t clr_eos sigs rows cols m h))
        (taken-ByRound w rows cols (some_of ends sigs) (some_of resizes sigs) (some_of stops sigs) m
          (λ e. e))
  round-ByRound (ready w) m h = ready-ByRound w m h

  back_Kills : (r : Ready) (w : Woken) (b : Bool) → Kills (if b then ready r else w) → Kills w
  back_Kills r w true k = elim k [ ]
  back_Kills r w false k = k

  -- Bytes that were put back are no signal.
  woken-Kills : (m : Program Drawn) (w : Woken) → Kills (woken p fuel d t clr_eos m w) → Kills w
  unfolding woken
  woken-Kills m w =
      back_Kills
        (record {
          tty_in = true;
          pty = false;
          server = false;
          control = [];
          output = none;
          accepted = none;
        })
        w (ltb 0 m.fep.screen.1.tty.ttybuf.len)

  -- What a run of the loop that has ended the process says of what it was woken with
  abbrev pub Explained : List Woken → Next → Running → Type 0
  Explained ws goes_on m = Unit
  Explained ws (returns n) m = Unit
  Explained ws (exits code) m = (code ≡ 1) × Killed ws

  later-Explained :
      (w : Woken) (ws : List Woken) (r : Outcome Next × Running)
      → Ends (Explained ws) Anything r
      → Ends (Explained (w ∷ ws)) Anything r
  later-Explained w ws (ok goes_on, m) h = tt
  later-Explained w ws (ok (returns n), m) h = tt
  later-Explained w ws (ok (exits code), m) (e, k) = (e, inr k)
  later-Explained w ws (failed, m) h = tt
  later-Explained w ws (fault, m) h = tt
  later-Explained w ws (died, m) h = tt
  later-Explained w ws (looping, m) h = tt

  rest-Explained :
      (w : Woken) (ws : List Woken) (rest : Act Running Next)
      → ((m : Running) → m.signals ≡ 0 → Ends (Explained ws) Anything (rest m))
      → (m : Program Drawn) (next : Next) (m1 : Running)
      → ByRound (woken p fuel d t clr_eos m w) next m1
      → Ends (Explained (w ∷ ws)) Anything (unless_left rest next m1)
  rest-Explained w ws rest hr m goes_on m1 h1 = later-Explained w ws (rest m1) (hr m1 h1)
  rest-Explained w ws rest hr m (returns n) m1 h1 = tt
  rest-Explained w ws rest hr m (exits code) m1 (e, k) = (e, inl (woken-Kills m w k))

  -- A run of the loop that comes to the loop's own call of exit does so with the status 1, and only
  -- where a wait was ended by a hangup, or by a signal to terminate or to quit: no other signal, no
  -- key, no text of the child process and no client makes it exit so. Condition: no flag of a
  -- signal is left from before.
  pub main_loop-Explained :
      (ws : List Woken) (m : Running)
      → m.signals ≡ 0
      → Ends (Explained ws) (λ m. Unit {0}) (main_loop p fuel d t clr_eos ws m)
  unfolding main_loop
  main_loop-Explained [] m h = tt
  main_loop-Explained (w ∷ ws) m h =
      let w' = woken p fuel d t clr_eos m.program w in
      Ends-and_then (ByRound w') (Explained (w ∷ ws)) Anything (round p fuel d t clr_eos w' m)
        (λ next. unless_left (main_loop p fuel d t clr_eos ws) next) (round-ByRound w' m h)
        (rest-Explained w ws (main_loop p fuel d t clr_eos ws) (main_loop-Explained ws) m.program)
