-- ===== src/MainLoop/Flags.antt =====
-- What a round does with the signals that have arrived, however often and in whatever order.
use libfep.Base.{
  ℕ, ◌+◌, ◌≡◌, refl, ap, ◌∙◌, Bool, true, false, ◌||◌, List, Bytes, [], ◌∷◌, if◌then◌else◌, Outcome,
  ok, failed, fault, died, looping,
}
use libfep.Base.Act.{Act, and_then, ◌>>◌, pure}
use libfep.MainLoop.{
  Signal, hup, term, quit, winch, tstp, other, flag_term, flag_winch, flag_tstp, signal_handler,
}
use libfep.MainLoop.Child.{Drawn}
use libfep.MainLoop.Loop.{Program}
use libfep.MainLoop.Running.{Modes, Running, Next, goes_on, on_modes, settle, handle_tstp, done}
use libfep.MainLoop.Rounds.{interrupted, round}
use libfep.MainLoop.Signals.{take_signals, handle_flag, winch_signal, handle_signals}
use libfep.Screen.{Device}
use libfep.Server.{Terminal}
use libfep.Wire.{Platform}

-- A signal that ends the program
abbrev pub ends : Signal → Bool
ends hup = true
ends term = true
ends quit = true
ends _ = false

abbrev pub resizes : Signal → Bool
resizes winch = true
resizes _ = false

abbrev pub stops : Signal → Bool
stops tstp = true
stops _ = false

abbrev pub some_of : (Signal → Bool) → List Signal → Bool
some_of test [] = false
some_of test (sig ∷ sigs) = test sig || some_of test sigs

-- The signals that are to be handled, as the program keeps them
abbrev pub flags : Bool → Bool → Bool → ℕ
flags e r s =
    (if e then flag_term else 0) + ((if r then flag_winch else 0) + (if s then flag_tstp else 0))

eight :
    (P : Bool → Bool → Bool → Type 0)
    → P false false false
    → P false false true
    → P false true false
    → P false true true
    → P true false false
    → P true false true
    → P true true false
    → P true true true
    → (e r s : Bool) → P e r s
eight P a b c d e f g h false false false = a
eight P a b c d e f g h false false true = b
eight P a b c d e f g h false true false = c
eight P a b c d e f g h false true true = d
eight P a b c d e f g h true false false = e
eight P a b c d e f g h true false true = f
eight P a b c d e f g h true true false = g
eight P a b c d e f g h true true true = h

abbrev Added : Signal → Bool → Bool → Bool → Type 0
Added sig e r s =
    signal_handler sig (flags e r s) ≡ flags (e || ends sig) (r || resizes sig) (s || stops sig)

add_signal : (sig : Signal) (e r s : Bool) → Added sig e r s
unfolding signal_handler
add_signal hup = eight (Added hup) refl refl refl refl refl refl refl refl
add_signal term = eight (Added term) refl refl refl refl refl refl refl refl
add_signal quit = eight (Added quit) refl refl refl refl refl refl refl refl
add_signal winch = eight (Added winch) refl refl refl refl refl refl refl refl
add_signal tstp = eight (Added tstp) refl refl refl refl refl refl refl refl
add_signal other = eight (Added other) refl refl refl refl refl refl refl refl

or_assoc : (a b c : Bool) → ((a || b) || c) ≡ (a || (b || c))
or_assoc true b c = refl
or_assoc false b c = refl

or_false : (a : Bool) → (a || false) ≡ a
or_false true = refl
or_false false = refl

pub take_signals-flags :
    (sigs : List Signal) (e r s : Bool)
    → take_signals sigs (flags e r s)
      ≡ flags (e || some_of ends sigs) (r || some_of resizes sigs) (s || some_of stops sigs)
unfolding take_signals
take_signals-flags [] e r s = rw (or_false e, or_false r, or_false s)
take_signals-flags (sig ∷ sigs) e r s = rw (
  add_signal sig e r s,
  take_signals-flags sigs (e || ends sig) (r || resizes sig) (s || stops sig),
  or_assoc e (ends sig) (some_of ends sigs),
  or_assoc r (resizes sig) (some_of resizes sigs),
  or_assoc s (stops sig) (some_of stops sigs),
)

and_then_congr :
    {A B : Type 0} (r : Outcome A × Running) (f g : A → Act Running B)
    → ((a : A) → f a r.1 ≡ g a r.1)
    → and_then r f ≡ and_then r g
and_then_congr (ok a, m) f g h = h a
and_then_congr (failed, m) f g h = refl
and_then_congr (fault, m) f g h = refl
and_then_congr (died, m) f g h = refl
and_then_congr (looping, m) f g h = refl

module _ (p : Platform) (fuel : ℕ) (d : Device) (t : Terminal Drawn) where
  settle_signals :
      (r : Outcome Bool × Program Drawn) (n : ℕ) (modes : Modes)
      → (and_then {A = Bool}
          (r.0, record { program = r.1; signals = n; modes = modes })
          (λ b. settle)).1.signals
        ≡ n
  settle_signals (ok b, m) n modes = refl
  settle_signals (failed, m) n modes = refl
  settle_signals (fault, m) n modes = refl
  settle_signals (died, m) n modes = refl
  settle_signals (looping, m) n modes = refl

  -- The program stops, and no signal is left to handle.
  abbrev pub stopped : Act Running (Unit {0})
  stopped m = (ok tt, record m { signals = 0; modes = handle_tstp m.modes })

  abbrev pub when : Bool → Act Running (Unit {0}) → Act Running (Unit {0})
  when b act m = if b then act m else (ok tt, m)

  -- What a round does: it ends the program, or tells of the new size and then stops.
  abbrev pub taken : ℕ → ℕ → Bool → Bool → Bool → Running → Outcome Next × Running
  taken rows cols e r s m =
      if e
      then done d 1 (record m { signals = flags false r s })
      else (do when r (winch_signal p fuel d t rows cols); when s stopped; pure goes_on)
          (record m { signals = flags false false s })

  -- Behind the new size
  tail_signals :
      (s : Bool) (m : Running)
      → m.signals ≡ flags false false s
      → (handle_flag p fuel d t flag_tstp (on_modes handle_tstp) >> pure goes_on) m
        ≡ (when s stopped >> pure goes_on) m
  tail_signals true m h = rw h
  tail_signals false m h = rw h

  resized_then :
      (rows cols : ℕ) (s : Bool) (m : Running)
      → m.signals ≡ flags false false s
      → (winch_signal p fuel d t rows cols
            >> (handle_flag p fuel d t flag_tstp (on_modes handle_tstp) >> pure goes_on))
          m
        ≡ (winch_signal p fuel d t rows cols >> (when s stopped >> pure goes_on)) m
  resized_then rows cols s m h =
      and_then_congr (winch_signal p fuel d t rows cols m) _ _
        (λ u. tail_signals s _ (settle_signals _ m.signals m.modes ∙ h))

  handled :
      (rows cols : ℕ) (m : Running) (e r s : Bool)
      → handle_signals p fuel d t rows cols (record m { signals = flags e r s })
        ≡ taken rows cols e r s m
  unfolding handle_signals
  handled rows cols m true false false = refl
  handled rows cols m true false true = refl
  handled rows cols m true true false = refl
  handled rows cols m true true true = refl
  handled rows cols m false false false = refl
  handled rows cols m false false true = refl
  handled rows cols m false true false =
      resized_then rows cols false (record m { signals = 0 }) refl
  handled rows cols m false true true =
      resized_then rows cols true (record m { signals = flag_tstp }) refl

  -- The signals that arrive in one wait are handled once, however often and in whatever order they
  -- came: one that ends the program comes first and leaves the others; else the new size is told to
  -- the screen and the clients, then the program stops, and no flag is left. Condition: no flag was
  -- left from before.
  pub round_signals :
      (clr_eos : Bytes) (sigs : List Signal) (rows cols : ℕ) (m : Running)
      → m.signals ≡ 0
      → round p fuel d t clr_eos (interrupted sigs rows cols) m
        ≡ taken rows cols (some_of ends sigs) (some_of resizes sigs) (some_of stops sigs) m
  unfolding round
  round_signals clr_eos sigs rows cols m h =
      ap (λ x. handle_signals p fuel d t rows cols (record m { signals = x }))
        (ap (take_signals sigs) h ∙ take_signals-flags sigs false false false)
      ∙ handled rows cols m (some_of ends sigs) (some_of resizes sigs) (some_of stops sigs)
