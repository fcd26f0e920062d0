-- ===== src/MainLoop/Cooked.antt =====
-- The terminal's modes behind a stop of the program.
use libfep.Base.{
  ℕ, ◌∙◌, ap, ◌≡◌, refl, Bool, true, false, Option, none, some, List, Bytes, [], ◌∷◌, suc, take,
  ◌-◌, length, ◌==◌, if◌then◌else◌, Outcome, ok, failed, fault, died, looping,
}
use libfep.Base.Act.{Act, and_then, ◌>>=◌, lift}
use libfep.Input.{Reading}
use libfep.MainLoop.{Signal, flag_term, flag_winch, flag_tstp}
use libfep.MainLoop.Child.{Drawn, handle_winch, on_drawn, pty_input}
use libfep.MainLoop.Flags.{ends, resizes, stops, some_of, round_signals}
use libfep.Base.Int.{pos}
use libfep.MainLoop.Loop.{Program, clients, tty_input}
use libfep.MainLoop.Rounds.{Woken, interrupted, ready, woken, round, main_loop}
use libfep.MainLoop.Running.{
  Running, Next, goes_on, returns, exits, on_program, on_modes, settle, handle_tstp,
  reset_signal_handler, fep_free, done,
}
use libfep.MainLoop.Serving.{
  Ready, unless_left, cleared, bytes_read, accept_client, reads_key, read_keys, serve_clients,
  type_keys, keys_read, serve_tty, output_read, serve_pty, serve_server, serve_rest,
}
use libfep.MainLoop.Signals.{has_flag, without_flag, handle_flag, winch_signal, handle_signals}
use libfep.Screen.{Device}
use libfep.Server.{Terminal}
use libfep.Wire.{Platform}

-- The terminal is as it was before the program.
abbrev pub IsCooked : Running → Type 0
IsCooked m = m.modes.is_raw ≡ false

-- It is so afterwards, if it was before.
pub record Keeps {A : Type 0} (act : Act Running A) : Type 0 where
  pub keep : (m : Running) → IsCooked m → IsCooked (act m).1

and_then-IsCooked :
    {A B : Type 0} (r : Outcome A × Running) (k : A → Act Running B)
    → ((a : A) → Keeps (k a))
    → IsCooked r.1
    → IsCooked (and_then r k).1
and_then-IsCooked (ok a, m) k h c = (h a).keep m c
and_then-IsCooked (failed, m) k h c = c
and_then-IsCooked (fault, m) k h c = c
and_then-IsCooked (died, m) k h c = c
and_then-IsCooked (looping, m) k h c = c

bind-Keeps :
    {A B : Type 0} (act : Act Running A) (k : A → Act Running B)
    → Keeps act
    → ((a : A) → Keeps (k a))
    → Keeps (act >>= k)
bind-Keeps act k h hk = record { keep = λ m c. and_then-IsCooked (act m) k hk (h.keep m c) }

-- What only acts on the program
program-Keeps : {A : Type 0} (act : Act (Program Drawn) A) → Keeps (on_program act)
program-Keeps act = record { keep = λ m c. c }

same-Keeps : {A : Type 0} (r : Outcome A) → Keeps (lift {S = Running} r)
same-Keeps r = record { keep = λ m c. c }

settle-Keeps : Keeps settle
settle-Keeps = record { keep = λ m c. c }

left-Keeps : (next : Act Running Next) (n : Next) → Keeps next → Keeps (unless_left next n)
left-Keeps next goes_on h = record { keep = h.keep }
left-Keeps next (returns n) h = record { keep = λ m c. c }
left-Keeps next (exits code) h = record { keep = λ m c. c }

if-Keeps :
    {A : Type 0} (b : Bool) (x y : Act Running A) → Keeps x → Keeps y → Keeps (if b then x else y)
if-Keeps true x y hx hy = hx
if-Keeps false x y hx hy = hy

if-IsCooked :
    {A : Type 0} (b : Bool) (x y : Outcome A × Running)
    → IsCooked x.1
    → IsCooked y.1
    → IsCooked (if b then x else y).1
if-IsCooked true x y hx hy = hx
if-IsCooked false x y hx hy = hy

module _ (p : Platform) (fuel : ℕ) (d : Device) (t : Terminal Drawn) (clr_eos : Bytes) where
  done-IsCooked : (code : ℕ) (m : Running) → IsCooked m → IsCooked (done d code m).1
  unfolding done fep_free reset_signal_handler
  done-IsCooked code m c = and_then-IsCooked _ _ (λ u. record { keep = λ m' c'. refl }) c

  flag-Keeps :
      (flag : ℕ) (act : Act Running (Unit {0}))
      → Keeps act
      → Keeps (handle_flag p fuel d t flag act)
  flag-Keeps flag act h = record {
    keep = λ m c. if-IsCooked (has_flag flag m) _ _ (h.keep (without_flag flag m) c) c;
  }

  tstp-Keeps : Keeps (on_modes handle_tstp)
  unfolding handle_tstp
  tstp-Keeps = record { keep = λ m c. refl }

  winch-Keeps : (rows cols : ℕ) → Keeps (winch_signal p fuel d t rows cols)
  winch-Keeps rows cols =
      bind-Keeps _ _ (program-Keeps (handle_winch d p fuel t.tigetstr rows cols))
        (λ b. settle-Keeps)

  signals-Keeps : (rows cols : ℕ) → Keeps (handle_signals p fuel d t rows cols)
  unfolding handle_signals
  signals-Keeps rows cols =
      let rest =
        bind-Keeps _ _ (flag-Keeps flag_winch _ (winch-Keeps rows cols)) (λ u.
          bind-Keeps _ _ (flag-Keeps flag_tstp _ tstp-Keeps) (λ u. same-Keeps (ok goes_on))) in
      record {
        keep = λ m c.
            if-IsCooked (has_flag flag_term m) _ _ (done-IsCooked 1 (without_flag flag_term m) c)
              (rest.keep m c);
      }

  type-Keeps : (control : List ℕ) (buf : Bytes) → Keeps (type_keys p fuel d t clr_eos control buf)
  type-Keeps control buf = record {
    keep = λ m c.
        (bind-Keeps (lift (reads_key p fuel d t clr_eos (suc (length buf)) buf)) _ (same-Keeps _)
            (λ asked. bind-Keeps (on_program (tty_input p fuel t buf)) _ (program-Keeps _) (λ u.
              bind-Keeps settle
                (λ u.
                  lift
                    (ok (goes_on, if asked then cleared (clients m.program) control else control)))
                settle-Keeps (λ u. same-Keeps _)))).keep
          m c;
  }

  keys-Keeps :
      (control : List ℕ) (r : Option Reading) → Keeps (keys_read p fuel d t clr_eos control r)
  keys-Keeps control none = record { keep = λ m c. c }
  keys-Keeps control (some r) =
      if-Keeps (r.returned == 0) _ _
        (same-Keeps {A = Next × List ℕ} (ok (returns (pos 0), control)))
        (type-Keeps control (bytes_read p fuel d t clr_eos r))

  tty-Keeps : (w : Ready) → Keeps (serve_tty p fuel d t clr_eos w)
  unfolding serve_tty
  tty-Keeps w =
      let reads =
        bind-Keeps _ _ (program-Keeps (read_keys p fuel d t clr_eos)) (keys-Keeps w.control) in
      if-Keeps w.tty_in _ _ reads (same-Keeps {A = Next × List ℕ} (ok (goes_on, w.control)))

  output-Keeps : (o : Option Bytes) → Keeps (output_read p fuel d t clr_eos o)
  output-Keeps none = same-Keeps (ok (returns (pos 0)))
  output-Keeps (some []) = same-Keeps (ok (returns (pos 0)))
  output-Keeps (some (c ∷ s)) =
      bind-Keeps _ _
        (program-Keeps (
          on_drawn (pty_input d p.buf_size d.clear_screen clr_eos (take (p.buf_size - 1) (c ∷ s)))))
        (λ u. same-Keeps (ok goes_on))

  pty-Keeps : (w : Ready) → Keeps (serve_pty p fuel d t clr_eos w)
  unfolding serve_pty
  pty-Keeps w = if-Keeps w.pty _ _ (output-Keeps w.output) (same-Keeps (ok goes_on))

  server-Keeps : (w : Ready) → Keeps (serve_server p fuel d t clr_eos w)
  unfolding serve_server
  server-Keeps w =
      if-Keeps w.server _ _ (program-Keeps (accept_client p fuel d t clr_eos w.accepted))
        (same-Keeps (ok tt))

  rest-Keeps : (w : Ready) (control : List ℕ) → Keeps (serve_rest p fuel d t clr_eos w control)
  rest-Keeps w control =
      let clients =
        bind-Keeps _ _ (program-Keeps (serve_clients p fuel d t clr_eos control))
          (λ u. bind-Keeps _ _ settle-Keeps (λ u. same-Keeps (ok goes_on))) in
      bind-Keeps _ _ (pty-Keeps w)
        (λ next. left-Keeps _ next (bind-Keeps _ _ (server-Keeps w) (λ u. clients)))

  ready-Keeps : (w : Ready) → Keeps (round p fuel d t clr_eos (ready w))
  unfolding round
  ready-Keeps w = record {
    keep =
        (bind-Keeps _ _ (tty-Keeps w)
          (λ served. left-Keeps _ served.0 (rest-Keeps w served.1))).keep;
  }

  round-Keeps : (w : Woken) → Keeps (round p fuel d t clr_eos w)
  unfolding round
  round-Keeps (interrupted sigs rows cols) = record {
    keep = λ m c. (signals-Keeps rows cols).keep _ c;
  }
  round-Keeps (ready w) = ready-Keeps w

  main_loop-Keeps : (ws : List Woken) → Keeps (main_loop p fuel d t clr_eos ws)
  unfolding main_loop
  main_loop-Keeps [] = same-Keeps (ok goes_on)
  main_loop-Keeps (w ∷ ws) = record {
    keep = λ m c.
        (bind-Keeps _ _ (round-Keeps (woken p fuel d t clr_eos m.program w))
            (λ next. left-Keeps _ next (main_loop-Keeps ws))).keep
          m c;
  }

  woken_waits :
      (w : Woken) (m : Program Drawn)
      → m.fep.screen.1.tty.ttybuf.len ≡ 0
      → woken p fuel d t clr_eos m w ≡ w
  unfolding woken
  woken_waits w m empty = rw empty refl

  pub first_round :
      (w : Woken) (ws : List Woken) (m : Running) (r : Outcome Next × Running)
      → m.program.fep.screen.1.tty.ttybuf.len ≡ 0
      → round p fuel d t clr_eos w m ≡ r
      → main_loop p fuel d t clr_eos (w ∷ ws) m
        ≡ and_then r (λ next. unless_left (main_loop p fuel d t clr_eos ws) next)
  unfolding main_loop
  first_round w ws m r empty e =
      ap (λ x. and_then x (λ next. unless_left (main_loop p fuel d t clr_eos ws) next))
        (ap (λ x. round p fuel d t clr_eos x m) (woken_waits w m.program empty) ∙ e)

  -- Once the program has been stopped and continued, the terminal is not made raw again, whatever
  -- the program is woken with from then on. Conditions: the wait ended with a stop, no signal that
  -- ends the program and no change of the window's size, no flag was left from before, and no bytes
  -- from the terminal were put back.
  pub main_loop-IsCooked :
      (sigs : List Signal) (rows cols : ℕ) (ws : List Woken) (m : Running)
      → m.signals ≡ 0
      → m.program.fep.screen.1.tty.ttybuf.len ≡ 0
      → some_of stops sigs ≡ true
      → some_of ends sigs ≡ false
      → some_of resizes sigs ≡ false
      → IsCooked (main_loop p fuel d t clr_eos (interrupted sigs rows cols ∷ ws) m).1
  unfolding handle_tstp
  main_loop-IsCooked sigs rows cols ws m clear empty stop on same =
      let handled = round_signals p fuel d t clr_eos sigs rows cols m clear in
      rw (first_round (interrupted sigs rows cols) ws m _ empty handled, stop, on, same)
        ((main_loop-Keeps ws).keep _ refl)
