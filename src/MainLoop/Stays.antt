-- ===== src/MainLoop/Stays.antt =====
-- What is ready does not end the process from within the main loop.
use libfep.Base.{
  ℕ, ◌≡◌, Bool, true, false, Option, none, some, List, Bytes, [], ◌∷◌, length, suc, take, ◌-◌, ◌==◌,
  if◌then◌else◌, Outcome, ok, failed, fault, died, looping,
}
use libfep.Base.Act.{Act, ◌>>=◌, lift, pure}
use libfep.Base.Ends.{Ends, Ends-and_then}
use libfep.Base.Int.{pos}
use libfep.Input.{Reading}
use libfep.MainLoop.Child.{Drawn, on_drawn, pty_input}
use libfep.MainLoop.Loop.{Program, tty_input}
use libfep.MainLoop.Rounds.{ready, round}
use libfep.MainLoop.Running.{Running, Next, goes_on, returns, exits, on_program, settle}
use libfep.MainLoop.Serving.{
  Ready, unless_left, reads_key, read_keys, bytes_read, serve_clients, accept_client, keys_read,
  type_keys, serve_tty, output_read, serve_pty, serve_server, serve_rest,
}
use libfep.Screen.{Device}
use libfep.Server.{Terminal}
use libfep.Wire.{Platform}

abbrev pub Anything : Running → Type 0
Anything m = Unit

-- What is ready ends the loop, but not the process; no flag is left, as long as the loop goes on.
abbrev pub NoExit : Next → Running → Type 0
NoExit goes_on m = m.signals ≡ 0
NoExit (returns n) m = Unit
NoExit (exits code) m = ⊥

-- What leaves the flags as they are, and does not end the process.
abbrev pub Stays : {A : Type 0} → Outcome A × Running → Type 0
Stays = Ends (λ a m. m.signals ≡ 0) Anything

pub program-Stays :
    {A : Type 0} (act : Act (Program Drawn) A) (m : Running)
    → m.signals ≡ 0
    → Stays (on_program act m)
program-Stays {A = A} act m h = go (act m.program)
  where
    go : (r : Outcome A × Program Drawn) → Stays (r.0, record m { program = r.1 })
    go (ok a, program) = h
    go (failed, program) = tt
    go (fault, program) = tt
    go (died, program) = tt
    go (looping, program) = tt

pub lift-Stays : {A : Type 0} (o : Outcome A) (m : Running) → m.signals ≡ 0 → Stays (o, m)
lift-Stays (ok a) m h = h
lift-Stays failed m h = tt
lift-Stays fault m h = tt
lift-Stays died m h = tt
lift-Stays looping m h = tt

if-Ends :
    {A : Type 0} (P : A → Running → Type 0) (b : Bool) (f g : Act Running A) (m : Running)
    → Ends P Anything (f m)
    → Ends P Anything (g m)
    → Ends P Anything ((if b then f else g) m)
if-Ends P true f g m h k = h
if-Ends P false f g m h k = k

-- Behind an act that leaves the flags
pub after_Stays :
    {A B : Type 0} (Q : B → Running → Type 0) (act : Act Running A) (k : A → Act Running B)
    (m : Running)
    → Stays (act m)
    → ((a : A) (m' : Running) → m'.signals ≡ 0 → Ends Q Anything (k a m'))
    → Ends Q Anything ((act >>= k) m)
after_Stays Q act k m h hk = Ends-and_then (λ a m. m.signals ≡ 0) Q Anything (act m) k h hk

pub any-Ends : {A : Type 0} (r : Outcome A × Running) → Ends (λ a m. Unit {0}) Anything r
any-Ends (ok a, m) = tt
any-Ends (failed, m) = tt
any-Ends (fault, m) = tt
any-Ends (died, m) = tt
any-Ends (looping, m) = tt

left-NoExit :
    (rest : Act Running Next) (n : Next) (m : Running)
    → NoExit n m
    → (m.signals ≡ 0 → Ends NoExit Anything (rest m))
    → Ends NoExit Anything (unless_left rest n m)
left-NoExit rest goes_on m h k = k h
left-NoExit rest (returns n) m h k = tt
left-NoExit rest (exits code) m h k = elim h [ ]

module _ (p : Platform) (fuel : ℕ) (d : Device) (t : Terminal Drawn) (clr_eos : Bytes) where
  abbrev NoExitTty : Next × List ℕ → Running → Type 0
  NoExitTty r m = NoExit r.0 m

  keys-NoExit :
      (control : List ℕ) (r : Option Reading) (m : Running)
      → m.signals ≡ 0
      → Ends NoExitTty Anything (keys_read p fuel d t clr_eos control r m)
  keys-NoExit control none m h = tt
  keys-NoExit control (some r) m h =
      let buf = bytes_read p fuel d t clr_eos r in
      if-Ends NoExitTty (r.returned == 0) (pure (returns (pos 0), control))
        (type_keys p fuel d t clr_eos control buf) m tt
        (after_Stays NoExitTty (lift (reads_key p fuel d t clr_eos (suc (length buf)) buf)) _ m
          (lift-Stays (reads_key p fuel d t clr_eos (suc (length buf)) buf) m h)
          (λ asked m1 h1.
            after_Stays NoExitTty (on_program (tty_input p fuel t buf)) _ m1
              (program-Stays (tty_input p fuel t buf) m1 h1)
              (λ u m2 h2.
                after_Stays NoExitTty settle _ m2 (lift-Stays m2.program.fep.screen.0 m2 h2)
                  (λ v m3 h3. h3))))

  tty-NoExit :
      (w : Ready) (m : Running)
      → m.signals ≡ 0
      → Ends NoExitTty Anything (serve_tty p fuel d t clr_eos w m)
  unfolding serve_tty
  tty-NoExit w m h =
      if-Ends NoExitTty w.tty_in
        (on_program (read_keys p fuel d t clr_eos) >>= keys_read p fuel d t clr_eos w.control)
        (pure (goes_on, w.control)) m
        (after_Stays NoExitTty (on_program (read_keys p fuel d t clr_eos)) _ m
          (program-Stays (read_keys p fuel d t clr_eos) m h) (keys-NoExit w.control))
        h

  output-NoExit :
      (o : Option Bytes) (m : Running)
      → m.signals ≡ 0
      → Ends NoExit Anything (output_read p fuel d t clr_eos o m)
  output-NoExit none m h = tt
  output-NoExit (some []) m h = tt
  output-NoExit (some (c ∷ s)) m h =
      after_Stays NoExit
        (on_program (
          on_drawn (pty_input d p.buf_size d.clear_screen clr_eos (take (p.buf_size - 1) (c ∷ s)))))
        _ m
        (program-Stays
          (on_drawn (pty_input d p.buf_size d.clear_screen clr_eos (take (p.buf_size - 1) (c ∷ s))))
          m h)
        (λ u m1 h1. h1)

  served-NoExit :
      (w : Ready) (control : List ℕ) (m : Running)
      → m.signals ≡ 0
      → Ends NoExit Anything (serve_rest p fuel d t clr_eos w control m)
  unfolding serve_pty serve_server
  served-NoExit w control m h =
      let accept = accept_client p fuel d t clr_eos w.accepted in
      let clients = serve_clients p fuel d t clr_eos control in
      Ends-and_then NoExit NoExit Anything (serve_pty p fuel d t clr_eos w m) _
        (if-Ends NoExit w.pty (output_read p fuel d t clr_eos w.output) (pure goes_on) m
          (output-NoExit w.output m h) h)
        (λ next m1 h1. left-NoExit _ next m1 h1 (λ c.
          after_Stays NoExit (serve_server p fuel d t clr_eos w) _ m1
            (if-Ends (λ a m. m.signals ≡ 0) w.server (on_program accept) (pure tt) m1
              (program-Stays accept m1 c) c)
            (λ u m2 h2.
              after_Stays NoExit (on_program clients) _ m2 (program-Stays clients m2 h2) (λ u m3 h3.
                after_Stays NoExit settle _ m3 (lift-Stays m3.program.fep.screen.0 m3 h3)
                  (λ u m4 h4. h4)))))

  pub ready-NoExit :
      (w : Ready) (m : Running)
      → m.signals ≡ 0
      → Ends NoExit Anything (round p fuel d t clr_eos (ready w) m)
  unfolding round
  ready-NoExit w m h =
      Ends-and_then NoExitTty NoExit Anything (serve_tty p fuel d t clr_eos w m) _
        (tty-NoExit w m h) (λ r m1 h1. left-NoExit _ r.0 m1 h1 (served-NoExit w r.1 m1))
