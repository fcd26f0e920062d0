-- ===== src/MainLoop/Keys.antt =====
-- The keys that are typed while no client is connected.
use libfep.Base.{
  ℕ, zero, suc, subst, take-append, ◌-◌, ◌<◌, ◌≤◌, ◌≡◌, refl, sym, ap, ap₂, ◌∙◌, ◌⊎◌, inl, inr,
  Bool, true, false, Option, none, some, Bytes, [], ◌∷◌, ◌++◌, length, take, append_assoc,
  append-nil, length-append, arith, Outcome, ok, failed, fault, died, looping,
}
use libfep.Base.Act.{and_then}
use libfep.Key.Escape.{esc_to_key}
use libfep.Key.Progress.{esc_to_key_progress}
use libfep.Key.Total.{OkOrDied, esc_to_key-OkOrDied}
use libfep.MainLoop.Events.{key_request}
use libfep.MainLoop.Loop.{
  Program, key_of, relay, ask_all, ask_clients, deliver, key_loop, tty_input,
}
use libfep.Message.{ControlMessage}
use libfep.Server.{Terminal}
use libfep.Wire.{Platform, Sink, send_once, write_fd}

-- The child process has been sent these bytes.
abbrev pub typed : {S : Type 0} → Bytes → Program S → Program S
typed s m = record m {
  fep = record m.fep { pty = record { sent = m.fep.pty.sent ++ s; answers = [] } };
}

-- The bytes are sent in order, or the process dies.
abbrev pub Relayed : {S : Type 0} → Bytes → Program S → Outcome (Unit {0}) × Program S → Type 0
Relayed buf m r = (r ≡ (ok tt, typed buf m)) ⊎ (r.0 ≡ died)

-- No client is connected.
abbrev pub NoClients : {S : Type 0} → Program S → Type 0
NoClients m = m.table.n_clients ≡ 0

key_request_made :
    (keyval state : ℕ) (piece : Bytes)
    → (message : ControlMessage) × (key_request keyval state piece ≡ ok message)
unfolding key_request libfep.Message.alloc_args libfep.Message.write_uint32_arg
    libfep.Message.write_string_arg
key_request_made keyval state piece = (_, refl)

send_once_taken :
    (s : Bytes) (pty : Sink)
    → pty.answers ≡ []
    → send_once s pty ≡ record { sent = pty.sent ++ s; answers = [] }
unfolding write_fd
send_once_taken s pty h = rw h refl

typed_nil : {S : Type 0} (m : Program S) → m.fep.pty.answers ≡ [] → m ≡ typed [] m
typed_nil m h =
    ap₂ (λ u v. record m { fep = record m.fep { pty = record { sent = u; answers = v } } })
      (sym (append-nil m.fep.pty.sent)) h

typed-typed : {S : Type 0} (a b : Bytes) (m : Program S) → typed b (typed a m) ≡ typed (a ++ b) m
typed-typed a b m =
    ap (λ u. record m { fep = record m.fep { pty = record { sent = u; answers = [] } } })
      (append_assoc m.fep.pty.sent a b)

take_front : (a b : Bytes) → take (length (a ++ b) - length b) (a ++ b) ≡ a
take_front a b = take-append (length (a ++ b) - length b) a b (omega (arith, length-append a b))

module _ (p : Platform) (fuel : ℕ) {S : Type 0} (t : Terminal S) where
  ask_none :
      (request : ControlMessage) (m : Program S)
      → NoClients m
      → ask_clients p fuel t request m ≡ (ok false, m)
  unfolding ask_all
  ask_none request m h = rw h

  deliver_none :
      (piece : Bytes) (key : Bool × (ℕ × ℕ)) (m : Program S)
      → NoClients m
      → deliver p fuel t piece key m ≡ (ok false, m)
  deliver_none piece (false, key) m h = refl
  deliver_none piece (true, (keyval, state)) m h =
      let (request, made) = key_request_made keyval state piece in
      ap (λ o. and_then (o, m) (ask_clients p fuel t)) made ∙ ask_none request m h

  -- The loop behind one key: its bytes are sent, and the rest is read.
  key_sent :
      (f c : ℕ) (s piece rest : Bytes) (key : Bool × (ℕ × ℕ)) (m : Program S)
      → NoClients m
      → m.fep.pty.answers ≡ []
      → key_of c s (esc_to_key t.tigetstr (c ∷ s)) ≡ ok (key, rest)
      → take (length (c ∷ s) - length rest) (c ∷ s) ≡ piece
      → key_loop p fuel t (suc f) (c ∷ s) m ≡ key_loop p fuel t f rest (typed piece m)
  unfolding key_loop write_fd
  key_sent f c s piece rest key m alone h e cut =
      let all = take (length (c ∷ s) - length rest) (c ∷ s) in
      let next = λ (u : Unit {0}). key_loop p fuel t f rest in
      rw e (
        ap (λ r. and_then r (λ handled v. and_then (relay all handled v) next))
          (deliver_none all key m alone)
        ∙ ap (λ pty. key_loop p fuel t f rest (record m { fep = record m.fep { pty = pty } }))
            (send_once_taken all m.fep.pty h)
        ∙ ap (λ x. key_loop p fuel t f rest (typed x m)) cut)

  -- What is left to read is behind a piece that is not empty.
  abbrev Behind : ℕ → Bytes → Outcome ((Bool × (ℕ × ℕ)) × Bytes) → Type 0
  Behind c s (ok (key, rest)) = (piece : Bytes) × (piece ++ rest ≡ c ∷ s) × (1 ≤ length piece)
  Behind c s died = Unit
  Behind c s _ = ⊥

  key_of-Behind :
      (c : ℕ) (s : Bytes) (o : Outcome (Option ((ℕ × ℕ) × Bytes)))
      → esc_to_key t.tigetstr (c ∷ s) ≡ o
      → OkOrDied o
      → Behind c s (key_of c s o)
  key_of-Behind c s (ok none) e h = (c ∷ [], refl, omega arith)
  key_of-Behind c s (ok (some (key, rest))) e h =
      let (used, split, long) = esc_to_key_progress t.tigetstr (c ∷ s) e in
      (used, sym split, omega (arith, long))
  key_of-Behind c s died e h = tt
  key_of-Behind c s failed e h = h
  key_of-Behind c s fault e h = h
  key_of-Behind c s looping e h = h

  one_key :
      (f c : ℕ) (s : Bytes) (m : Program S)
      → ((rest : Bytes) (m' : Program S)
          → NoClients m'
          → m'.fep.pty.answers ≡ []
          → length rest < f
          → Relayed rest m' (key_loop p fuel t f rest m'))
      → NoClients m
      → m.fep.pty.answers ≡ []
      → length s < f
      → (o : Outcome ((Bool × (ℕ × ℕ)) × Bytes)) → key_of c s (esc_to_key t.tigetstr (c ∷ s)) ≡ o
      → Behind c s o
      → Relayed (c ∷ s) m (key_loop p fuel t (suc f) (c ∷ s) m)
  one_key f c s m again alone h l (ok (key, rest)) e (piece, split, long) =
      let cut : take (length (c ∷ s) - length rest) (c ∷ s) ≡ piece =
        subst (λ x. take (length x - length rest) x ≡ piece) split (take_front piece rest) in
      let sent = key_sent f c s piece rest key m alone h e cut in
      elim (again rest (typed piece m) alone refl
        (omega (arith, l, long, ap length split, length-append piece rest))) [
          | inl done ↦ inl (
              sent
              ∙ done
              ∙ ap (λ x. (ok tt, x)) (typed-typed piece rest m ∙ ap (λ x. typed x m) split))
          | inr dead ↦ inr (ap (λ (r : Outcome (Unit {0}) × Program S). r.0) sent ∙ dead)
        ]
  one_key f c s m again alone h l died e b = inr (unfold key_loop in rw e refl)
  one_key f c s m again alone h l failed e b = elim b [ ]
  one_key f c s m again alone h l fault e b = elim b [ ]
  one_key f c s m again alone h l looping e b = elim b [ ]

  key_loop-Relayed :
      (f : ℕ) (buf : Bytes) (m : Program S)
      → NoClients m
      → m.fep.pty.answers ≡ []
      → length buf < f
      → Relayed buf m (key_loop p fuel t f buf m)
  key_loop-Relayed zero buf m alone h l = absurd (omega (arith, l))
  key_loop-Relayed (suc f) [] m alone h l =
      inl (unfold key_loop in ap (λ x. (ok tt, x)) (typed_nil m h))
  key_loop-Relayed (suc f) (c ∷ s) m alone h l =
      one_key f c s m (key_loop-Relayed f) alone h (omega (arith, l)) _ refl (
        key_of-Behind c s (esc_to_key t.tigetstr (c ∷ s)) refl
          (esc_to_key-OkOrDied t.tigetstr (c ∷ s)))

  -- While no client is connected the loop over what was typed ends, and the child process has been
  -- sent every byte once and in order, whatever keys the bytes are read as, unless a failed
  -- assertion ends the process, if the child process takes what it is given.
  pub tty_input-Relayed :
      (buf : Bytes) (m : Program S)
      → NoClients m
      → m.fep.pty.answers ≡ []
      → Relayed buf m (tty_input p fuel t buf m)
  unfolding tty_input
  tty_input-Relayed buf m alone h = key_loop-Relayed (suc (length buf)) buf m alone h (omega arith)
