-- ===== src/Client/Steps.antt =====
-- The states of a client between two calls of the library: no handler runs and nothing is queued.
use libfep.Base.{
  ℕ, ◌≡◌, ◌⊎◌, subst, ◌∙◌, refl, true, false, Bool-cases, inl, inr, Option, List, [], ◌∷◌, Outcome,
  ok, failed, fault, died, looping,
}
use libfep.Base.Ends.{Ends, Ends-and_then, Ends-failed, Ends-weaken}
use libfep.Client.Handling.{handle-Handling}
use libfep.Client.{
  Client, Filter, ignoring, receiving, has_handler, write_message, submit, perform, handle, flush,
  respond, dispatch,
}
use libfep.Client.Calls.{message_for, message_of-message_for}
use libfep.Message.{ControlMessage}
use libfep.Request.{Call}
use libfep.Wire.{Platform, Arrival, Sink, read_control_message, write_control_message}

-- No handler runs and nothing is queued.
pub record IsQuiet (c : Client) : Type 0 where
  pub idle : c.filter_running ≡ false
  pub flushed : c.messages ≡ []

-- A write of a message never counts as a failure, and leaves the rest of the client alone.
abbrev Written : Client → Outcome (Unit {0}) × Client → Type 0
Written c = Ends (λ _ d. (d.filter_running ≡ c.filter_running) × (d.messages ≡ c.messages)) (λ _. ⊥)

ignoring-Written : (c : Client) (r : Outcome (Unit {0}) × Sink) → Written c (ignoring r c)
ignoring-Written c (ok u, sink) = (refl, refl)
ignoring-Written c (failed, sink) = (refl, refl)
ignoring-Written c (fault, sink) = tt
ignoring-Written c (died, sink) = tt
ignoring-Written c (looping, sink) = tt

module _ (p : Platform) (fuel : ℕ) where
  write_message-Written : (m : ControlMessage) (c : Client) → Written c (write_message p fuel m c)
  unfolding write_message
  write_message-Written m c = ignoring-Written c (write_control_message fuel m c.control)

  flush-IsQuiet :
      (ms : List ControlMessage) (c : Client)
      → c.filter_running ≡ false
      → c.messages ≡ ms
      → Ends (λ _. IsQuiet) (λ _. ⊥) (flush p fuel ms c)
  unfolding flush
  flush-IsQuiet [] c h e = record { idle = h; flushed = e }
  flush-IsQuiet (m ∷ ms) c h e =
      Ends-and_then _ _ _ (write_message p fuel m (record c { messages = ms })) _
        (write_message-Written m (record c { messages = ms }))
        (λ u d w. flush-IsQuiet ms d (w.0 ∙ h) w.1)

  respond-IsQuiet :
      (filter : Option Filter) (request : ControlMessage) (c : Client)
      → Ends (λ _. IsQuiet) (λ _. ⊥) (respond p fuel filter request c)
  unfolding respond
  respond-IsQuiet filter request c =
      let started = record c { filter_running = true } in
      Ends-and_then _ _ _ (handle p fuel filter request started) _
        (handle-Handling p fuel filter request started refl)
        (λ response d k.
          Ends-and_then _ _ _ (write_message p fuel response d) _ (write_message-Written response d)
            (λ u d' w. flush-IsQuiet d'.messages (record d' { filter_running = false }) refl refl))

  dispatch-IsQuiet :
      (filter : Option Filter) (c : Client)
      → IsQuiet c
      → Ends (λ _. IsQuiet) IsQuiet (dispatch p fuel filter c)
  unfolding dispatch
  dispatch-IsQuiet filter c q =
      Ends-and_then (λ _. IsQuiet) _ _ (receiving (read_control_message p fuel) c) _
        (received (read_control_message p fuel c.incoming))
        (λ request d k. elim (Bool-cases (has_handler request.command)) [
          | inl e ↦
              rw e (
                Ends-failed _ _ (respond p fuel filter request d)
                  (respond-IsQuiet filter request d))
          | inr e ↦ rw e k
        ])
    where
      received :
          (r : Outcome ControlMessage × List Arrival)
          → Ends (λ _. IsQuiet) IsQuiet (r.0, record c { incoming = r.1 })
      received (ok m, fd) = record { idle = q.idle; flushed = q.flushed }
      received (failed, fd) = record { idle = q.idle; flushed = q.flushed }
      received (fault, fd) = tt
      received (died, fd) = tt
      received (looping, fd) = tt

  perform-IsQuiet :
      (call : Call) (c : Client) → IsQuiet c → Ends (λ _. IsQuiet) (λ _. ⊥) (perform p fuel call c)
  unfolding perform submit
  perform-IsQuiet call c q = rw (message_of-message_for call) (
      rw q.idle (
        let d = record c { filter_running = false } in
        Ends-weaken _ (λ _. IsQuiet) _ (write_message p fuel (message_for call) d)
          (write_message-Written (message_for call) d)
          (λ u e w. record { idle = w.0; flushed = w.1 ∙ q.flushed })))

  -- What the application and the peer do: a call, a dispatch with some filter, and bytes or errors
  -- that will arrive. A step has returned, with 0 or with -1.
  pub data Step : Client → Client → Type 0 where
    call :
        (k : Call) {c d : Client} (r : Outcome (Unit {0}))
        → perform p fuel k c ≡ (r, d)
        → (r ≡ ok tt) ⊎ (r ≡ failed)
        → Step c d
    event :
        (filter : Option Filter) {c d : Client} (r : Outcome (Unit {0}))
        → dispatch p fuel filter c ≡ (r, d)
        → (r ≡ ok tt) ⊎ (r ≡ failed)
        → Step c d
    arrive : (fd : List Arrival) {c d : Client} → d ≡ record c { incoming = fd } → Step c d

  pub data Reach (c : Client) : Client → Type 0 where
    here : Reach c c
    next : {d e : Client} → Reach c d → Step d e → Reach c e

  returned :
      (d : Client) (r : Outcome (Unit {0}))
      → (r ≡ ok tt) ⊎ (r ≡ failed)
      → Ends (λ _. IsQuiet) IsQuiet (r, d)
      → IsQuiet d
  returned d r (inl e) h = subst (λ o. Ends (λ _. IsQuiet) IsQuiet (o, d)) e h
  returned d r (inr e) h = subst (λ o. Ends (λ _. IsQuiet) IsQuiet (o, d)) e h

  Step-IsQuiet : {c d : Client} → Step c d → IsQuiet c → IsQuiet d
  Step-IsQuiet (call k {c} {d} r e t) q = returned d r t (
      subst (Ends (λ _. IsQuiet) IsQuiet) e
        (Ends-failed _ _ (perform p fuel k c) (perform-IsQuiet k c q)))
  Step-IsQuiet (event filter {c} {d} r e t) q =
      returned d r t (subst (Ends (λ _. IsQuiet) IsQuiet) e (dispatch-IsQuiet filter c q))
  Step-IsQuiet (arrive fd {c} e) q = rw e (record { idle = q.idle; flushed = q.flushed })

  -- Between two calls of the library no handler runs and no message is queued, whatever the
  -- application calls, its filter does, arrives on the socket, and the writes answer: this holds of
  -- every state that is reached from one in which it holds by calls and dispatches that return.
  pub Reach-IsQuiet : {c d : Client} → IsQuiet c → Reach c d → IsQuiet d
  Reach-IsQuiet q here = q
  Reach-IsQuiet q (next r st) = Step-IsQuiet st (Reach-IsQuiet q r)
