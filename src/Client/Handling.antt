-- ===== src/Client/Handling.antt =====
-- The handlers of a client return, whatever the request holds.
use libfep.Base.{
  Bytes, take, get_elem?, ◌>>=◌, ℕ, ◌≡◌, map, true, Bool-cases, inl, inr, Option, none, some, [],
  ◌∷◌, ◌++◌, ◌==◌, if◌then◌else◌, Outcome, ok, failed, fault, died, looping,
}
use libfep.Base.Ends.{Ends, Ends-and_then, Returns}
use libfep.Base.Act.{lift, pure}
use libfep.Client.{
  Client, Filter, run_filter, send_back, command_key_event, command_resize_event, handle,
}
use libfep.Client.Calls.{message, message_for, perform_queues, perform_all_queues}
use libfep.Client.Dispatch.{start_response_lem}
use libfep.FepString.{FepString}
use libfep.Message.{ControlMessage, read_uint32_arg, write_uint32_arg}
use libfep.Request.{
  pair_of, key_press, key_event_of, resize_event_of, send_data, Event, read_pair, source_of,
}
use libfep.Wire.{Platform}

-- No return of -1, in a state where a handler runs.
abbrev pub Handling : {A : Type 0} → Outcome A × Client → Type 0
Handling = Ends (λ _ c. c.filter_running ≡ true) (λ _. ⊥)

source_of-Returns : (request : ControlMessage) → Returns (source_of request)
unfolding source_of
source_of-Returns request = go (get_elem? request.args 2)
  where
    go :
        (o : Option FepString)
        → Returns (elim o [ none ↦ fault | some arg ↦ ok arg ] >>= λ arg. ok (take arg.len arg.str))
    go none = tt
    go (some arg) = tt

pair_of-Returns : (a b : Outcome ℕ) → Returns (pair_of a b)
pair_of-Returns (ok a) (ok b) = tt
pair_of-Returns (ok a) failed = tt
pair_of-Returns (ok a) fault = tt
pair_of-Returns (ok a) died = tt
pair_of-Returns (ok a) looping = tt
pair_of-Returns failed b = tt
pair_of-Returns fault b = tt
pair_of-Returns died b = tt
pair_of-Returns looping b = tt

read_pair-Returns : (request : ControlMessage) → Returns (read_pair request)
unfolding read_pair
read_pair-Returns request = pair_of-Returns (read_uint32_arg request 0) (read_uint32_arg request 1)

key_event_of-Returns :
    (request : ControlMessage) (pair : ℕ × ℕ) → Returns (key_event_of request pair)
key_event_of-Returns request (keyval, modifiers) =
    go (source_of request) (source_of-Returns request)
  where
    go :
        (o : Outcome Bytes)
        → Returns o
        → Returns (o >>= λ source. ok (key_press keyval modifiers source))
    go (ok source) h = tt
    go failed h = h
    go fault h = tt
    go died h = tt
    go looping h = tt

Handling-lift :
    {A : Type 0} (o : Outcome A) (c : Client)
    → Returns o
    → c.filter_running ≡ true
    → Handling (lift o c)
Handling-lift (ok a) c r h = h
Handling-lift failed c r h = r
Handling-lift fault c r h = tt
Handling-lift died c r h = tt
Handling-lift looping c r h = tt

module _ (p : Platform) (fuel : ℕ) (filter : Option Filter) where
  -- A handler returns, in a state where a handler runs.
  run_filter-Handling :
      (filter : Option Filter) (pair : Option (ℕ × ℕ)) (event_of : ℕ × ℕ → Outcome Event)
      (response : ControlMessage) (c : Client)
      → ((q : ℕ × ℕ) → Returns (event_of q))
      → ((v : ℕ) → Returns (write_uint32_arg response 1 v))
      → c.filter_running ≡ true
      → Handling (run_filter p fuel filter pair event_of response c)
  unfolding run_filter
  run_filter-Handling filter none event_of response c e w h = h
  run_filter-Handling none (some pair) event_of response c e w h = h
  run_filter-Handling (some f) (some pair) event_of response c e w h =
      Ends-and_then _ _ _ (lift (event_of pair) c) _ (Handling-lift (event_of pair) c (e pair) h)
        (λ event s k.
          let queued = record s { messages = s.messages ++ map message_for (f event).0 } in
          let written = write_uint32_arg response 1 (f event).1 in
          rw (perform_all_queues p fuel (f event).0 s k) (
            Ends-and_then _ _ _ (lift written queued) _
              (Handling-lift written queued (w (f event).1) k) (λ response' t l. l)))

  send_back-Handling :
      (request : ControlMessage) (c : Client)
      → c.filter_running ≡ true
      → Handling (send_back p fuel request c)
  unfolding send_back
  send_back-Handling request c h =
      Ends-and_then _ _ _ (lift (source_of request) c) _
        (Handling-lift (source_of request) c (source_of-Returns request) h)
        (λ source s k. rw (perform_queues p fuel (send_data source) s k) k)

  command_key_event-Handling :
      (request : ControlMessage) (c : Client)
      → c.filter_running ≡ true
      → Handling (command_key_event p fuel filter request c)
  unfolding command_key_event
  command_key_event-Handling request c h =
      Ends-and_then _ _ _ (lift (read_pair request) c) _
        (Handling-lift (read_pair request) c (read_pair-Returns request) h)
        (λ pair s k. rw (start_response_lem 6) (
          let response = message 8 ((6 ∷ []) ∷ [] ∷ []) in
          Ends-and_then _ _ _ (run_filter p fuel filter pair (key_event_of request) response s) _
            (run_filter-Handling filter pair (key_event_of request) response s
              (key_event_of-Returns request) (λ v. unfold write_uint32_arg in tt) k)
            (λ answered t l.
              Ends-and_then _ _ _
                ((if answered.1 == 0 then send_back p fuel request else pure tt) t) _
                (elim (Bool-cases (answered.1 == 0)) [
                  | inl e ↦ rw e (send_back-Handling request t l)
                  | inr e ↦ rw e l
                ])
                (λ u v m. m))))

  command_resize_event-Handling :
      (request : ControlMessage) (c : Client)
      → c.filter_running ≡ true
      → Handling (command_resize_event p fuel filter request c)
  unfolding command_resize_event
  command_resize_event-Handling request c h =
      Ends-and_then _ _ _ (lift (read_pair request) c) _
        (Handling-lift (read_pair request) c (read_pair-Returns request) h)
        (λ pair s k. rw (start_response_lem 7) (
          let response = message 8 ((7 ∷ []) ∷ [] ∷ []) in
          Ends-and_then _ _ _ (run_filter p fuel filter pair resize_event_of response s) _
            (run_filter-Handling filter pair resize_event_of response s (λ q. tt)
              (λ v. unfold write_uint32_arg in tt) k)
            (λ answered t l. l)))

  pub handle-Handling :
      (request : ControlMessage) (c : Client)
      → c.filter_running ≡ true
      → Handling (handle p fuel filter request c)
  unfolding handle
  handle-Handling request c h = elim (Bool-cases (request.command == 6)) [
    | inl e ↦ rw e (command_key_event-Handling request c h)
    | inr e ↦ rw e (command_resize_event-Handling request c h)
  ]
