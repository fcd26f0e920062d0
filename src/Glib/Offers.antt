-- ===== src/Glib/Offers.antt =====
-- Which handlers of the application get to see an event.
use libfep.Base.{
  ℕ, ◌≡◌, refl, ap, ◌∙◌, Bool, true, false, Bool-cases, inl, inr, Option, none, some, suc, take_all,
  leb, ◌==◌, arith, List, Bytes, [], ◌∷◌, ◌++◌, map, append_assoc, length, Outcome, ok, fault,
  if◌then◌else◌,
}
use libfep.Glib.Events.{
  Blocks, block_at, replaced, GEvent, key, resize, sizeof_event, own_source, event_copy,
}
use libfep.Glib.Filtering.{
  Handler, Emission, Notice, Glib, Connected, int_of_bool, if_not_taken, seen, size_on_stack,
  g_event_filter,
}
use libfep.Request.{Call, Event, key_press, resized}

-- The handlers in turn, until one takes the event: the calls of those that were asked
unfoldable pub in_turn : {A : Type 0} → List (Handler A) → A → List Call × Bool
in_turn [] a = ([], false)
in_turn (h ∷ hs) a = let rest = in_turn hs a in if (h a).1 then h a else ((h a).0 ++ rest.0, rest.1)

-- All of them
in_all : {A : Type 0} → List (A → List Call) → A → List Call
in_all [] a = []
in_all (h ∷ hs) a = h a ++ in_all hs a

-- The handlers that an event is for, in the order in which they are asked: those for any event, and
-- then those for its kind. A handler of `resized` takes nothing.
unfoldable pub handlers_for : Connected → Event → List (Handler Event)
handlers_for c (key_press keyval modifiers s) =
    c.on_event ++ map (λ h event. h (keyval, modifiers)) c.on_key
handlers_for c (resized cols rows) =
    c.on_event ++ map (λ h event. (h (cols, rows), false)) c.on_resized

-- The calls of the handlers, and whether one of them took the event
unfoldable pub offered : Connected → Event → List Call × ℕ
offered c event = let r = in_turn (handlers_for c event) event in (r.0, int_of_bool r.1)

-- The result of the filter on an event that is passed by the client library: only the object of a key
-- event is as large as what is copied.
abbrev pub offered_on_stack : Connected → Event → Outcome (List Call × ℕ)
offered_on_stack c (key_press keyval modifiers s) = ok (offered c (key_press keyval modifiers s))
offered_on_stack c (resized cols rows) = fault

-- The event is what the block and the numbers say.
abbrev pub Lends : Event → GEvent → Blocks → Type 0
Lends (key_press keyval modifiers s) event blocks =
    (a : ℕ) × (event ≡ key keyval modifiers (some a) (length s)) × (block_at blocks a ≡ some s)
Lends (resized cols rows) event blocks = event ≡ resize cols rows

abbrev then_ask : List Call × Bool → List Call × Bool → List Call × Bool
then_ask (calls, true) r = (calls, true)
then_ask (calls, false) r = (calls ++ r.0, r.1)

then_calls :
    (calls : List Call) (r s : List Call × Bool)
    → (calls ++ (then_ask r s).0, (then_ask r s).1) ≡ then_ask (calls ++ r.0, r.1) s
then_calls calls (more, true) s = refl
then_calls calls (more, false) s = rw append_assoc refl

in_turn-append :
    {A : Type 0} (xs ys : List (Handler A)) (a : A)
    → in_turn (xs ++ ys) a ≡ then_ask (in_turn xs a) (in_turn ys a)
unfolding in_turn
in_turn-append [] ys a = refl
in_turn-append (h ∷ xs) ys a = elim (Bool-cases (h a).1) [
  | inl yes_taken ↦ rw yes_taken refl
  | inr no_taken ↦
      rw (no_taken, in_turn-append xs ys a) (then_calls (h a).0 (in_turn xs a) (in_turn ys a))
]

in_turn-key :
    (hs : List (Handler (ℕ × ℕ))) (pair : ℕ × ℕ) (event : Event)
    → in_turn (map (λ h e. h pair) hs) event ≡ in_turn hs pair
unfolding in_turn
in_turn-key [] pair event = refl
in_turn-key (h ∷ hs) pair event = rw (in_turn-key hs pair event) refl

in_turn-resized :
    (hs : List (ℕ × ℕ → List Call)) (pair : ℕ × ℕ) (event : Event)
    → in_turn (map (λ h e. (h pair, false)) hs) event ≡ (in_all hs pair, false)
unfolding in_turn in_all
in_turn-resized [] pair event = refl
in_turn-resized (h ∷ hs) pair event = rw (in_turn-resized hs pair event) refl

emit-in_turn :
    {A : Type 0} (e : Emission A) (hs : List (Handler A)) (a : A)
    → e.emit hs (λ a. ([], false)) a ≡ in_turn hs a
unfolding in_turn
emit-in_turn e [] a = e.emit-nil (λ a. ([], false)) a
emit-in_turn e (h ∷ hs) a = elim (Bool-cases (h a).1) [
  | inl yes_taken ↦ e.emit-true h hs (λ a. ([], false)) a yes_taken ∙ rw yes_taken refl
  | inr no_taken ↦
      e.emit-false h hs (λ a. ([], false)) a no_taken ∙ rw (no_taken, emit-in_turn e hs a) refl
]

notify-in_all :
    {A : Type 0} (n : Notice A) (hs : List (A → List Call)) (a : A)
    → n.notify hs (λ a. []) a ≡ in_all hs a
unfolding in_all
notify-in_all n [] a = n.notify-nil (λ a. []) a
notify-in_all n (h ∷ hs) a = n.notify-cons h hs (λ a. []) a ∙ ap (◌++◌ (h a)) (notify-in_all n hs a)

module _ (glib : Glib) (connected : Connected) where
  not_taken-key :
      (keyval modifiers n : ℕ) (source : Option ℕ) (r : List Call × Bool)
      → if_not_taken glib connected (key keyval modifiers source n) r
        ≡ then_ask r (in_turn connected.on_key (keyval, modifiers))
  not_taken-key keyval modifiers n source (calls, true) = refl
  not_taken-key keyval modifiers n source (calls, false) =
      rw (emit-in_turn glib.filter_key_event connected.on_key (keyval, modifiers)) refl

  not_taken-resize :
      (cols rows : ℕ) (r : List Call × Bool)
      → if_not_taken glib connected (resize cols rows) r
        ≡ then_ask r (in_all connected.on_resized (cols, rows), false)
  not_taken-resize cols rows (calls, true) = refl
  not_taken-resize cols rows (calls, false) =
      rw (notify-in_all glib.resized_signal connected.on_resized (cols, rows)) refl

  -- What is emitted for a copy that reads as the event
  emitted :
      (event : Event) (copy : GEvent) (r : List Call × Bool)
      → if_not_taken glib connected copy (in_turn connected.on_event event) ≡ r
      → in_turn (handlers_for connected event) event ≡ r
      → (blocks blocks' : Blocks) (gevent : GEvent)
      → own_source glib.alloc gevent blocks ≡ (ok copy, blocks')
      → seen copy blocks' ≡ (ok event, blocks')
      → (size : ℕ)
      → (g_event_filter glib connected size gevent blocks).0
        ≡ (if leb sizeof_event size then ok (offered connected event) else fault)
  unfolding g_event_filter event_copy offered
  emitted event copy r e f blocks blocks' gevent copied read size =
      elim (Bool-cases (leb sizeof_event size)) [
        | inl whole ↦
            rw (whole, copied, read, emit-in_turn glib.filter_event connected.on_event event, e, f)
              refl
        | inr part ↦ rw part refl
      ]

  copied_key :
      (keyval modifiers a : ℕ) (s : Bytes) (blocks : Blocks)
      → block_at blocks a ≡ some s
      → (source : Option ℕ) × (blocks' : Blocks) × (own_source glib.alloc
            (key keyval modifiers (some a) (length s))
            blocks
          ≡ (ok (key keyval modifiers source (length s)), blocks'))
        × (seen (key keyval modifiers source (length s)) blocks'
            ≡ (ok (key_press keyval modifiers s), blocks'))
  copied_key keyval modifiers a [] blocks e =
      (none, blocks, rw (glib.alloc.memdup-zero (some a) blocks) refl, refl)
  copied_key keyval modifiers a (c ∷ s) blocks e =
      let n = suc (length s) in
      let whole : leb n n ≡ true = ground arith in
      let all = take_all n (c ∷ s) (omega arith) in
      let (b, unused, copied) =
        glib.alloc.memdup-suc a (length s) (c ∷ s) blocks (rw (e, whole, all) refl) in
      let here : (b == b) ≡ true = ground arith in
      (some b, replaced b (some (c ∷ s)) blocks, rw copied refl, rw (here, whole, all) refl)

  filter-offered_in :
      (event : Event) (gevent : GEvent) (blocks : Blocks)
      → Lends event gevent blocks
      → (size : ℕ)
      → (g_event_filter glib connected size gevent blocks).0
        ≡ (if leb sizeof_event size then ok (offered connected event) else fault)
  unfolding handlers_for
  filter-offered_in (key_press keyval modifiers s) gevent blocks (a, same, e) =
      let (source, blocks', copied, read) = copied_key keyval modifiers a s blocks e in
      let event = key_press keyval modifiers s in
      let asked : in_turn (handlers_for connected event) event
          ≡ then_ask (in_turn connected.on_event event)
              (in_turn connected.on_key (keyval, modifiers)) =
        in_turn-append connected.on_event _ event
        ∙ ap (then_ask (in_turn connected.on_event event))
            (in_turn-key connected.on_key (keyval, modifiers) event) in
      emitted event (key keyval modifiers source (length s)) _
        (not_taken-key keyval modifiers (length s) source (in_turn connected.on_event event)) asked
        blocks blocks' gevent (ap (λ g. own_source glib.alloc g blocks) same ∙ copied) read
  filter-offered_in (resized cols rows) gevent blocks same =
      let event = resized cols rows in
      let asked : in_turn (handlers_for connected event) event
          ≡ then_ask (in_turn connected.on_event event)
              (in_all connected.on_resized (cols, rows), false) =
        in_turn-append connected.on_event _ event
        ∙ ap (then_ask (in_turn connected.on_event event))
            (in_turn-resized connected.on_resized (cols, rows) event) in
      emitted event (resize cols rows) _
        (not_taken-resize cols rows (in_turn connected.on_event event)) asked blocks blocks gevent
        (ap (λ g. own_source glib.alloc g blocks) same) refl

  on_stack :
      (event : Event)
      → (if leb sizeof_event (size_on_stack event) then ok (offered connected event) else fault)
        ≡ offered_on_stack connected event
  on_stack (key_press keyval modifiers s) = refl
  on_stack (resized cols rows) = refl

  -- The filter reads past the object that an event lies in, if that is smaller than a `FepGEvent`.
  -- Else it offers the event to the handlers connected to `filter-event`, in turn, and then to those
  -- of the signal for its kind, until one takes it; the calls are those of the handlers that were
  -- asked, in order, and the result is 1 if the event was taken, and else 0. A handler of `resized`
  -- is asked whatever the others of that signal do, and takes nothing. So of the events that the
  -- client library passes, each key event is offered, and each resize event is read past. Condition:
  -- the source of a key event is in a block that holds just it.
  pub g_event_filter-offered :
      (event : Event) (gevent : GEvent) (blocks : Blocks) (size : ℕ)
      → Lends event gevent blocks
      → ((g_event_filter glib connected size gevent blocks).0
          ≡ (if leb sizeof_event size then ok (offered connected event) else fault))
        × ((g_event_filter glib connected (size_on_stack event) gevent blocks).0
            ≡ offered_on_stack connected event)
  g_event_filter-offered event gevent blocks size lends = (
    filter-offered_in event gevent blocks lends size,
    filter-offered_in event gevent blocks lends (size_on_stack event) ∙ on_stack event,
  )
