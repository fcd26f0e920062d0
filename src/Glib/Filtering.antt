-- ===== src/Glib/Filtering.antt =====
-- libfep-glib/fepgclient.c, lines 64 to 91 and 122 to 145: the filter that emits signals. The
-- emission is GLib's, and a parameter; the handlers that are connected are the application's.
use libfep.Base.{ℕ, ◌≡◌, Bool, true, false, List, [], ◌∷◌, ◌++◌, failed}
use libfep.Base.Act.{Act, ◌>>=◌, lift, pure}
use libfep.Glib.Events.{
  Blocks, GEvent, nothing, key, resize, Allocator, bytes_at, event_copy, sizeof_key, sizeof_resize,
}
use libfep.Request.{Call, Event, key_press, resized}

-- A handler of a signal: the client calls that it makes, and whether it takes the event.
abbrev pub Handler : Type 0 → Type 0
Handler A = A → List Call × Bool

-- `g_signal_emit` with `g_signal_accumulator_true_handled`, and the handler of the class last
pub record Emission (A : Type 0) : Type 0 where
  pub emit : List (Handler A) → Handler A → A → List Call × Bool
  pub emit-nil : (last : Handler A) (a : A) → emit [] last a ≡ last a
  pub emit-true :
      (h : Handler A) (hs : List (Handler A)) (last : Handler A) (a : A)
      → (h a).1 ≡ true
      → emit (h ∷ hs) last a ≡ h a
  pub emit-false :
      (h : Handler A) (hs : List (Handler A)) (last : Handler A) (a : A)
      → (h a).1 ≡ false
      → emit (h ∷ hs) last a ≡ ((h a).0 ++ (emit hs last a).0, (emit hs last a).1)

-- `g_signal_emit` of a signal without a result
pub record Notice (A : Type 0) : Type 0 where
  pub notify : List (A → List Call) → (A → List Call) → A → List Call
  pub notify-nil : (last : A → List Call) (a : A) → notify [] last a ≡ last a
  pub notify-cons :
      (h : A → List Call) (hs : List (A → List Call)) (last : A → List Call) (a : A)
      → notify (h ∷ hs) last a ≡ h a ++ notify hs last a

-- What GLib does for the three signals
pub record Glib : Type 0 where
  pub alloc : Allocator
  pub filter_event : Emission Event
  pub filter_key_event : Emission (ℕ × ℕ)
  pub resized_signal : Notice (ℕ × ℕ)

-- What the application has connected to them
pub record Connected : Type 0 where
  pub on_event : List (Handler Event)
  pub on_key : List (Handler (ℕ × ℕ))
  pub on_resized : List (ℕ × ℕ → List Call)

-- `fep_g_client_real_filter_event` and the two like it
abbrev pub real_filter_event : Handler Event
real_filter_event event = ([], false)

abbrev pub real_filter_key_event : Handler (ℕ × ℕ)
real_filter_key_event pair = ([], false)

abbrev pub real_resized : ℕ × ℕ → List Call
real_resized pair = []

-- What a handler reads of an event; one of no kind is never sent.
abbrev pub seen : GEvent → Act Blocks Event
seen nothing = lift failed
seen (key keyval modifiers source n) = do s ← bytes_at source n; pure (key_press keyval modifiers s)
seen (resize cols rows) = pure (resized cols rows)

abbrev pub int_of_bool : Bool → ℕ
int_of_bool true = 1
int_of_bool false = 0

-- The size of the object on the stack of the client library that an event is passed in
abbrev pub size_on_stack : Event → ℕ
size_on_stack (key_press keyval modifiers s) = sizeof_key
size_on_stack (resized cols rows) = sizeof_resize

module _ (glib : Glib) (connected : Connected) where
  -- The signal for the kind of event, behind the calls that were made for `filter-event`
  abbrev pub emit_kind : GEvent → List Call → List Call × Bool
  emit_kind nothing calls = (calls, false)
  emit_kind (key keyval modifiers source n) calls =
      let (more, retval) =
        glib.filter_key_event.emit connected.on_key real_filter_key_event (keyval, modifiers) in
      (calls ++ more, retval)
  emit_kind (resize cols rows) calls =
      (calls ++ glib.resized_signal.notify connected.on_resized real_resized (cols, rows), false)

  abbrev pub if_not_taken : GEvent → List Call × Bool → List Call × Bool
  if_not_taken gevent (calls, true) = (calls, true)
  if_not_taken gevent (calls, false) = emit_kind gevent calls

  -- `event_filter` of fepgclient.c, with the calls that the handlers make, on an event that lies in
  -- an object of `size` bytes. The copy of the event is not released.
  unfoldable pub g_event_filter : ℕ → GEvent → Act Blocks (List Call × ℕ)
  g_event_filter size event = do
    gevent ← event_copy glib.alloc size event
    shown ← seen gevent
    let (calls, retval) =
        if_not_taken gevent (glib.filter_event.emit connected.on_event real_filter_event shown)
    pure (calls, int_of_bool retval)
