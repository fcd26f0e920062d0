-- ===== src/Tests/Bindings.antt =====
-- The GObject client, with a GLib that does what its documentation says, at fixed inputs.
use libfep.Base.{
  ℕ, zero, suc, max, ◌≤◌, ◌≡◌, refl, Bool, true, false, Option, none, some, List, Bytes, [], ◌∷◌,
  ◌++◌, length, ◌==◌, leb, if◌then◌else◌, Outcome, ok, failed, fault, died, looping, arith,
}
use libfep.Base.Act.{Act, ◌>>◌}
use libfep.Client.Calls.{encode_calls}
use libfep.Client.Dispatch.{at_rest}
use libfep.Client.Opening.{System, new_client}
use libfep.Glib.Copies.{event_copy-event_free}
use libfep.Glib.Dispatching.{IsEventFilter, g_dispatch-in_turn}
use libfep.Glib.Events.{
  Blocks, block_at, replaced, Allocator, GEvent, key, event_copy, event_free, bytes_at,
  sizeof_event,
}
use libfep.Glib.Filtering.{Handler, Emission, Glib, Connected, size_on_stack, g_event_filter}
use libfep.Glib.Objects.{GClient, Construction, g_client_new, g_dispatch}
use libfep.Glib.Offers.{in_turn, handlers_for, offered, offered_on_stack, g_event_filter-offered}
use libfep.Glib.Opening.{object_around, g_client_new_lem}
use libfep.Message.{le32}
use libfep.Request.{Call, send_text, Event, key_press}
use libfep.Tests.{linux}
use libfep.Wire.{bytes}
use libfep.Wire.Send.{encode, open_sink}

above : Blocks → ℕ
above [] = 0
above ((b, v) ∷ blocks) = max (suc b) (above blocks)

above-none : (blocks : Blocks) (n : ℕ) → above blocks ≤ n → block_at blocks n ≡ none
unfolding above
above-none [] n h = refl
above-none ((b, v) ∷ blocks) n h =
    let other : (n == b) ≡ false = ground arith in rw other (above-none blocks n (omega arith))

new_block : Outcome Bytes × Blocks → Outcome (Option ℕ) × Blocks
new_block (ok s, blocks) = (ok (some (above blocks)), replaced (above blocks) (some s) blocks)
new_block (failed, blocks) = (failed, blocks)
new_block (fault, blocks) = (fault, blocks)
new_block (died, blocks) = (died, blocks)
new_block (looping, blocks) = (looping, blocks)

dup : Option ℕ → ℕ → Act Blocks (Option ℕ)
dup source zero blocks = (ok none, blocks)
dup source (suc n) blocks = new_block (bytes_at source (suc n) blocks)

free_in : ℕ → Option Bytes → Act Blocks (Unit {0})
free_in a none blocks = (fault, blocks)
free_in a (some s) blocks = (ok tt, replaced a none blocks)

free_at : Option ℕ → Act Blocks (Unit {0})
free_at none blocks = (ok tt, blocks)
free_at (some a) blocks = free_in a (block_at blocks a) blocks

abbrev highest : Allocator
highest = record {
  memdup = dup;
  memdup-zero = λ source blocks. unfold dup in refl;
  memdup-suc = λ a n s blocks e. (
    above blocks,
    above-none blocks (above blocks) (omega arith),
    unfold dup in rw e (unfold new_block in refl),
  );
  free = free_at;
  free-none = λ blocks. unfold free_at in refl;
  free-some = λ a s blocks e. unfold free_at in rw e (unfold free_in in refl);
}

emit_each : {A : Type 0} → List (Handler A) → Handler A → A → List Call × Bool
emit_each [] last a = last a
emit_each (h ∷ hs) last a =
    let rest = emit_each hs last a in if (h a).1 then h a else ((h a).0 ++ rest.0, rest.1)

abbrev emission : {A : Type 0} → Emission A
emission = record {
  emit = emit_each;
  emit-nil = λ last a. unfold emit_each in refl;
  emit-true = λ h hs last a e. unfold emit_each in rw e refl;
  emit-false = λ h hs last a e. unfold emit_each in rw e refl;
}

notify_each : {A : Type 0} → List (A → List Call) → (A → List Call) → A → List Call
notify_each [] last a = last a
notify_each (h ∷ hs) last a = h a ++ notify_each hs last a

abbrev glib : Glib
glib = record {
  alloc = highest;
  filter_event = emission;
  filter_key_event = emission;
  resized_signal = record {
    notify = notify_each;
    notify-nil = λ last a. unfold notify_each in refl;
    notify-cons = λ h hs last a. unfold notify_each in refl;
  };
}

-- One handler says "x" for each event and takes none, and one takes the key "a".
abbrev says_x : Handler Event
says_x event = (send_text (b'x' ∷ []) ∷ [], false)

abbrev takes_a : Handler (ℕ × ℕ)
takes_a (keyval, modifiers) = ([], keyval == 97)

abbrev two_handlers : Connected
two_handlers = record { on_event = says_x ∷ []; on_key = takes_a ∷ []; on_resized = [] }

abbrev key_a : GEvent
key_a = key 97 0 (some 4) 1

abbrev a_at_4 : Blocks
a_at_4 = (4, some (97 ∷ [])) ∷ []

event_copy-event_free_example :
    (b : ℕ) × (blocks' : Blocks) × (event_copy highest sizeof_event key_a a_at_4
      ≡ (ok (key 97 0 (some b) 1), blocks'))
    × (((event_free highest key_a >> bytes_at (some b) 1) blocks').0 ≡ ok (97 ∷ []))
    × (((event_free highest (key 97 0 (some b) 1) >> bytes_at (some 4) 1) blocks').0 ≡ ok (97 ∷ []))
event_copy-event_free_example = event_copy-event_free highest 97 0 4 97 [] a_at_4 refl

g_event_filter-offered_example :
    ((g_event_filter glib two_handlers 31 key_a a_at_4).0 ≡ (
      if leb sizeof_event 31 then ok (offered two_handlers (key_press 97 0 (97 ∷ []))) else fault))
    × ((g_event_filter glib two_handlers (size_on_stack (key_press 97 0 (97 ∷ []))) key_a a_at_4).0
        ≡ offered_on_stack two_handlers (key_press 97 0 (97 ∷ [])))
g_event_filter-offered_example =
    g_event_filter-offered glib two_handlers (key_press 97 0 (97 ∷ [])) key_a a_at_4 31
      (4, refl, refl)

offered-IsEventFilter : IsEventFilter glib two_handlers (offered two_handlers)
offered-IsEventFilter k m a s blocks e =
    let event = key_press k m s in
    let gevent = key k m (some a) (length s) in
    let (sized, shown) =
      g_event_filter-offered glib two_handlers event gevent blocks 0 (a, refl, e) in
    shown

g_dispatch-in_turn_example :
    g_dispatch linux 9 (offered two_handlers) (record {
      client =
          some (at_rest (bytes (encode 6 (le32 97 ∷ le32 0 ∷ (97 ∷ []) ∷ []) ++ []) ∷ []) [] false);
      address = none;
      is_freed = false;
    })
    ≡ (
      ok true,
      record {
        client = some (
            at_rest
              (bytes [] ∷ [])
              (encode 8 ((6 ∷ []) ∷ le32 1 ∷ []) ++ encode_calls (send_text (b'x' ∷ []) ∷ []))
              false);
        address = none;
        is_freed = false;
      },
    )
unfolding in_turn handlers_for
g_dispatch-in_turn_example =
    g_dispatch-in_turn linux 7 glib two_handlers (offered two_handlers) none false 97 0 (97 ∷ []) []
      [] [] false offered-IsEventFilter (omega arith) (omega arith) (omega arith)
      ((omega arith, omega arith, omega arith, omega arith), omega arith, omega arith) (omega arith)
      (omega arith) ((omega arith, tt), tt)

-- An object is kept if it can be initialised, else given up.
given_up : Outcome (Unit {0}) × GClient → Outcome (Option GClient)
given_up (ok u, m) = ok none
given_up (failed, m) = failed
given_up (fault, m) = fault
given_up (died, m) = died
given_up (looping, m) = looping

built : Act GClient (Unit {0}) → Outcome Bool × GClient → Outcome (Option GClient)
built final (ok true, m) = ok (some m)
built final (ok false, m) = given_up (final m)
built final (failed, m) = failed
built final (fault, m) = fault
built final (died, m) = died
built final (looping, m) = looping

abbrev construction : Construction
construction = record {
  construct = λ init final m. built final (init m);
  construct-true = λ init final m m' e. rw e (unfold built in refl);
  construct-false =
      λ init final m m' m'' e f. rw e (unfold built in rw f (unfold given_up in refl));
  construct-fault =
      λ init final m m' m'' e f. rw e (unfold built in rw f (unfold given_up in refl));
}

abbrev reachable : System
reachable = record {
  control_sock = none;
  path_size = 5;
  has_socket = true;
  connect = λ path. some ([], open_sink []);
}

g_client_new_lem_example : g_client_new construction reachable (some (b'/' ∷ b's' ∷ [])) ≡ (
    if leb 5 3
    then fault
    else ok (object_around (b'/' ∷ b's' ∷ []) (some (new_client ([], open_sink [])))))
g_client_new_lem_example = g_client_new_lem construction reachable (b'/' ∷ b's' ∷ [])
