-- ===== src/Glib/Dispatching.antt =====
-- `fep_g_client_dispatch` on a key event of the server, down to the bytes that the server gets.
use libfep.Base.{
  ℕ, suc, ◌^◌, ◌≤◌, ◌<◌, ◌≡◌, refl, sym, ap, subst, ◌∙◌, Bool, true, false, Option, some, List,
  Bytes, [], ◌∷◌, ◌++◌, length, All, Outcome, ok,
}
use libfep.Client.{Filter}
use libfep.Client.Calls.{arguments, encode_calls, Short}
use libfep.Client.Dispatch.{unhandled, at_rest, dispatch_key_event}
use libfep.Glib.Events.{Blocks, block_at, key, sizeof_key}
use libfep.Glib.Filtering.{Glib, Connected, int_of_bool, g_event_filter}
use libfep.Glib.Objects.{is_zero, stored, g_dispatch}
use libfep.Glib.Offers.{in_turn, handlers_for, offered, g_event_filter-offered}
use libfep.Message.{le32}
use libfep.Request.{Call, key_press}
use libfep.Wire.{Platform, Arrival, bytes}
use libfep.Wire.RoundTrip.{Fits}
use libfep.Wire.Send.{encode}

-- The filter gives what `event_filter` gives on each key event, wherever its source lies.
abbrev pub IsEventFilter : Glib → Connected → Filter → Type 0
IsEventFilter glib connected filter =
    (k m a : ℕ) (s : Bytes) (blocks : Blocks)
    → block_at blocks a ≡ some s
    → (g_event_filter glib connected sizeof_key (key k m (some a) (length s)) blocks).0
      ≡ ok (filter (key_press k m s))

ok-injective : {A : Type 0} (a b : A) → ok a ≡ ok b → a ≡ b
ok-injective a b e = ap (got a) e
  where
    got : {A : Type 0} → A → Outcome A → A
    got d (ok x) = x
    got d _ = d

-- A block for the source, at 0
abbrev pub source_only : Bytes → Blocks
source_only s = (0, some s) ∷ []

module _ (glib : Glib) (connected : Connected) (filter : Filter)
    (is_filter : IsEventFilter glib connected filter) where
  filter-offered :
      (k m : ℕ) (s : Bytes) → filter (key_press k m s) ≡ offered connected (key_press k m s)
  filter-offered k m s =
      let gevent = key k m (some 0) (length s) in
      let (sized, shown) =
        g_event_filter-offered glib connected (key_press k m s) gevent (source_only s) 0
          (0, refl, refl) in
      ok-injective _ _ (sym (is_filter k m 0 s (source_only s) refl) ∙ shown)

module _ (p : Platform) (f : ℕ) (glib : Glib) (connected : Connected) where
  -- On a key event `fep_g_client_dispatch` asks the application's handlers in turn, those for any
  -- event and then those for keys, until one takes it. The server gets the response with 1 if one
  -- took it and else 0, then the requests of the handlers that were asked, in order, and last the
  -- key's own bytes if none took it; the result is TRUE. Conditions: the client is connected, with
  -- an empty queue, the event has arrived in one piece and its bytes fit the reader, the key and its
  -- modifiers are 32-bit, every write is taken whole, and the fuel is at least five and more than
  -- the length of every argument.
  pub g_dispatch-in_turn :
      (filter : Filter) (address : Option Bytes) (freed : Bool) (k m : ℕ) (s t : Bytes)
      (later : List Arrival) (out : Bytes) (b : Bool)
      → IsEventFilter glib connected filter
      → k < 2 ^ 32
      → m < 2 ^ 32
      → 4 ≤ p.buf_size
      → Fits p s
      → 3 ≤ f
      → length s < suc (suc f)
      → let event = key_press k m s in
        let (calls, taken) = in_turn (handlers_for connected event) event in
        All (λ call. Short (suc (suc f)) (arguments call)) calls
        → g_dispatch p (suc (suc f)) filter (record {
          client = some (at_rest (bytes (encode 6 (le32 k ∷ le32 m ∷ s ∷ []) ++ t) ∷ later) out b);
          address = address;
          is_freed = freed;
        })
          ≡ (
            ok true,
            record {
              client = some (
                  at_rest
                    (bytes t ∷ later)
                    (out
                      ++ (encode 8 ((6 ∷ []) ∷ le32 (int_of_bool taken) ∷ [])
                          ++ encode_calls (calls ++ unhandled (int_of_bool taken) s)))
                    false);
              address = address;
              is_freed = freed;
            },
          )
  unfolding g_dispatch offered
  g_dispatch-in_turn filter address freed k m s t later out b is_filter hk hm big fits rounds short
        shorts =
      let event = key_press k m s in
      let r = in_turn (handlers_for connected event) event in
      let same : filter event ≡ (r.0, int_of_bool r.1) =
        filter-offered glib connected filter is_filter k m s in
      let client = at_rest (bytes (encode 6 (le32 k ∷ le32 m ∷ s ∷ []) ++ t) ∷ later) out b in
      let dispatched =
        dispatch_key_event p f filter k m s t later out b hk hm big fits rounds short (
          subst (λ (x : List Call × ℕ). All (λ call. Short (suc (suc f)) (arguments call)) x.0)
            (sym same) shorts) in
      ap
        (λ x.
          is_zero (stored (record { client = some client; address = address; is_freed = freed }) x))
        dispatched
      ∙ ap
          (λ (x : List Call × ℕ). (
            ok true,
            record {
              client = some (
                  at_rest (bytes t ∷ later)
                    (out
                      ++ (encode 8 ((6 ∷ []) ∷ le32 x.1 ∷ [])
                          ++ encode_calls (x.0 ++ unhandled x.1 s)))
                    false);
              address = address;
              is_freed = freed;
            },
          ))
          same
