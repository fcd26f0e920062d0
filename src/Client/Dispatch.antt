-- ===== src/Client/Dispatch.antt =====
-- `fep_client_dispatch` on the events of the server.
use libfep.Base.{
  ℕ, suc, ◌^◌, ◌≤◌, ◌<◌, ◌≡◌, refl, ap, Bool, true, false, Bool-cases, inl, inr, Option, none, some,
  List, Bytes, [], ◌∷◌, ◌++◌, length, map, ◌==◌, if◌then◌else◌, Outcome, ok, All, All-append, arith,
  append-nil, append_assoc, map-append, take_all,
}
use libfep.Client.{
  Client, Filter, run_filter, send_back, command_key_event, command_resize_event, handle, respond,
  dispatch, has_handler,
}
use libfep.Client.Calls.{
  message, message_for, arguments, encode_calls, Short, write_message_lem, perform_queues,
  perform_all_queues, flush_lem,
}
use libfep.Message.{
  le32, read_uint32_arg, get_n_args, alloc_args, write_uint32_arg, write_uint8_arg,
}
use libfep.Request.{
  Call, send_data, Event, key_press, resized, read_pair, start_response, source_of, key_event_of,
  resize_event_of,
}
use libfep.Wire.{Platform, Arrival, bytes}
use libfep.Wire.Length.{IsPlain}
use libfep.Wire.RoundTrip.{Fits, read_control_message-encode}
use libfep.Wire.Send.{encode, open_sink}

read_pair_lem :
    (command a b : ℕ) (rest : List Bytes)
    → a < 2 ^ 32
    → b < 2 ^ 32
    → read_pair (message command (le32 a ∷ le32 b ∷ rest)) ≡ ok (some (a, b))
unfolding read_pair read_uint32_arg
read_pair_lem command a b rest h k = ground arith

pub start_response_lem :
    (command : ℕ) → start_response command ≡ ok (message 8 ((command ∷ []) ∷ [] ∷ []))
unfolding start_response alloc_args write_uint8_arg
start_response_lem command = refl

source_of_lem : (command : ℕ) (a b s : Bytes) → source_of (message command (a ∷ b ∷ s ∷ [])) ≡ ok s
unfolding source_of
source_of_lem command a b s = ap ok (take_all (length s) s (omega arith))

-- What the filter leaves to the server.
abbrev pub unhandled : ℕ → Bytes → List Call
unhandled result source = if result == 0 then send_data source ∷ [] else []

unhandled-Short :
    (fuel result : ℕ) (s : Bytes)
    → length s < fuel
    → All (λ call. Short fuel (arguments call)) (unhandled result s)
unhandled-Short fuel result s h = elim (Bool-cases (result == 0)) [
  | inl z ↦ rw z ((h, tt), tt)
  | inr n ↦ rw n tt
]

module _ (p : Platform) (fuel : ℕ) where
  run_filter_lem :
      (filter : Filter) (pair : ℕ × ℕ) (event_of : ℕ × ℕ → Outcome Event) (event : Event)
      (command : ℕ) (c : Client)
      → event_of pair ≡ ok event
      → c.filter_running ≡ true
      → run_filter p fuel
          (some filter)
          (some pair)
          event_of
          (message 8 ((command ∷ []) ∷ [] ∷ []))
          c
        ≡ (
          ok (message 8 ((command ∷ []) ∷ le32 (filter event).1 ∷ []), (filter event).1),
          record c { messages = c.messages ++ map message_for (filter event).0 },
        )
  unfolding run_filter write_uint32_arg
  run_filter_lem filter pair event_of event command c e h =
      rw (e, perform_all_queues p fuel (filter event).0 c h)

  send_back_lem :
      (a b s : Bytes) (c : Client)
      → c.filter_running ≡ true
      → send_back p fuel (message 6 (a ∷ b ∷ s ∷ [])) c
        ≡ (ok tt, record c { messages = c.messages ++ message_for (send_data s) ∷ [] })
  unfolding send_back
  send_back_lem a b s c h = rw (source_of_lem 6 a b s, perform_queues p fuel (send_data s) c h)

  key_event_lem :
      (filter : Filter) (k m : ℕ) (s : Bytes) (c : Client)
      → k < 2 ^ 32
      → m < 2 ^ 32
      → c.filter_running ≡ true
      → let (calls, result) = filter (key_press k m s) in
        command_key_event p fuel (some filter) (message 6 (le32 k ∷ le32 m ∷ s ∷ [])) c ≡ (
          ok (message 8 ((6 ∷ []) ∷ le32 result ∷ [])),
          record c { messages = c.messages ++ map message_for (calls ++ unhandled result s) },
        )
  unfolding command_key_event
  key_event_lem filter k m s c hk hm h =
      let (calls, result) = filter (key_press k m s) in
      let queued = c.messages ++ map message_for calls in
      rw
        (
          read_pair_lem 6 k m (s ∷ []) hk hm,
          start_response_lem 6,
          run_filter_lem filter (k, m) (key_event_of (message 6 (le32 k ∷ le32 m ∷ s ∷ [])))
              (key_press k m s) 6 c (rw (source_of_lem 6 (le32 k) (le32 m) s)) h,
        )
        (elim (Bool-cases (result == 0)) [
          | inl zero_result ↦
              rw (zero_result, send_back_lem (le32 k) (le32 m) s (record c { messages = queued }) h)
                (ap (λ q. (ok (message 8 ((6 ∷ []) ∷ le32 result ∷ [])), record c { messages = q }))
                  simp (append_assoc, map-append))
          | inr handled ↦ rw (handled, append-nil)
        ])

  resize_event_lem :
      (filter : Filter) (cols rows : ℕ) (c : Client)
      → cols < 2 ^ 32
      → rows < 2 ^ 32
      → c.filter_running ≡ true
      → let (calls, result) = filter (resized cols rows) in
        command_resize_event p fuel (some filter) (message 7 (le32 cols ∷ le32 rows ∷ [])) c ≡ (
          ok (message 8 ((7 ∷ []) ∷ le32 result ∷ [])),
          record c { messages = c.messages ++ map message_for calls },
        )
  unfolding command_resize_event
  resize_event_lem filter cols rows c h k r = rw (
    read_pair_lem 7 cols rows [] h k,
    start_response_lem 7,
    run_filter_lem filter (cols, rows) resize_event_of (resized cols rows) 7 c refl r,
  )

  -- Without a filter the response has an empty second argument, and the key goes back.
  key_event_no_filter :
      (k m : ℕ) (s : Bytes) (c : Client)
      → k < 2 ^ 32
      → m < 2 ^ 32
      → c.filter_running ≡ true
      → command_key_event p fuel none (message 6 (le32 k ∷ le32 m ∷ s ∷ [])) c ≡ (
        ok (message 8 ((6 ∷ []) ∷ [] ∷ [])),
        record c { messages = c.messages ++ map message_for (send_data s ∷ []) },
      )
  unfolding command_key_event run_filter
  key_event_no_filter k m s c hk hm h = rw (
    read_pair_lem 6 k m (s ∷ []) hk hm,
    start_response_lem 6,
    send_back_lem (le32 k) (le32 m) s c h,
  )

-- The client with what has arrived and what it has sent, and an empty queue.
abbrev pub at_rest : List Arrival → Bytes → Bool → Client
at_rest fd out b = record {
  incoming = fd;
  control = open_sink out;
  filter_running = b;
  messages = [];
}

module _ (p : Platform) (f : ℕ) (filter : Option Filter) where
  dispatch_lem :
      (command : ℕ) (ss : List Bytes) (t : Bytes) (later : List Arrival) (out : Bytes) (b : Bool)
      (answer : List Bytes) (calls : List Call)
      → get_n_args command ≡ some (length ss)
      → All (Fits p) ss
      → has_handler command ≡ true
      → handle p (suc (suc f)) filter (message command ss) (at_rest (bytes t ∷ later) out true) ≡ (
        ok (message 8 answer),
        record {
          incoming = bytes t ∷ later;
          control = open_sink out;
          filter_running = true;
          messages = map message_for calls;
        },
      )
      → Short (suc (suc f)) answer
      → All (λ call. Short (suc (suc f)) (arguments call)) calls
      → dispatch p (suc (suc f)) filter (at_rest (bytes (encode command ss ++ t) ∷ later) out b)
        ≡ (ok tt, at_rest (bytes t ∷ later) (out ++ (encode 8 answer ++ encode_calls calls)) false)
  unfolding dispatch respond
  dispatch_lem command ss t later out b answer calls known fits handler result short shorts =
      rw (read_control_message-encode p f command ss t later known fits, handler, result)
        (rw (
          write_message_lem p (suc (suc f)) 8 answer
              (record {
                incoming = bytes t ∷ later;
                control = open_sink out;
                filter_running = true;
                messages = map message_for calls;
              })
              out short refl,
          flush_lem p (suc (suc f)) calls (bytes t ∷ later) (out ++ encode 8 answer) false shorts,
          append_assoc out (encode 8 answer) (encode_calls calls),
        ))

-- A 32-bit argument always fits.
pub word-Fits : (p : Platform) (v : ℕ) → 4 ≤ p.buf_size → Fits p (le32 v)
word-Fits p v h = (plain p.char_signed, h, omega arith)
  where
    plain : (signed : Bool) → IsPlain signed 4
    plain true = omega arith
    plain false = omega arith

module _ (p : Platform) (f : ℕ) (filter : Filter) where
  -- On a key event, `fep_client_dispatch` calls the filter with the key, its modifiers and the
  -- bytes it came from. It writes the response first, with the filter's result, then every request
  -- that the filter made, in order, and last the key's own bytes, if the result is 0. It takes just
  -- the event off the socket, and leaves no queue and no handler running. Conditions: a filter is
  -- set, the queue is empty, the event has arrived in one piece and its bytes fit the reader (a
  -- plain length, no more than the buffer, which holds at least four), the key and its modifiers
  -- are 32-bit, every write is taken whole, and the fuel is at least five and more than the length
  -- of every argument.
  pub dispatch_key_event :
      (k m : ℕ) (s t : Bytes) (later : List Arrival) (out : Bytes) (b : Bool)
      → k < 2 ^ 32
      → m < 2 ^ 32
      → 4 ≤ p.buf_size
      → Fits p s
      → 3 ≤ f
      → length s < suc (suc f)
      → All (λ call. Short (suc (suc f)) (arguments call)) (filter (key_press k m s)).0
      → let (calls, result) = filter (key_press k m s) in
        dispatch p
          (suc (suc f))
          (some filter)
          (at_rest (bytes (encode 6 (le32 k ∷ le32 m ∷ s ∷ []) ++ t) ∷ later) out b)
        ≡ (
          ok tt,
          at_rest
              (bytes t ∷ later)
              (out
                ++ (encode 8 ((6 ∷ []) ∷ le32 result ∷ [])
                    ++ encode_calls (calls ++ unhandled result s)))
              false,
        )
  dispatch_key_event k m s t later out b hk hm big fits rounds short shorts =
      let (calls, result) = filter (key_press k m s) in
      let client = at_rest (bytes t ∷ later) out true in
      dispatch_lem p f (some filter) 6 (le32 k ∷ le32 m ∷ s ∷ []) t later out b
        ((6 ∷ []) ∷ le32 result ∷ []) (calls ++ unhandled result s) (unfold get_n_args in refl)
        (word-Fits p k big, (word-Fits p m big, (fits, tt))) refl
        (unfold handle in key_event_lem p (suc (suc f)) filter k m s client hk hm refl)
        (omega arith)
        (All-append (λ call. Short (suc (suc f)) (arguments call)) calls (unhandled result s) shorts
          (unhandled-Short (suc (suc f)) result s short))

  -- On a resize event, `fep_client_dispatch` calls the filter with the size, writes the response
  -- with the filter's result and then the requests that the filter made, in order, and leaves no
  -- queue and no handler running. Conditions: a filter is set, the queue is empty, the event has
  -- arrived in one piece, the buffer holds at least four bytes, the sizes are 32-bit, every write
  -- is taken whole, and the fuel is at least five and more than the length of every argument.
  dispatch_resize_event :
      (cols rows : ℕ) (t : Bytes) (later : List Arrival) (out : Bytes) (b : Bool)
      → cols < 2 ^ 32
      → rows < 2 ^ 32
      → 4 ≤ p.buf_size
      → 3 ≤ f
      → All (λ call. Short (suc (suc f)) (arguments call)) (filter (resized cols rows)).0
      → let (calls, result) = filter (resized cols rows) in
        dispatch p
          (suc (suc f))
          (some filter)
          (at_rest (bytes (encode 7 (le32 cols ∷ le32 rows ∷ []) ++ t) ∷ later) out b)
        ≡ (
          ok tt,
          at_rest
              (bytes t ∷ later)
              (out ++ (encode 8 ((7 ∷ []) ∷ le32 result ∷ []) ++ encode_calls calls))
              false,
        )
  dispatch_resize_event cols rows t later out b hc hr big rounds shorts =
      let (calls, result) = filter (resized cols rows) in
      dispatch_lem p f (some filter) 7 (le32 cols ∷ le32 rows ∷ []) t later out b
        ((7 ∷ []) ∷ le32 result ∷ []) calls (unfold get_n_args in refl)
        (word-Fits p cols big, (word-Fits p rows big, tt)) refl
        (unfold handle in
          resize_event_lem p (suc (suc f)) filter cols rows (at_rest (bytes t ∷ later) out true) hc
            hr refl)
        (omega arith) shorts
