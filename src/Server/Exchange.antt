-- ===== src/Server/Exchange.antt =====
-- `_fep_transceive_control_message`: a request, the client's response, and what came in between.
use libfep.Base.{
  ℕ, zero, suc, ◌<◌, ◌≤◌, ◌^◌, ◌≡◌, refl, subst, ◌∙◌, Bool, true, false, some, List, Bytes, [], ◌∷◌,
  ◌++◌, length, map, ◌==◌, ok, All, arith, append-nil, append_assoc,
}
use libfep.Client.{Filter, dispatch}
use libfep.Client.Calls.{
  message, message_for, few_arguments, command_of, arguments, encode_call, encode_calls,
  append_control_message_lem, Short,
}
use libfep.Client.Dispatch.{at_rest, dispatch_key_event, unhandled, word-Fits}
use libfep.Message.{ControlMessage, get_n_args, le32}
use libfep.Reply.{check_response}
use libfep.Request.{
  Call, set_cursor_text, set_status_text, send_text, send_data, forward_key_event, key_press,
}
use libfep.Server.{Terminal, wait, flush_queue, transceive}
use libfep.Server.Requests.{typed, drawn, passed_on, Served, dispatch_control_message-message_for}
use libfep.Wire.{Platform, Arrival, bytes, write_control_message}
use libfep.Wire.Length.{IsPlain}
use libfep.Wire.RoundTrip.{Fits, read_control_message-encode}
use libfep.Wire.Send.{encode, open_sink, write_control_message_lem}

pub known : (call : Call) → get_n_args (command_of call) ≡ some (length (arguments call))
unfolding get_n_args
known (set_cursor_text text attr) = refl
known (set_status_text text attr) = refl
known (send_text text) = refl
known (send_data s) = refl
known (forward_key_event keyval modifiers) = refl

not_response : (call : Call) → (command_of call == 8) ≡ false
not_response (set_cursor_text text attr) = refl
not_response (set_status_text text attr) = refl
not_response (send_text text) = refl
not_response (send_data s) = refl
not_response (forward_key_event keyval modifiers) = refl

check_response_lem :
    (command : ℕ) (ss rest : List Bytes)
    → check_response (message command ss) (ok (message 8 ((command ∷ []) ∷ rest)))
      ≡ ok (message 8 ((command ∷ []) ∷ rest))
unfolding check_response
check_response_lem command ss rest = ground arith

module _ (p : Platform) (f : ℕ) where
  -- Calls whose arguments the server can read.
  abbrev pub Readable : List Call → Type 0
  Readable = All (λ call. All (Fits p) (arguments call))

  wait_lem :
      (n : ℕ) (calls : List Call) (queue : List ControlMessage) (answer : List Bytes) (t : Bytes)
      (later : List Arrival)
      → length calls < n
      → Readable calls
      → length answer ≡ 2
      → All (Fits p) answer
      → wait p (suc (suc f)) n queue (bytes (encode_calls calls ++ (encode 8 answer ++ t)) ∷ later)
        ≡ record {
          outcome = ok (message 8 answer);
          queue = queue ++ map message_for calls;
          incoming = bytes t ∷ later;
        }
  unfolding wait
  wait_lem zero calls queue answer t later h r two fits = absurd (omega arith)
  wait_lem (suc n) [] queue answer t later h r two fits = rw (
    read_control_message-encode p f 8 answer t later (unfold get_n_args in rw two) fits,
    append-nil,
  )
  wait_lem (suc n) (call ∷ calls) queue answer t later h (r, rs) two fits = rw (
    append_assoc (encode_call call) (encode_calls calls) (encode 8 answer ++ t),
    read_control_message-encode p f (command_of call) (arguments call)
        (encode_calls calls ++ (encode 8 answer ++ t)) later (known call) r,
    not_response call,
    append_control_message_lem p.memory queue (command_of call) (arguments call)
        (few_arguments call),
    wait_lem n calls (queue ++ message_for call ∷ []) answer t later (omega arith) rs two fits,
    append_assoc queue (message_for call ∷ []) (map message_for calls),
  )

  byte-Fits : (c : ℕ) → 1 ≤ p.buf_size → Fits p (c ∷ [])
  byte-Fits c h = (plain p.char_signed, h, omega arith)
    where
      plain : (signed : Bool) → IsPlain signed 1
      plain true = omega arith
      plain false = omega arith

  module _ {S : Type 0} (term : Terminal S) where
    -- The calls' effects, in order.
    abbrev pub drawn_all : List Call → S → S
    drawn_all [] screen = screen
    drawn_all (call ∷ calls) screen = drawn_all calls (drawn term call screen)

    abbrev pub passed_all : List Call → Bytes
    passed_all [] = []
    passed_all (call ∷ calls) = passed_on term call ++ passed_all calls

    flush_queue_lem :
        (calls : List Call) (screen : S) (out : Bytes)
        → All (Served term (suc (suc f))) calls
        → flush_queue p (suc (suc f)) term (map message_for calls) (typed term screen out)
          ≡ (ok tt, typed term (drawn_all calls screen) (out ++ passed_all calls))
    unfolding flush_queue
    flush_queue_lem [] screen out h = rw append-nil
    flush_queue_lem (call ∷ calls) screen out (h, hs) = rw (
      dispatch_control_message-message_for term (suc (suc f)) call screen out h,
      flush_queue_lem calls (drawn term call screen) (out ++ passed_on term call) hs,
      append_assoc out (passed_on term call) (passed_all calls),
    )

    -- The exchange of a request and its response with a client. The request is written, the
    -- response to it is returned, and the calls that the client made before it take effect, in
    -- order; what follows the response is left on the socket. Conditions: all has arrived in one
    -- piece, every write is taken whole, what is read has plain lengths and fits the buffer, the
    -- calls can be served, and the fuel is more than the number of calls and than the length of
    -- every argument of the request.
    pub transceive_lem :
        (command : ℕ) (ss : List Bytes) (v : Bytes) (calls : List Call) (t : Bytes)
        (later : List Arrival) (screen : S) (out sent : Bytes)
        → Short (suc (suc f)) ss
        → length calls < suc (suc f)
        → Readable calls
        → All (Served term (suc (suc f))) calls
        → All (Fits p) ((command ∷ []) ∷ v ∷ [])
        → transceive p (suc (suc f)) term (message command ss) (record {
          fep = typed term screen out;
          incoming =
              bytes (encode_calls calls ++ (encode 8 ((command ∷ []) ∷ v ∷ []) ++ t)) ∷ later;
          control = open_sink sent;
        })
          ≡ (
            ok (message 8 ((command ∷ []) ∷ v ∷ [])),
            record {
              fep = typed term (drawn_all calls screen) (out ++ passed_all calls);
              incoming = bytes t ∷ later;
              control = open_sink (sent ++ encode command ss);
            },
          )
    unfolding transceive
    transceive_lem command ss v calls t later screen out sent short enough r served fits = rw (
      write_control_message_lem (suc (suc f)) command ss sent short,
      wait_lem (suc (suc f)) calls [] ((command ∷ []) ∷ v ∷ []) t later enough r refl fits,
      check_response_lem command ss (v ∷ []),
      flush_queue_lem calls screen out served,
    )

    -- Both ends together, for a key press that the client's filter sees: the server's request is
    -- what the client dispatches, the client's response is what the server waits for, and it holds
    -- the filter's result. What the filter asked for, and the key's bytes if its result is 0, are
    -- left on the server's socket. Conditions: the queue and both streams are empty at first, what
    -- is sent arrives in one piece, every write is taken whole, the key and its modifiers are
    -- 32-bit, the key's bytes have a plain length and fit the buffer, which holds at least four
    -- bytes, and the fuel is at least five and more than the length of every argument.
    pub transceive-dispatch :
        (filter : Filter) (k m : ℕ) (s : Bytes) (screen : S) (out : Bytes)
        → k < 2 ^ 32
        → m < 2 ^ 32
        → 4 ≤ p.buf_size
        → Fits p s
        → 3 ≤ f
        → length s < suc (suc f)
        → All (λ call. Short (suc (suc f)) (arguments call)) (filter (key_press k m s)).0
        → let (calls, result) = filter (key_press k m s) in
          let request = message 6 (le32 k ∷ le32 m ∷ s ∷ []) in
          let written = (write_control_message (suc (suc f)) request (open_sink [])).1.sent in
          let client =
            (dispatch p (suc (suc f)) (some filter) (at_rest (bytes written ∷ []) [] false)).1 in
          transceive p (suc (suc f)) term request (record {
            fep = typed term screen out;
            incoming = bytes client.control.sent ∷ [];
            control = open_sink [];
          })
          ≡ (
            ok (message 8 ((6 ∷ []) ∷ le32 result ∷ [])),
            record {
              fep = typed term screen out;
              incoming = bytes (encode_calls (calls ++ unhandled result s)) ∷ [];
              control = open_sink written;
            },
          )
    transceive-dispatch filter k m s screen out hk hm big fits rounds short shorts =
        let (calls, result) = filter (key_press k m s) in
        let ss = le32 k ∷ le32 m ∷ s ∷ [] in
        let room : Short (suc (suc f)) ss = (omega arith, (omega arith, (short, tt))) in
        let answer = (6 ∷ []) ∷ le32 result ∷ [] in
        let rest = encode_calls (calls ++ unhandled result s) in
        let heard : dispatch p (suc (suc f)) (some filter)
              (at_rest (bytes (encode 6 ss) ∷ []) [] false)
            ≡ (ok tt, at_rest (bytes [] ∷ []) (encode 8 answer ++ rest) false) =
          subst
            (λ x.
              dispatch p (suc (suc f)) (some filter) (at_rest (bytes x ∷ []) [] false)
              ≡ (ok tt, at_rest (bytes [] ∷ []) (encode 8 answer ++ rest) false))
            (append-nil (encode 6 ss))
            (dispatch_key_event p f filter k m s [] [] [] false hk hm big fits rounds short
              shorts) in
        rw (write_control_message_lem (suc (suc f)) 6 ss [] room, heard)
          (transceive_lem 6 ss (le32 result) [] rest [] screen out [] room (omega arith) tt tt
              (byte-Fits 6 (omega arith), (word-Fits p result big, tt))
            ∙ rw (append-nil out))
