-- ===== src/Tests/Calls.antt =====
-- The client at fixed inputs.
use libfep.Base.{inl, inr, failed, ◌≡◌, refl, false, some, [], ◌∷◌, ◌++◌, ok, arith}
use libfep.Client.{Filter, dispatch}
use libfep.Client.Calls.{encode_call, encode_calls, perform_writes}
use libfep.Client.Steps.{IsQuiet, Reach-IsQuiet, here, next, call, event}
use libfep.Client.Dispatch.{at_rest, dispatch_key_event}
use libfep.Message.{le32}
use libfep.Request.{Call, send_text, send_data, key_press, resized}
use libfep.Tests.{linux}
use libfep.Wire.{bytes, read_control_message, read_fd, first_byte}
use libfep.Wire.Send.{encode}

-- Says "x" for each key, and leaves the key to the server.
abbrev says_x : Filter
says_x (key_press k m s) = (send_text (b'x' ∷ []) ∷ [], 0)
says_x (resized cols rows) = (send_text (b'y' ∷ []) ∷ [], 1)

abbrev sent_x : Call
sent_x = send_text (b'x' ∷ [])

-- The key `a`: the response, then the filter's own call, then the key.
dispatch_key_event_example :
    dispatch linux 9
      (some says_x)
      (at_rest (bytes (encode 6 (le32 97 ∷ le32 0 ∷ (97 ∷ []) ∷ []) ++ []) ∷ []) [] false)
    ≡ (
      ok tt,
      at_rest
          (bytes [] ∷ [])
          (encode 8 ((6 ∷ []) ∷ le32 0 ∷ []) ++ encode_calls (sent_x ∷ send_data (97 ∷ []) ∷ []))
          false,
    )
dispatch_key_event_example =
    dispatch_key_event linux 7 says_x 97 0 (97 ∷ []) [] [] [] false (omega arith) (omega arith)
      (omega arith) (omega arith, omega arith, omega arith) (omega arith) (omega arith)
      ((omega arith, tt), tt)

at_rest-IsQuiet : IsQuiet (at_rest [] [] false)
at_rest-IsQuiet = record { idle = refl; flushed = refl }

closed_socket :
    dispatch linux 9 (some says_x) (at_rest [] (encode_call sent_x) false)
    ≡ (failed, at_rest [] (encode_call sent_x) false)
unfolding dispatch read_control_message read_fd first_byte
closed_socket = refl

-- A call, and a dispatch at the end of the stream.
Reach-IsQuiet_example : IsQuiet (at_rest [] (encode_call sent_x) false)
Reach-IsQuiet_example = Reach-IsQuiet linux 9 at_rest-IsQuiet (
    next
      (next here (
        call sent_x (ok tt)
          (perform_writes linux 9 sent_x (at_rest [] [] false) [] refl refl (omega arith, tt))
          (inl refl)))
      (event (some says_x) failed closed_socket (inr refl)))
