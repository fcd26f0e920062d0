-- ===== src/Tests/Typing.antt =====
-- A key that is typed while a client is connected, at fixed inputs.
use libfep.Base.{◌≡◌, refl, true, false, some, Option, Bytes, List, [], ◌∷◌, ok, arith}
use libfep.Base.Act.{◌>>◌}
use libfep.Client.{Filter, dispatch}
use libfep.Client.Calls.{message, encode_calls}
use libfep.Client.Dispatch.{at_rest}
use libfep.Key.{char_to_key}
use libfep.Key.Escape.{esc_to_key}
use libfep.MainLoop.Loop.{Socket, key_of, tty_input}
use libfep.MainLoop.Serving.{serve_clients}
use libfep.MainLoop.Typing.{with_client, tty_input-dispatch, tty_input-serve_clients}
use libfep.Message.{le32}
use libfep.Request.{send_text}
use libfep.Tests.{linux, dumb}
use libfep.Tests.Rounds.{term}
use libfep.Tests.Screens.{typewriter, blank}
use libfep.Wire.{bytes, write_control_message}
use libfep.Wire.Send.{open_sink}

abbrev leaves : Filter
leaves event = ([], 0)

abbrev takes_all : Filter
takes_all event = (send_text (b'x' ∷ []) ∷ [], 1)

abbrev asked_a : Bytes
asked_a =
    (write_control_message 9 (message 6 (le32 97 ∷ le32 0 ∷ (97 ∷ []) ∷ [])) (open_sink [])).1.sent

-- The answer of a client with this filter
abbrev answering : Filter → List (Option Socket)
answering filter =
    some (record {
      incoming =
          bytes
            (dispatch linux 9 (some filter) (at_rest (bytes asked_a ∷ []) [] false)).1.control.sent
          ∷ [];
      control = open_sink [];
    })
    ∷ []

key_a : key_of 97 [] (esc_to_key dumb (97 ∷ [])) ≡ ok ((true, (97, 0)), [])
unfolding esc_to_key char_to_key libfep.Csi.csi_parse
key_a = refl

tty_input-serve_clients_example :
    (tty_input linux 9 term (97 ∷ []) >> serve_clients linux 9 typewriter term [] (0 ∷ []))
      (with_client linux 7 term 0 [] (ok tt, blank) [] (answering leaves))
    ≡ (
      ok tt,
      with_client linux 7 term 0 []
          (ok tt, blank)
          (97 ∷ [])
          (some (record { incoming = bytes [] ∷ []; control = open_sink asked_a }) ∷ []),
    )
tty_input-serve_clients_example =
    tty_input-serve_clients linux 7 typewriter term [] leaves 97 0 97 [] 0 [] (ok tt, blank) []
      (answering leaves) key_a (omega arith) (omega arith) (omega arith)
      ((omega arith, omega arith, omega arith, omega arith), omega arith, omega arith) (omega arith)
      (omega arith) refl (omega arith) refl

tty_input-dispatch_example :
    tty_input linux 9 term
      (97 ∷ [])
      (with_client linux 7 term 0 [] (ok tt, blank) [] (answering takes_all))
    ≡ (
      ok tt,
      with_client linux 7 term 0 []
          (ok tt, blank)
          []
          (some (record {
            incoming = bytes (encode_calls (send_text (b'x' ∷ []) ∷ [])) ∷ [];
            control = open_sink asked_a;
          })
            ∷ []),
    )
tty_input-dispatch_example =
    tty_input-dispatch linux 7 term takes_all 97 0 97 [] 0 [] (ok tt, blank) []
      (answering takes_all) key_a (omega arith) (omega arith) (omega arith)
      ((omega arith, omega arith, omega arith, omega arith), omega arith, omega arith) (omega arith)
      (omega arith) ((omega arith, tt), tt) refl
