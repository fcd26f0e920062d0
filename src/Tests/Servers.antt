-- ===== src/Tests/Servers.antt =====
-- The server at fixed inputs.
use libfep.Base.{◌≡◌, false, some, none, Bytes, [], ◌∷◌, ◌++◌, ok, arith}
use libfep.Client.{Filter, dispatch}
use libfep.Client.Calls.{message, message_for, encode_calls}
use libfep.Client.Dispatch.{at_rest}
use libfep.Message.{le32}
use libfep.Request.{Call, set_status_text, send_text, send_data, key_press, resized}
use libfep.Server.{Terminal, dispatch_control_message, transceive}
use libfep.Server.Exchange.{transceive_lem, transceive-dispatch}
use libfep.Server.Requests.{typed, dispatch_control_message-message_for}
use libfep.Tests.{linux, dumb}
use libfep.Wire.{bytes, write_control_message}
use libfep.Wire.Send.{encode, open_sink}

-- A terminal whose screen is the text on its status line.
abbrev pub glass : Terminal Bytes
glass = record {
  cursor_text = λ text attr screen. screen;
  status_text = λ text attr screen. text;
  to_locale = λ text. some text;
  tigetstr = dumb;
}

abbrev status_y : Call
status_y = set_status_text (b'y' ∷ []) none

dispatch_control_message-message_for_example :
    dispatch_control_message 9 glass (message_for status_y) (typed glass [] [])
    ≡ (ok tt, typed glass (b'y' ∷ []) [])
dispatch_control_message-message_for_example =
    dispatch_control_message-message_for glass 9 status_y [] [] ((λ e. omega (arith, e)), tt)

-- The client sets its status text before it answers a resize event, and sends data after it.
transceive_lem_example :
    transceive linux 9 glass (message 7 (le32 80 ∷ le32 24 ∷ [])) (record {
      fep = typed glass [] [];
      incoming =
          bytes (
            encode_calls (status_y ∷ [])
            ++ (encode 8 ((7 ∷ []) ∷ le32 0 ∷ []) ++ encode_calls (send_data (97 ∷ []) ∷ [])))
          ∷ [];
      control = open_sink [];
    })
    ≡ (
      ok (message 8 ((7 ∷ []) ∷ le32 0 ∷ [])),
      record {
        fep = typed glass (b'y' ∷ []) [];
        incoming = bytes (encode_calls (send_data (97 ∷ []) ∷ [])) ∷ [];
        control = open_sink (encode 7 (le32 80 ∷ le32 24 ∷ []));
      },
    )
transceive_lem_example =
    transceive_lem linux 7 glass 7 (le32 80 ∷ le32 24 ∷ []) (le32 0) (status_y ∷ [])
      (encode_calls (send_data (97 ∷ []) ∷ [])) [] [] [] [] (omega arith, (omega arith, tt))
      (omega arith)
      (((omega arith, omega arith, omega arith), ((omega arith, omega arith, omega arith), tt)), tt)
      (((λ e. omega (arith, e)), tt), tt)
      ((omega arith, omega arith, omega arith), ((omega arith, omega arith, omega arith), tt))

-- Says "x" for each key, and leaves the key to the server.
abbrev says_x : Filter
says_x (key_press k m s) = (send_text (b'x' ∷ []) ∷ [], 0)
says_x (resized cols rows) = ([], 0)

abbrev asked : Bytes
asked =
    (write_control_message 9 (message 6 (le32 97 ∷ le32 0 ∷ (97 ∷ []) ∷ [])) (open_sink [])).1.sent

transceive-dispatch_example :
    transceive linux 9 glass (message 6 (le32 97 ∷ le32 0 ∷ (97 ∷ []) ∷ [])) (record {
      fep = typed glass [] [];
      incoming =
          bytes
            (dispatch linux 9 (some says_x) (at_rest (bytes asked ∷ []) [] false)).1.control.sent
          ∷ [];
      control = open_sink [];
    })
    ≡ (
      ok (message 8 ((6 ∷ []) ∷ le32 0 ∷ [])),
      record {
        fep = typed glass [] [];
        incoming = bytes (encode_calls (send_text (b'x' ∷ []) ∷ send_data (97 ∷ []) ∷ [])) ∷ [];
        control = open_sink asked;
      },
    )
transceive-dispatch_example =
    transceive-dispatch linux 7 glass says_x 97 0 (97 ∷ []) [] [] (omega arith) (omega arith)
      (omega arith) (omega arith, omega arith, omega arith) (omega arith) (omega arith)
      ((omega arith, tt), tt)
