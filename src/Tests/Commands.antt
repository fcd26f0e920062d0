-- ===== src/Tests/Commands.antt =====
-- The command line client, the text of a message and the control socket's name, at fixed inputs.
use libfep.Base.{Option, ◌≡◌, refl, true, false, none, some, Bytes, [], ◌∷◌, ◌++◌, map, ok, arith}
use libfep.Cli.{cursor_opt, status_opt, main}
use libfep.Cli.Parsing.{for_cursor}
use libfep.Cli.Requests.{main_requests}
use libfep.Client.Calls.{encode_call}
use libfep.Client.Opening.{System, new_client}
use libfep.Message.{ControlMessage, exact}
use libfep.Message.Text.{message_to_string}
use libfep.Message.Text.Printing.{hex_text, message_to_string_lem}
use libfep.Request.{set_cursor_text}
use libfep.Strv.RoundTrip.{join}
use libfep.Tests.{linux}
use libfep.Wire.Send.{open_sink}

abbrev served : System
served = record {
  control_sock = some (b'/' ∷ b's' ∷ []);
  path_size = 108;
  has_socket = true;
  connect = λ path. some ([], open_sink []);
}

main_requests_example :
    main linux 99 served (status_opt [] ∷ cursor_opt (b'x' ∷ []) ∷ []) false
    ≡ (ok 0, some (new_client ([], open_sink (encode_call (set_cursor_text (b'x' ∷ []) none)))))
main_requests_example =
    main_requests linux 99 served (status_opt [] ∷ cursor_opt (b'x' ∷ []) ∷ [])
      (set_cursor_text (b'x' ∷ []) none) (b'/' ∷ b's' ∷ []) [] (tt, (tt, tt))
      (for_cursor (record {
        before = status_opt [] ∷ [];
        opt = cursor_opt (b'x' ∷ []);
        behind = [];
        splits = refl;
        given = refl;
        none_behind = tt;
      }))
      refl (omega arith) refl refl (omega arith, (omega arith, tt))

abbrev respond_6 : ControlMessage
respond_6 = record { command = 8; args = exact (6 ∷ []) ∷ exact (255 ∷ 0 ∷ []) ∷ [] }

abbrev response_name : Bytes
response_name = b'R' ∷ b'E' ∷ b'S' ∷ b'P' ∷ b'O' ∷ b'N' ∷ b'S' ∷ b'E' ∷ []

message_to_string_lem_example :
    message_to_string respond_6
    ≡ ok (join (b' ' ∷ []) (response_name ∷ map (λ arg. hex_text arg.str) respond_6.args) ++ 0 ∷ [])
unfolding libfep.Message.Text.get_name
message_to_string_lem_example =
    message_to_string_lem respond_6 response_name refl (refl, (refl, tt))

abbrev makes_it : Bytes → Option Bytes
makes_it s = some s
