-- ===== src/Tests/Sockets.antt =====
-- Messages on sockets at fixed inputs.
use libfep.Base.{◌≡◌, refl, List, Bytes, [], ◌∷◌, map, ok, looping, arith}
use libfep.FepString.{FepString, zeroed}
use libfep.FepString.Refines.{IsValid}
use libfep.Message.{exact, get_n_args}
use libfep.Tests.{linux}
use libfep.Wire.{Arrival, bytes, read_body, read_control_message, write_control_message}
use libfep.Wire.Receive.{Collected, read_body-Collected, read_body_at_end}
use libfep.Wire.RoundTrip.{Fits, read-write_control_message}
use libfep.Wire.Send.{open_sink}

-- "abc" in two pieces
abbrev pieces : List Arrival
pieces = bytes (97 ∷ []) ∷ bytes [] ∷ bytes (98 ∷ 99 ∷ []) ∷ []

zeroed-IsValid : IsValid zeroed
zeroed-IsValid = record { block = refl; within_cap = omega arith }

read_body-Collected_example :
    (arg : FepString) × (fd : List Arrival) × Collected linux 4 3 zeroed pieces arg fd
read_body-Collected_example =
    read_body-Collected linux 4 3 zeroed pieces zeroed-IsValid tt (omega arith) (omega arith)
      (omega arith) (omega arith)

read_body_at_end_example : (read_body linux 100 5 zeroed pieces).0 ≡ looping
read_body_at_end_example =
    read_body_at_end linux 100 5 zeroed pieces zeroed-IsValid tt (omega arith) (omega arith)
      (omega arith)

-- SEND_TEXT with "a" and its NUL
abbrev text : List Bytes
text = (97 ∷ 0 ∷ []) ∷ []

text-Fits : Fits linux (97 ∷ 0 ∷ [])
text-Fits = (omega arith, omega arith, omega arith)

read-write_control_message_example :
    read_control_message linux 5 (
      bytes
        (write_control_message 3
          (record { command = 3; args = map exact text })
          (open_sink [])).1.sent
      ∷ [])
    ≡ (ok (record { command = 3; args = map exact text }), bytes [] ∷ [])
read-write_control_message_example =
    read-write_control_message linux 3 3 text [] (unfold get_n_args in refl) (text-Fits, tt)
      (omega arith, tt)
