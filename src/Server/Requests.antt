-- ===== src/Server/Requests.antt =====
-- The server does what the client's call says.
use libfep.Base.{
  ℕ, zero, suc, true, ◌^◌, ◌<◌, ◌≡◌, ◌≢◌, refl, ap, Option, none, some, Bytes, [], ◌∷◌, ◌++◌,
  length, leb, ok, All, arith, append-nil, take_all, drop_all,
}
use libfep.Client.Calls.{message_for, message}
use libfep.Key.{key_to_string}
use libfep.Message.{Attribute, le32, attribute_bytes, read_attribute_arg, read_uint32_arg}
use libfep.Message.Args.{low_bytes}
use libfep.Reply.{text_in}
use libfep.Request.{
  Call, set_cursor_text, set_status_text, send_text, send_data, forward_key_event, attr_or_empty,
  read_pair,
}
use libfep.Server.{
  Terminal, Fep, send_all, send_local, send_key, command_set_cursor_text, command_set_status_text,
  command_send_text, command_send_data, command_forward_key_event, dispatch_control_message,
}
use libfep.Wire.{write_fd}
use libfep.Wire.Send.{open_sink}

-- Text without NUL is what a reader of the C string finds.
text_in-append : (text : Bytes) → All (λ c. c ≢ 0) text → text_in (text ++ 0 ∷ []) ≡ ok text
unfolding text_in
text_in-append [] h = refl
text_in-append (c ∷ text) (h, hs) = ground (arith, text_in-append text hs)

send_all_lem :
    (f : ℕ) (s out : Bytes)
    → length s < f
    → send_all f s (open_sink out) ≡ (ok tt, open_sink (out ++ s))
unfolding send_all write_fd
send_all_lem zero s out h = absurd (omega arith)
send_all_lem (suc f) [] out h = rw append-nil
send_all_lem (suc zero) (c ∷ s) out h = absurd (omega arith)
send_all_lem (suc (suc f)) (c ∷ s) out h =
    ap (λ t. send_all (suc f) t (open_sink (out ++ c ∷ s))) (drop_all (length s) s (omega arith))

read_attribute_lem :
    (command : ℕ) (text : Bytes) (attr : Attribute)
    → read_attribute_arg (message command (text ∷ attribute_bytes attr ∷ [])) 1
      ≡ ok (low_bytes attr)
unfolding read_attribute_arg
read_attribute_lem command text attr = ground arith

read_pair_lem :
    (command a b : ℕ)
    → a < 2 ^ 32
    → b < 2 ^ 32
    → read_pair (message command (le32 a ∷ le32 b ∷ [])) ≡ ok (some (a, b))
unfolding read_pair read_uint32_arg
read_pair_lem command a b h k = ground arith

module _ {S : Type 0} (t : Terminal S) where
  -- The child process with more input.
  abbrev pub typed : S → Bytes → Fep S
  typed screen out = record { screen = screen; pty = open_sink out }

  abbrev pub converted : Option Bytes → Bytes
  converted none = []
  converted (some local) = local

  -- What a call asks for: text to draw, and input for the child process.
  abbrev pub drawn : Call → S → S
  drawn (set_cursor_text text attr) screen =
      t.cursor_text text (low_bytes (attr_or_empty attr)) screen
  drawn (set_status_text text attr) screen =
      t.status_text text (low_bytes (attr_or_empty attr)) screen
  drawn (send_text text) screen = screen
  drawn (send_data s) screen = screen
  drawn (forward_key_event keyval modifiers) screen = screen

  abbrev pub passed_on : Call → Bytes
  passed_on (set_cursor_text text attr) = []
  passed_on (set_status_text text attr) = []
  passed_on (send_text text) = converted (t.to_locale text)
  passed_on (send_data s) = s
  passed_on (forward_key_event keyval modifiers) = key_to_string t.tigetstr keyval modifiers

  -- A call that the server can take whole: a text is a C string, numbers are 32-bit, and the fuel
  -- is enough for what is sent on.
  abbrev pub Served : ℕ → Call → Type 0
  Served fuel (set_cursor_text text attr) = All (λ c. c ≢ 0) text
  Served fuel (set_status_text text attr) = All (λ c. c ≢ 0) text
  Served fuel (send_text text) =
      All (λ c. c ≢ 0) text × (length (converted (t.to_locale text)) < fuel)
  Served fuel (send_data s) = length s < fuel
  Served fuel (forward_key_event keyval modifiers) = (keyval < 2 ^ 32) × (modifiers < 2 ^ 32)

  send_local_lem :
      (fuel : ℕ) (o : Option Bytes) (screen : S) (out : Bytes)
      → length (converted o) < fuel
      → send_local fuel t o (typed screen out) ≡ (ok tt, typed screen (out ++ converted o))
  send_local_lem fuel none screen out h = rw append-nil
  send_local_lem fuel (some local) screen out h = rw (send_all_lem fuel local out h)

  send_key_lem :
      (fuel : ℕ) (s : Bytes) (screen : S) (out : Bytes)
      → send_key fuel t s (typed screen out) ≡ (ok tt, typed screen (out ++ s))
  send_key_lem fuel [] screen out = rw append-nil
  send_key_lem fuel (c ∷ s) screen out = unfold write_fd in refl

  -- The server's dispatch of the message that a client call makes does what the call asks for: it
  -- draws the text with the attribute's low bytes, or passes the text in the locale's encoding, the
  -- data or the key's string on to the child process. Conditions: a text holds no NUL, numbers are
  -- 32-bit, every write is taken whole, and the fuel is more than the bytes passed on.
  pub dispatch_control_message-message_for :
      (fuel : ℕ) (call : Call) (screen : S) (out : Bytes)
      → Served fuel call
      → dispatch_control_message fuel t (message_for call) (typed screen out)
        ≡ (ok tt, typed (drawn call screen) (out ++ passed_on call))
  unfolding dispatch_control_message
  dispatch_control_message-message_for fuel (set_cursor_text text attr) screen out h =
      unfold command_set_cursor_text in
      rw (
        read_attribute_lem 1 (text ++ 0 ∷ []) (attr_or_empty attr),
        text_in-append text h,
        append-nil,
      )
  dispatch_control_message-message_for fuel (set_status_text text attr) screen out h =
      unfold command_set_status_text in
      rw (
        read_attribute_lem 2 (text ++ 0 ∷ []) (attr_or_empty attr),
        text_in-append text h,
        append-nil,
      )
  dispatch_control_message-message_for fuel (send_text text) screen out (h, l) =
      unfold command_send_text in
      rw (text_in-append text h) (send_local_lem fuel (t.to_locale text) screen out l)
  dispatch_control_message-message_for fuel (send_data s) screen out h =
      unfold command_send_data in
      let whole : leb (length s) (length s) ≡ true = ground arith in
      rw (whole, take_all (length s) s (omega arith), send_all_lem fuel s out h)
  dispatch_control_message-message_for fuel (forward_key_event keyval modifiers) screen out (h, l) =
      unfold command_forward_key_event in
      rw (read_pair_lem 5 keyval modifiers h l)
        (send_key_lem fuel (key_to_string t.tigetstr keyval modifiers) screen out)
