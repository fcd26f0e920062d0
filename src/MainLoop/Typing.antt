-- ===== src/MainLoop/Typing.antt =====
-- A key that is typed while a client is connected, through the filter of that client.
use libfep.Base.{
  ℕ, zero, suc, ◌-◌, ◌^◌, ◌≤◌, ◌<◌, ◌≡◌, refl, sym, subst, ap, ap₂, ◌∙◌, true, false, Option, some,
  List, Bytes, [], ◌∷◌, ◌++◌, length, take, set, set-set, get_elem?-set_self, append-nil, take_all,
  All, ok, arith,
}
use libfep.Base.Act.{and_then, ◌>>◌}
use libfep.Client.{Filter, dispatch}
use libfep.Client.Calls.{message, arguments, encode_calls, Short}
use libfep.Client.Dispatch.{unhandled, at_rest}
use libfep.Key.Escape.{esc_to_key}
use libfep.MainLoop.Child.{Drawn}
use libfep.MainLoop.Events.{key_request}
use libfep.MainLoop.Loop.{
  Socket, Program, flattened, socket_at, key_of, ask_all, ask_clients, key_loop, tty_input,
}
use libfep.MainLoop.Serving.{serve_clients}
use libfep.MainLoop.Turns.{Queue, before, after, only_served, all_served, serve_clients-all_served}
use libfep.Message.{ControlMessage, le32, alloc_args, write_uint32_arg, write_string_arg}
use libfep.Request.{Call, send_data, key_press}
use libfep.Screen.{Device}
use libfep.Server.{Terminal, transceive}
use libfep.Server.Exchange.{transceive-dispatch}
use libfep.Server.Requests.{typed}
use libfep.Wire.{Platform, Sink, bytes, write_control_message}
use libfep.Wire.RoundTrip.{Fits}
use libfep.Wire.Send.{open_sink}

-- A descriptor that is open has its place.
below_open :
    (sockets : List (Option Socket)) (fd : ℕ) (sock : Socket)
    → socket_at sockets fd ≡ some sock
    → fd < length sockets
below_open [] fd sock e = absurd (cc e)
below_open (x ∷ sockets) zero sock e = omega arith
below_open (x ∷ sockets) (suc fd) sock e = omega (arith, below_open sockets fd sock e)

module _ (p : Platform) (f : ℕ) {S : Type 0} (t : Terminal S) where
  -- The server with a single client
  abbrev pub with_client : ℕ → List ℕ → S → Bytes → List (Option Socket) → Program S
  with_client fd free screen out sockets = record {
    fep = typed t screen out;
    table = record { fds = fd ∷ free; n_clients = 1 };
    sockets = sockets;
  }

  key_request_lem :
      (k m : ℕ) (s : Bytes) → key_request k m s ≡ ok (message 6 (le32 k ∷ le32 m ∷ s ∷ []))
  unfolding key_request alloc_args write_uint32_arg write_string_arg
  key_request_lem k m s = refl

  -- One client that answers
  asked_one :
      (request response : ControlMessage) (fd : ℕ) (free : List ℕ) (screen : S) (out : Bytes)
      (sockets : List (Option Socket)) (sock sock' : Socket)
      → socket_at sockets fd ≡ some sock
      → transceive p
          (suc (suc f))
          t
          request
          (record { fep = typed t screen out; incoming = sock.incoming; control = sock.control })
        ≡ (
          ok response,
          record { fep = typed t screen out; incoming = sock'.incoming; control = sock'.control },
        )
      → ask_clients p (suc (suc f)) t request (with_client fd free screen out sockets)
        ≡ (ok true, with_client fd free screen out (set sockets fd (some sock')))
  unfolding ask_all
  asked_one request response fd free screen out sockets sock sock' e r = rw (e, r) refl

  -- A text that is one key
  one_key :
      (k m c : ℕ) (s : Bytes) (program program' : Program S)
      → key_of c s (esc_to_key t.tigetstr (c ∷ s)) ≡ ok ((true, (k, m)), [])
      → ask_clients p (suc (suc f)) t (message 6 (le32 k ∷ le32 m ∷ (c ∷ s) ∷ [])) program
        ≡ (ok true, program')
      → tty_input p (suc (suc f)) t (c ∷ s) program ≡ (ok tt, program')
  unfolding tty_input key_loop
  one_key k m c s program program' e r =
      let whole : take (length (c ∷ s) - 0) (c ∷ s) ≡ c ∷ s =
        take_all (length (c ∷ s) - 0) (c ∷ s) (omega arith) in
      rw (e, whole, key_request_lem k m (c ∷ s), r) refl

  -- A key that is typed while one client is connected goes to that client's filter and not to the
  -- child process; what the filter asks for, and a request for the key's bytes if its result is 0,
  -- are left on the client's socket, in order. Conditions: the text is one key, its numbers are
  -- 32-bit and its bytes fit the reader; the client is asked by the server's message and its answer
  -- is what arrives; both streams were empty, every write is taken whole, and the fuel is at least
  -- five and more than the length of every argument.
  pub tty_input-dispatch :
      (filter : Filter) (k m c : ℕ) (s : Bytes) (fd : ℕ) (free : List ℕ) (screen : S) (out : Bytes)
      (sockets : List (Option Socket))
      → key_of c s (esc_to_key t.tigetstr (c ∷ s)) ≡ ok ((true, (k, m)), [])
      → k < 2 ^ 32
      → m < 2 ^ 32
      → 4 ≤ p.buf_size
      → Fits p (c ∷ s)
      → 3 ≤ f
      → length (c ∷ s) < suc (suc f)
      → All (λ call. Short (suc (suc f)) (arguments call)) (filter (key_press k m (c ∷ s))).0
      → let (calls, result) = filter (key_press k m (c ∷ s)) in
        let request = message 6 (le32 k ∷ le32 m ∷ (c ∷ s) ∷ []) in
        let asked = (write_control_message (suc (suc f)) request (open_sink [])).1.sent in
        let client =
          (dispatch p (suc (suc f)) (some filter) (at_rest (bytes asked ∷ []) [] false)).1 in
        socket_at sockets fd
          ≡ some (record { incoming = bytes client.control.sent ∷ []; control = open_sink [] })
        → tty_input p (suc (suc f)) t (c ∷ s) (with_client fd free screen out sockets) ≡ (
          ok tt,
          with_client fd free screen out (
              set sockets fd (
                some (record {
                  incoming = bytes (encode_calls (calls ++ unhandled result (c ∷ s))) ∷ [];
                  control = open_sink asked;
                }))),
        )
  tty_input-dispatch filter k m c s fd free screen out sockets e hk hm big fits rounds short shorts
        waiting =
      one_key k m c s _ _ e (
        asked_one _ _ fd free screen out sockets _ _ waiting (
          transceive-dispatch p f t filter k m (c ∷ s) screen out hk hm big fits rounds short
            shorts))

module _ (p : Platform) (f : ℕ) (d : Device) (t : Terminal Drawn) (clr_eos : Bytes) where
  -- The request for the bytes of a key, when its turn comes
  bytes_sent :
      (s : Bytes) (fd : ℕ) (free : List ℕ) (screen : Drawn) (out : Bytes)
      (sockets : List (Option Socket)) (sink : Sink)
      → fd < 2 ^ 31
      → fd < length sockets
      → Fits p s
      → length s < suc (suc f)
      → serve_clients p (suc (suc f)) d t clr_eos (fd ∷ []) (
          with_client p f t fd free screen out (
            set sockets fd (
              some (record {
                incoming = bytes (encode_calls (send_data s ∷ [])) ∷ [];
                control = sink;
              }))))
        ≡ (
          ok tt,
          with_client p f t fd free screen
              (out ++ s)
              (set sockets fd (some (record { incoming = bytes [] ∷ []; control = sink }))),
        )
  bytes_sent s fd free screen out sockets sink small below fits short =
      let queue : ℕ → Queue =
        λ fd. record { call = send_data s; behind = []; later = []; control = sink } in
      let opened = set sockets fd (some (before (queue fd))) in
      let ready : socket_at opened fd ≡ some (before (queue fd)) =
        ap flattened (get_elem?-set_self sockets fd (some (before (queue fd))) below) in
      serve_clients-all_served p f d t clr_eos queue (fd ∷ []) free (fd ∷ []) screen out opened
        (tt, tt) ((ready, (fits, tt), short), tt)
      ∙ ap
          (λ fds. (
            ok tt,
            all_served p f d t clr_eos queue fds (record { fds = fd ∷ free; n_clients = 1 }) screen
                out opened,
          ))
          (only_served fd small)
      ∙ ap₂ (λ o v. (ok tt, with_client p f t fd free screen (out ++ o) v)) (append-nil s)
          (set-set sockets fd (some (before (queue fd))) (some (after (queue fd))))

  -- A key that is typed while one client is connected, and that the client's filter leaves, reaches
  -- the child process just once: after the keys are handled and the client has its turn, its bytes
  -- are sent, and nothing is left on the client's socket. Conditions: the text is one key, its
  -- numbers are 32-bit and its bytes fit the reader; the filter makes no call and its result is 0;
  -- the client is asked by the server's message and its answer is what arrives; both streams were
  -- empty, every write is taken whole, and the fuel is at least five and more than the bytes of the
  -- key.
  pub tty_input-serve_clients :
      (filter : Filter) (k m c : ℕ) (s : Bytes) (fd : ℕ) (free : List ℕ) (screen : Drawn)
      (out : Bytes) (sockets : List (Option Socket))
      → key_of c s (esc_to_key t.tigetstr (c ∷ s)) ≡ ok ((true, (k, m)), [])
      → k < 2 ^ 32
      → m < 2 ^ 32
      → 4 ≤ p.buf_size
      → Fits p (c ∷ s)
      → 3 ≤ f
      → length (c ∷ s) < suc (suc f)
      → filter (key_press k m (c ∷ s)) ≡ ([], 0)
      → fd < 2 ^ 31
      → let request = message 6 (le32 k ∷ le32 m ∷ (c ∷ s) ∷ []) in
        let asked = (write_control_message (suc (suc f)) request (open_sink [])).1.sent in
        let client =
          (dispatch p (suc (suc f)) (some filter) (at_rest (bytes asked ∷ []) [] false)).1 in
        socket_at sockets fd
          ≡ some (record { incoming = bytes client.control.sent ∷ []; control = open_sink [] })
        → (tty_input p (suc (suc f)) t (c ∷ s)
              >> serve_clients p (suc (suc f)) d t clr_eos (fd ∷ []))
            (with_client p f t fd free screen out sockets)
          ≡ (
            ok tt,
            with_client p f t fd free screen (out ++ c ∷ s) (
                set sockets fd
                  (some (record { incoming = bytes [] ∷ []; control = open_sink asked }))),
          )
  tty_input-serve_clients filter k m c s fd free screen out sockets e hk hm big fits rounds short
        left small waiting =
      let event = key_press k m (c ∷ s) in
      let asked =
        (write_control_message (suc (suc f)) (message 6 (le32 k ∷ le32 m ∷ (c ∷ s) ∷ []))
          (open_sink [])).1.sent in
      let no_calls : All (λ call. Short (suc (suc f)) (arguments call)) (filter event).0 =
        subst (λ (r : List Call × ℕ). All (λ call. Short (suc (suc f)) (arguments call)) r.0)
          (sym left) tt in
      let typed_in =
        tty_input-dispatch p f t filter k m c s fd free screen out sockets e hk hm big fits rounds
          short no_calls waiting
        ∙ ap
            (λ (r : List Call × ℕ). (
              ok tt,
              with_client p f t fd free screen out (
                  set sockets fd (
                    some (record {
                      incoming = bytes (encode_calls (r.0 ++ unhandled r.1 (c ∷ s))) ∷ [];
                      control = open_sink asked;
                    }))),
            ))
            left in
      ap (λ r. and_then r (λ u. serve_clients p (suc (suc f)) d t clr_eos (fd ∷ []))) typed_in
      ∙ bytes_sent (c ∷ s) fd free screen out sockets (open_sink asked) small
          (below_open sockets fd _ waiting) fits short
