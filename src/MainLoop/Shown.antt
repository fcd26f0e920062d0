-- ===== src/MainLoop/Shown.antt =====
-- A status text, from the call of the client library to the bytes on the terminal.
use libfep.Base.{
  ℕ, suc, ◌^◌, ◌<◌, ◌≡◌, ◌≢◌, sym, ap, ap₂, ◌∙◌, false, Option, some, List, Bytes, [], ◌∷◌, ◌++◌,
  length, set, ◌==◌, All, append-nil, Outcome, ok,
}
use libfep.Base.Int.{pos}
use libfep.Cap.{Tigetstr}
use libfep.Client.{Client, perform}
use libfep.Client.Calls.{arguments, encode_call, Short, perform_writes}
use libfep.Clients.{Clients}
use libfep.Draw.{type_none, range_of}
use libfep.Draw.Status.{to_status_line, on_status_line, status_text_lem}
use libfep.Draw.Texts.{parts}
use libfep.MainLoop.Child.{Drawn, drawing}
use libfep.MainLoop.Loop.{Socket, socket_at}
use libfep.MainLoop.Serving.{serve_clients}
use libfep.MainLoop.Turns.{
  Queue, before, after, only_served, state, all_served, serve_clients-all_served,
}
use libfep.Message.{Attribute}
use libfep.Message.Args.{low_bytes}
use libfep.Request.{set_status_text}
use libfep.Screen.{Device, Screen}
use libfep.Screen.Sending.{sends, Takes, change_bytes}
use libfep.Wide.{strtrunc}
use libfep.Wide.Pieces.{Faithful}
use libfep.Wire.{Platform, Arrival, Sink, bytes}
use libfep.Wire.RoundTrip.{Fits}
use libfep.Wire.Send.{open_sink}

-- The terminal that shows the text
abbrev pub showing : Device → Bytes → List ℕ → Attribute → Screen → Screen
showing d text wcs attr s =
    let (i, j) = range_of (length wcs) attr in
    sends
      ((to_status_line d s ++ (change_bytes d s s.attr_tty ++ parts d s wcs i j attr))
        ++ d.tputs d.restore_cursor)
      (record (on_status_line d text attr s) { attr = s.attr_tty })

module _ (p : Platform) (f : ℕ) (d : Device) (tigetstr : Tigetstr) (clr_eos : Bytes) where
  -- A status text that a client sets by the library's call is on the terminal after the server's
  -- loop over its clients: what takes the cursor to the empty status line, the text with the
  -- attribute's low bytes, cut to the width of the terminal, and what restores the cursor; the
  -- child process is sent nothing, and just the call is taken off the socket. Conditions: the
  -- client runs no handler, the message is what has arrived from the only client, which is ready,
  -- with a descriptor that is not negative; the text is not empty, holds no NUL, has fewer than
  -- 2^32 characters once cut, fits the reader and can be converted, in an encoding without states;
  -- the attribute is other than NONE; no text of the child process is kept back; writes are taken
  -- whole; and the fuel is at least two and more than the length of each argument.
  pub status_text-shown :
      (fd c : ℕ) (str local trunc : Bytes) (wcs : List ℕ) (attr : Attribute) (s : Screen)
      (free : List ℕ) (out : Bytes) (sockets : List (Option Socket)) (later : List Arrival)
      (sink : Sink) (client : Client)
      → client.filter_running ≡ false
      → client.control ≡ open_sink []
      → let call = set_status_text (c ∷ str) (some attr) in
        let sent = (perform p (suc (suc f)) call client).1.control.sent in
        socket_at sockets fd ≡ some (record { incoming = bytes sent ∷ later; control = sink })
        → fd < 2 ^ 31
        → All (λ b. b ≢ 0) (c ∷ str)
        → All (Fits p) (arguments call)
        → Short (suc (suc f)) (arguments call)
        → Takes s
        → s.ptybuf.len ≡ 0
        → ((low_bytes attr).type == type_none) ≡ false
        → Faithful d.locale
        → d.to_locale (c ∷ str) ≡ some local
        → strtrunc d.locale local (pos s.ws_col) ≡ some trunc
        → d.locale.to_wide trunc ≡ some wcs
        → length wcs < 2 ^ 32
        → serve_clients p (suc (suc f)) d (drawing d tigetstr) clr_eos (fd ∷ []) (record {
          fep = record { screen = (ok tt, s); pty = open_sink out };
          table = record { fds = fd ∷ free; n_clients = 1 };
          sockets = sockets;
        })
          ≡ (
            ok tt,
            record {
              fep = record {
                screen = (ok tt, showing d (c ∷ str) wcs (low_bytes attr) s);
                pty = open_sink out;
              };
              table = record { fds = fd ∷ free; n_clients = 1 };
              sockets =
                  set sockets fd (some (record { incoming = bytes [] ∷ later; control = sink }));
            },
          )
  status_text-shown fd c str local trunc wcs attr s free out sockets later sink client idle fresh
        waiting small text fits short h empty t faithful e1 e2 e3 few =
      let call = set_status_text (c ∷ str) (some attr) in
      let queue : ℕ → Queue =
        λ fd. record { call = call; behind = []; later = later; control = sink } in
      let term = drawing d tigetstr in
      let table : Clients = record { fds = fd ∷ free; n_clients = 1 } in
      let wrote : (perform p (suc (suc f)) call client).1.control.sent ≡ encode_call call =
        ap (λ (r : Outcome (Unit {0}) × Client). r.1.control.sent)
          (perform_writes p (suc (suc f)) call client [] idle fresh short) in
      let ready : socket_at sockets fd ≡ some (before (queue fd)) =
        waiting
        ∙ ap (λ b. some (record { incoming = bytes b ∷ later; control = sink }))
            (wrote ∙ sym (append-nil (encode_call call))) in
      let left = set sockets fd (some (after (queue fd))) in
      serve_clients-all_served p f d term clr_eos queue (fd ∷ []) free (fd ∷ []) (ok tt, s) out
        sockets (tt, tt) ((ready, fits, text), tt)
      ∙ ap (λ fds. (ok tt, all_served p f d term clr_eos queue fds table (ok tt, s) out sockets))
          (only_served fd small)
      ∙ ap₂
          (λ (screen : Drawn) (o : Bytes).
            (ok tt, state p f d term clr_eos queue table screen o left))
          (status_text_lem d c str local trunc wcs (low_bytes attr) s h empty t faithful e1 e2 e3
            few)
          (append-nil out)
