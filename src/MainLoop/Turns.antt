-- ===== src/MainLoop/Turns.antt =====
-- The loop over the clients that are ready, when their requests have arrived whole.
use libfep.Base.{
  ℕ, zero, suc, ◌+◌, ◌^◌, ◌<◌, ◌≡◌, ◌≢◌, refl, sym, ap, ap₂, ◌∙◌, Bool, true, false, ◌&&◌,
  Bool-cases, inl, inr, Option, some, List, Bytes, [], ◌∷◌, ◌++◌, length, ◌==◌, set, get_elem?, map,
  ltb, All, Distinct, get_elem?-append, get_elem?-set_other, append-nil, append_assoc,
  length-append, if◌then◌else◌, ok, arith,
}
use libfep.Clients.{Clients, read_control_message_from_fd}
use libfep.Client.Calls.{command_of, arguments, encode_call}
use libfep.MainLoop.Child.{Drawn}
use libfep.MainLoop.Loop.{Socket, Program, socket_at, flattened}
use libfep.MainLoop.Serving.{is_set, serve_client, serve_place, serve_from, serve_clients}
use libfep.Request.{Call}
use libfep.Screen.{Device}
use libfep.Server.{Terminal}
use libfep.Server.Exchange.{known, drawn_all, passed_all}
use libfep.Server.Requests.{Served, typed, drawn, passed_on, dispatch_control_message-message_for}
use libfep.Wire.{Platform, Arrival, Sink, bytes}
use libfep.Wire.RoundTrip.{Fits, read_control_message-encode}

-- The clients that are ready, in the order of the table
abbrev pub served : List ℕ → List ℕ → List ℕ
served control [] = []
served control (fd ∷ fds) =
    if ltb fd (2 ^ 31) && is_set fd control then fd ∷ served control fds else served control fds

pub only_served : (fd : ℕ) → fd < 2 ^ 31 → served (fd ∷ []) (fd ∷ []) ≡ fd ∷ []
unfolding is_set
only_served fd h =
    let small : ltb fd (2 ^ 31) ≡ true = ground arith in
    let same : (fd == fd) ≡ true = ground arith in rw (small, same) refl

-- A client's socket before its call is read, and after.
pub record Queue : Type 0 where
  pub call : Call
  pub behind : Bytes
  pub later : List Arrival
  pub control : Sink

abbrev pub before : Queue → Socket
before q = record {
  incoming = bytes (encode_call q.call ++ q.behind) ∷ q.later;
  control = q.control;
}

abbrev pub after : Queue → Socket
after q = record { incoming = bytes q.behind ∷ q.later; control = q.control }

module _ (p : Platform) (f : ℕ) (d : Device) (t : Terminal Drawn) (clr_eos : Bytes)
    (queue : ℕ → Queue) where
  -- The socket of this client holds its queue, whose first call the server can take.
  abbrev pub Prompt : List (Option Socket) → ℕ → Type 0
  Prompt sockets fd =
      (socket_at sockets fd ≡ some (before (queue fd)))
      × All (Fits p) (arguments (queue fd).call)
      × Served t (suc (suc f)) (queue fd).call

  abbrev pub taken_off : List ℕ → List (Option Socket) → List (Option Socket)
  taken_off [] sockets = sockets
  taken_off (fd ∷ fds) sockets = taken_off fds (set sockets fd (some (after (queue fd))))

  abbrev pub state : Clients → Drawn → Bytes → List (Option Socket) → Program Drawn
  state table screen out sockets = record {
    fep = typed t screen out;
    table = table;
    sockets = sockets;
  }

  serve_one :
      (fd : ℕ) (table : Clients) (screen : Drawn) (out : Bytes) (sockets : List (Option Socket))
      → Prompt sockets fd
      → serve_client p (suc (suc f)) d t clr_eos fd (state table screen out sockets) ≡ (
        ok tt,
        state table
            (drawn t (queue fd).call screen)
            (out ++ passed_on t (queue fd).call)
            (set sockets fd (some (after (queue fd)))),
      )
  unfolding serve_client read_control_message_from_fd
  serve_one fd table screen out sockets (e, fits, takes) =
      let q = queue fd in
      rw
        (
          e,
          read_control_message-encode p f (command_of q.call) (arguments q.call) q.behind q.later
              (known q.call) fits,
          dispatch_control_message-message_for t (suc (suc f)) q.call screen out takes,
          e,
        )
        refl

  -- What is read from one client leaves the others.
  Prompt-set :
      (fd : ℕ) (fds : List ℕ) (sockets : List (Option Socket)) (sock : Option Socket)
      → All (λ other. other ≢ fd) fds
      → All (Prompt sockets) fds
      → All (Prompt (set sockets fd sock)) fds
  Prompt-set fd [] sockets sock h k = tt
  Prompt-set fd (other ∷ fds) sockets sock (h, hs) ((e, fits, takes), ks) = (
    (ap flattened (get_elem?-set_other sockets fd other sock h) ∙ e, fits, takes),
    Prompt-set fd fds sockets sock hs ks,
  )

  serve_one_place :
      (control : List ℕ) (fd i : ℕ) (table : Clients) (screen : Drawn) (out : Bytes)
      (sockets : List (Option Socket)) (b : Bool)
      → get_elem? table.fds i ≡ some fd
      → (ltb fd (2 ^ 31) && is_set fd control) ≡ b
      → Prompt sockets fd
      → serve_place p (suc (suc f)) d t clr_eos control i (state table screen out sockets) ≡ (
        ok tt,
        if b
            then state table
                (drawn t (queue fd).call screen)
                (out ++ passed_on t (queue fd).call)
                (set sockets fd (some (after (queue fd))))
            else state table screen out sockets,
      )
  unfolding serve_place
  serve_one_place control fd i table screen out sockets true e s h =
      rw (e, s) (serve_one fd table screen out sockets h)
  serve_one_place control fd i table screen out sockets false e s h = rw (e, s) refl

  abbrev pub calls_of : List ℕ → List Call
  calls_of fds = map (λ fd. (queue fd).call) fds

  -- What the loop leaves, of the clients from here on.
  abbrev pub all_served : List ℕ → Clients → Drawn → Bytes → List (Option Socket) → Program Drawn
  all_served fds table screen out sockets =
      state table (drawn_all p f t (calls_of fds) screen) (out ++ passed_all p f t (calls_of fds))
        (taken_off fds sockets)

  serve_from_lem :
      (fds done free control : List ℕ) (k i : ℕ) (table : Clients) (screen : Drawn) (out : Bytes)
      (sockets : List (Option Socket))
      → length fds < k
      → i ≡ length done
      → table.fds ≡ done ++ (fds ++ free)
      → table.n_clients ≡ length done + length fds
      → Distinct fds
      → All (Prompt sockets) fds
      → serve_from p (suc (suc f)) d t clr_eos k control i (state table screen out sockets)
        ≡ (ok tt, all_served (served control fds) table screen out sockets)
  unfolding serve_from
  serve_from_lem fds done free control zero i table screen out sockets l at e n unlike h =
      absurd (omega arith)
  serve_from_lem [] done free control (suc k) i table screen out sockets l at e n unlike h =
      let over : ltb i table.n_clients ≡ false = ground arith in rw (over, append-nil) refl
  serve_from_lem (fd ∷ fds) done free control (suc k) i table screen out sockets l at e n unlike h =
      let more : ltb i table.n_clients ≡ true = ground arith in
      let here : get_elem? table.fds i ≡ some fd =
        ap₂ get_elem? e at ∙ get_elem?-append done fd (fds ++ free) in
      let next : i + 1 ≡ length (done ++ fd ∷ []) =
        omega (arith, at, length-append done (fd ∷ [])) in
      let rest : table.fds ≡ (done ++ fd ∷ []) ++ (fds ++ free) =
        e ∙ sym (append_assoc done (fd ∷ []) (fds ++ free)) in
      let count : table.n_clients ≡ length (done ++ fd ∷ []) + length fds =
        omega (arith, n, length-append done (fd ∷ [])) in
      elim (Bool-cases (ltb fd (2 ^ 31) && is_set fd control)) [
        | inl yes_set ↦
            rw
              (
                more,
                serve_one_place control fd i table screen out sockets true here yes_set h.0,
                yes_set,
              )
              (serve_from_lem fds (done ++ fd ∷ []) free control k (i + 1) table _ _ _ (omega arith)
                  next rest count unlike.1 (Prompt-set fd fds sockets _ unlike.0 h.1)
                ∙ rw append_assoc refl)
        | inr not_set ↦
            rw
              (
                more,
                serve_one_place control fd i table screen out sockets false here not_set h.0,
                not_set,
              )
              (serve_from_lem fds (done ++ fd ∷ []) free control k (i + 1) table screen out sockets
                (omega arith) next rest count unlike.1 h.1)
      ]

  -- The loop over the clients ends, and takes just the first call off the socket of each client that
  -- is ready: the calls' texts are drawn and what they pass on is sent to the child process, in the
  -- order of the table, and the table stays as it is. Conditions: the table holds different
  -- descriptors, the first call of every client has arrived in one piece, fits the reader and is one
  -- that the server can take whole, the child process takes every write whole, and the fuel is at
  -- least two and more than the bytes of each call that are sent on.
  pub serve_clients-all_served :
      (live free control : List ℕ) (screen : Drawn) (out : Bytes) (sockets : List (Option Socket))
      → Distinct live
      → All (Prompt sockets) live
      → serve_clients p
          (suc (suc f))
          d
          t
          clr_eos
          control
          (state (record { fds = live ++ free; n_clients = length live }) screen out sockets)
        ≡ (
          ok tt,
          all_served
              (served control live)
              (record { fds = live ++ free; n_clients = length live })
              screen
              out
              sockets,
        )
  unfolding serve_clients
  serve_clients-all_served live free control screen out sockets unlike h =
      serve_from_lem live [] free control (suc (length live)) 0
        (record { fds = live ++ free; n_clients = length live }) screen out sockets (omega arith)
        refl refl (omega arith) unlike h
