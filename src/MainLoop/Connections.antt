-- ===== src/MainLoop/Connections.antt =====
-- Clients that connect while nothing else happens.
use libfep.Base.{
  ℕ, zero, suc, ◌+◌, ◌^◌, Bool-cases, inl, inr, ltb→lt, ◌≤◌, ◌<◌, ◌≡◌, refl, ap, ◌∙◌, Bool, true,
  false, ◌&&◌, none, some, List, Bytes, [], ◌∷◌, ◌++◌, length, set, get_elem?, map, ltb, length-set,
  Outcome, ok, fault, arith,
}
use libfep.Base.Act.{Act, and_then, ◌>>◌, pure}
use libfep.MainLoop.{add_client}
use libfep.MainLoop.Child.{Drawn}
use libfep.MainLoop.Cooked.{first_round}
use libfep.MainLoop.Loop.{Socket, Program}
use libfep.MainLoop.Rounds.{Woken, ready, round, main_loop}
use libfep.MainLoop.Running.{Running, Next, goes_on, on_program, settle}
use libfep.MainLoop.Serving.{
  with_open, is_set, serve_tty, serve_pty, serve_server, serve_place, serve_from, serve_clients,
}
use libfep.Screen.{Device}
use libfep.Server.{Terminal}
use libfep.Wire.{Platform}

-- Only the control socket is ready, with a connection.
abbrev pub connect : ℕ × Socket → Woken
connect conn = ready (record {
  tty_in = false;
  pty = false;
  server = true;
  control = [];
  output = none;
  accepted = some conn;
})

-- The connection stands behind those in the table.
abbrev pub added : ℕ × Socket → Running → Running
added (fd, sock) m = record m {
  program = record m.program {
    table = record {
      fds = set m.program.table.fds m.program.table.n_clients fd;
      n_clients = m.program.table.n_clients + 1;
    };
    sockets = with_open fd sock m.program.sockets;
  };
}

abbrev pub all_added : List (ℕ × Socket) → Running → Running
all_added [] m = m
all_added (conn ∷ conns) m = all_added conns (added conn m)

-- Nothing was put back from the terminal, drawing has not failed, and so many places are free.
abbrev pub IsOpen : ℕ → Running → Type 0
IsOpen room m =
    (m.program.fep.screen.1.tty.ttybuf.len ≡ 0)
    × (m.program.fep.screen.0 ≡ ok tt)
    × (m.program.table.n_clients + room ≡ length m.program.table.fds)

and_false : (b : Bool) → (b && false) ≡ false
and_false true = refl
and_false false = refl

elem_below : (fds : List ℕ) (i : ℕ) → i < length fds → (fd : ℕ) × (get_elem? fds i ≡ some fd)
elem_below [] i h = absurd (omega arith)
elem_below (fd ∷ fds) zero h = (fd, refl)
elem_below (fd ∷ fds) (suc i) h = elem_below fds i (omega arith)

fault_first :
    {A B : Type 0} (r : Outcome A × Running) (k : A → Act Running B)
    → r.0 ≡ fault
    → (and_then r k).0 ≡ fault
fault_first r k h = rw h refl

module _ (p : Platform) (fuel : ℕ) (d : Device) (t : Terminal Drawn) (clr_eos : Bytes) where
  nothing_set :
      (i : ℕ) (m : Program Drawn)
      → i < length m.table.fds
      → serve_place p fuel d t clr_eos [] i m ≡ (ok tt, m)
  unfolding serve_place is_set
  nothing_set i m h =
      let (fd, e) = elem_below m.table.fds i h in rw (e, and_false (ltb fd (2 ^ 31))) refl

  none_served :
      (f i : ℕ) (m : Program Drawn)
      → m.table.n_clients ≤ length m.table.fds
      → i ≤ m.table.n_clients
      → m.table.n_clients < f + i
      → serve_from p fuel d t clr_eos f [] i m ≡ (ok tt, m)
  unfolding serve_from
  none_served zero i m h k l = absurd (omega arith)
  none_served (suc f) i m h k l = elim (Bool-cases (ltb i m.table.n_clients)) [
    | inl more ↦
        let below = ltb→lt i m.table.n_clients more in
        rw (more, nothing_set i m (omega (arith, below)))
          (none_served f (i + 1) m h (omega (arith, below)) (omega arith))
    | inr over ↦ rw over refl
  ]

  -- The rest of a round in which no client is ready
  nothing_ready :
      (m : Running)
      → m.program.fep.screen.0 ≡ ok tt
      → m.program.table.n_clients ≤ length m.program.table.fds
      → (on_program (serve_clients p fuel d t clr_eos []) >> (settle >> pure goes_on)) m
        ≡ (ok goes_on, m)
  unfolding serve_clients
  nothing_ready m drawn h =
      rw
        (
          none_served (suc m.program.table.n_clients) 0 m.program h (omega arith) (omega arith),
          drawn,
        )
        refl

  round-connect :
      (fd : ℕ) (sock : Socket) (room : ℕ) (m : Running)
      → IsOpen (suc room) m
      → round p fuel d t clr_eos (connect (fd, sock)) m ≡ (ok goes_on, added (fd, sock) m)
  unfolding round serve_tty serve_pty serve_server add_client
  round-connect fd sock room m (empty, drawn, free) =
      let below : ltb m.program.table.n_clients (length m.program.table.fds) ≡ true =
        ground (arith, free) in
      rw below (
        nothing_ready (added (fd, sock) m) drawn
          (omega (arith, free, length-set m.program.table.fds m.program.table.n_clients fd)))

  round-overflow :
      (conn : ℕ × Socket) (m : Running)
      → IsOpen 0 m
      → (round p fuel d t clr_eos (connect conn) m).0 ≡ fault
  unfolding round serve_tty serve_pty serve_server add_client
  round-overflow (fd, sock) m (empty, drawn, full) =
      let over : ltb m.program.table.n_clients (length m.program.table.fds) ≡ false =
        ground (arith, full) in
      rw over refl

  -- Connections that come one in each round are taken into the table one behind the other, as long
  -- as it has places; the next one is written behind the end of the table, whatever comes after it.
  -- Conditions: the table has just as many places as connections come before that, drawing has not
  -- failed, and no bytes from the terminal were put back.
  pub main_loop-overflow :
      (conns : List (ℕ × Socket)) (extra : ℕ × Socket) (ws : List Woken) (m : Running)
      → IsOpen (length conns) m
      → (main_loop p fuel d t clr_eos (map connect conns) m ≡ (ok goes_on, all_added conns m))
        × ((main_loop p fuel d t clr_eos (map connect conns ++ connect extra ∷ ws) m).0 ≡ fault)
  main_loop-overflow [] extra ws m free =
      let (empty, drawn, full) = free in
      (
        unfold main_loop in refl,
        ap (λ (r : Outcome Next × Running). r.0)
              (first_round p fuel d t clr_eos (connect extra) ws m _ empty refl)
            ∙ fault_first (round p fuel d t clr_eos (connect extra) m) _
                (round-overflow extra m free),
      )
  main_loop-overflow ((fd, sock) ∷ conns) extra ws m (empty, drawn, free) =
      let next = added (fd, sock) m in
      let taken = round-connect fd sock (length conns) m (empty, drawn, free) in
      let (all, over) = main_loop-overflow conns extra ws next (
        empty,
        drawn,
        omega (arith, free, length-set m.program.table.fds m.program.table.n_clients fd),
      ) in
      (
        first_round p fuel d t clr_eos (connect (fd, sock)) (map connect conns) m _ empty taken
            ∙ all,
        ap (λ (r : Outcome Next × Running). r.0)
              (first_round p fuel d t clr_eos (connect (fd, sock))
                (map connect conns ++ connect extra ∷ ws) m _ empty taken)
            ∙ over,
      )
