-- ===== src/Tests/Rounds.antt =====
-- Rounds of the main loop, at fixed inputs.
use libfep.Base.Ends.{Ends}
use libfep.Base.{
  Bytes, ℕ, ◌-◌, ◌^◌, ◌≡◌, refl, true, false, some, List, [], ◌∷◌, ◌++◌, map, replicate, ok, fault,
  arith,
}
use libfep.Client.{Client, perform}
use libfep.Clients.{Clients}
use libfep.MainLoop.{hup, winch, tstp}
use libfep.MainLoop.Child.{Drawn, drawing}
use libfep.MainLoop.Connections.{connect, all_added, main_loop-overflow}
use libfep.MainLoop.Cooked.{IsCooked, main_loop-IsCooked}
use libfep.MainLoop.Exits.{Explained, main_loop-Explained}
use libfep.MainLoop.Flags.{taken, round_signals}
use libfep.MainLoop.Loop.{Socket}
use libfep.MainLoop.Rounds.{Woken, interrupted, round, main_loop}
use libfep.MainLoop.Running.{Running, goes_on}
use libfep.MainLoop.Serving.{serve_clients}
use libfep.MainLoop.Shown.{showing, status_text-shown}
use libfep.MainLoop.Turns.{Queue, before, state, served, all_served, serve_clients-all_served}
use libfep.Request.{Call, set_status_text, send_data}
use libfep.Server.{Terminal}
use libfep.Tests.{linux, dumb}
use libfep.Tests.Screens.{typewriter, blank, underlined}
use libfep.Tests.Texts.{wide_bytes-Faithful}
use libfep.Wire.{bytes}
use libfep.Wire.Send.{open_sink}

abbrev pub term : Terminal Drawn
term = drawing typewriter dumb

-- A program with a table of two places and no client.
abbrev idle : Running
idle = record {
  program = record {
    fep = record { screen = (ok tt, blank); pty = open_sink [] };
    table = record { fds = replicate 2 (2 ^ 32 - 1); n_clients = 0 };
    sockets = [];
  };
  signals = 0;
  modes = record { is_raw = true; is_handled = true; is_blocked = true; stops = 0 };
}

round_signals_example :
    round linux 9 typewriter term [] (interrupted (tstp ∷ winch ∷ tstp ∷ []) 25 80) idle
    ≡ taken linux 9 typewriter term 25 80 false true true idle
round_signals_example =
    round_signals linux 9 typewriter term [] (tstp ∷ winch ∷ tstp ∷ []) 25 80 idle refl

main_loop-IsCooked_example :
    IsCooked
      (main_loop linux 9 typewriter term []
        (interrupted (tstp ∷ []) 25 80 ∷ interrupted (winch ∷ []) 30 80 ∷ [])
        idle).1
main_loop-IsCooked_example =
    main_loop-IsCooked linux 9 typewriter term [] (tstp ∷ []) 25 80
      (interrupted (winch ∷ []) 30 80 ∷ []) idle refl refl refl refl refl

abbrev hung_up : List Woken
hung_up = interrupted (winch ∷ []) 30 80 ∷ interrupted (tstp ∷ hup ∷ []) 25 80 ∷ []

main_loop-Explained_example :
    Ends
      (Explained linux 9 typewriter term [] hung_up)
      (λ m. Unit {0})
      (main_loop linux 9 typewriter term [] hung_up idle)
main_loop-Explained_example = main_loop-Explained linux 9 typewriter term [] hung_up idle refl

abbrev quiet : Socket
quiet = record { incoming = []; control = open_sink [] }

abbrev two : List (ℕ × Socket)
two = (5, quiet) ∷ (6, quiet) ∷ []

main_loop-overflow_example :
    (main_loop linux 9 typewriter term [] (map connect two) idle ≡ (ok goes_on, all_added two idle))
    × ((main_loop linux 9 typewriter term [] (map connect two ++ connect (7, quiet) ∷ []) idle).0
        ≡ fault)
main_loop-overflow_example =
    main_loop-overflow linux 9 typewriter term [] two (7, quiet) [] idle (refl, refl, refl)

-- Each client sends its descriptor to the child process.
abbrev says : ℕ → Queue
says fd = record { call = send_data (fd ∷ []); behind = []; later = []; control = open_sink [] }

abbrev table : Clients
table = record { fds = (1 ∷ 0 ∷ []) ++ (2 ^ 32 - 1) ∷ []; n_clients = 2 }

serve_clients-all_served_example :
    serve_clients linux 9 typewriter term [] (0 ∷ 1 ∷ []) (
      state linux 7 typewriter term [] says table
        (ok tt, blank)
        []
        (some (before (says 0)) ∷ some (before (says 1)) ∷ []))
    ≡ (
      ok tt,
      all_served linux 7 typewriter term [] says
          (served (0 ∷ 1 ∷ []) (1 ∷ 0 ∷ []))
          table
          (ok tt, blank)
          []
          (some (before (says 0)) ∷ some (before (says 1)) ∷ []),
    )
serve_clients-all_served_example =
    serve_clients-all_served linux 7 typewriter term [] says (1 ∷ 0 ∷ []) ((2 ^ 32 - 1) ∷ [])
      (0 ∷ 1 ∷ []) (ok tt, blank) [] (some (before (says 0)) ∷ some (before (says 1)) ∷ [])
      (((λ e. omega (arith, e)), tt), (tt, tt))
      (
        (
          refl,
          (((omega arith, omega arith, omega arith, omega arith), omega arith, omega arith), tt),
          omega arith,
        ),
        (
          (
            refl,
            (((omega arith, omega arith, omega arith, omega arith), omega arith, omega arith), tt),
            omega arith,
          ),
          tt,
        ),
      )

abbrev writer : Client
writer = record { incoming = []; control = open_sink []; filter_running = false; messages = [] }

abbrev status_ab : Call
status_ab = set_status_text (97 ∷ 98 ∷ []) (some underlined)

abbrev sent_ab : Bytes
sent_ab = (perform linux 99 status_ab writer).1.control.sent

status_text-shown_example :
    serve_clients linux 99 typewriter term [] (0 ∷ []) (record {
      fep = record { screen = (ok tt, blank); pty = open_sink [] };
      table = record { fds = 0 ∷ []; n_clients = 1 };
      sockets = some (record { incoming = bytes sent_ab ∷ []; control = open_sink [] }) ∷ [];
    })
    ≡ (
      ok tt,
      record {
        fep = record {
          screen = (ok tt, showing typewriter (97 ∷ 98 ∷ []) (97 ∷ 98 ∷ []) underlined blank);
          pty = open_sink [];
        };
        table = record { fds = 0 ∷ []; n_clients = 1 };
        sockets = some (record { incoming = bytes [] ∷ []; control = open_sink [] }) ∷ [];
      },
    )
unfolding libfep.Wide.strtrunc libfep.Wide.fitting libfep.Wide.wcsrtombs
status_text-shown_example =
    status_text-shown linux 97 typewriter dumb [] 0 97 (98 ∷ []) (97 ∷ 98 ∷ []) (97 ∷ 98 ∷ [])
      (97 ∷ 98 ∷ []) underlined blank [] []
      (some (record { incoming = bytes sent_ab ∷ []; control = open_sink [] }) ∷ []) []
      (open_sink []) writer refl refl refl (omega arith)
      ((λ e. omega (arith, e)), ((λ e. omega (arith, e)), tt))
      (
        ((omega arith, omega arith, omega arith, omega arith), omega arith, omega arith),
        (((omega arith, omega arith, omega arith, omega arith), omega arith, omega arith), tt),
      )
      (omega arith, (omega arith, tt)) refl refl refl wide_bytes-Faithful refl refl refl
      (omega arith)
