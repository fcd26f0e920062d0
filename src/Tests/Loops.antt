-- ===== src/Tests/Loops.antt =====
-- The main loop, at fixed inputs.
use libfep.Base.{ℕ, ◌-◌, ◌^◌, ◌≡◌, refl, Option, Bytes, [], ◌∷◌, ok}
use libfep.FepString.{zeroed}
use libfep.Input.{Tty}
use libfep.MainLoop.{find_match_end}
use libfep.MainLoop.Keys.{Relayed, tty_input-Relayed}
use libfep.MainLoop.Loop.{Program, tty_input}
use libfep.MainLoop.Matching.{LastMatch, find_match_end-LastMatch}
use libfep.Tests.{linux}
use libfep.Tests.Servers.{glass}

abbrev silent : Tty
silent = record { arriving = []; ttybuf = zeroed }

abbrev lonely : Program Bytes
lonely = record {
  fep = record { screen = []; pty = record { sent = []; answers = [] } };
  table = record { fds = (2 ^ 32 - 1) ∷ []; n_clients = 0 };
  sockets = [];
}

-- An arrow and a letter.
abbrev up_x : Bytes
up_x = 27 ∷ b'[' ∷ b'A' ∷ b'x' ∷ []

tty_input-Relayed_example : Relayed up_x lonely (tty_input linux 100 glass up_x lonely)
tty_input-Relayed_example = tty_input-Relayed linux 100 glass up_x lonely refl refl

find_match_end-LastMatch_example :
    (r : Option ℕ) × (find_match_end up_x (27 ∷ b'[' ∷ []) ≡ ok r) × LastMatch up_x 27 (b'[' ∷ []) r
find_match_end-LastMatch_example = find_match_end-LastMatch up_x 27 (b'[' ∷ [])
