-- ===== src/Start.antt =====
-- fep/main.c, and lines 246 to 310 of fep/fep.c: the options, the start of the program with its control
-- socket and its child process, and the status that it ends with. What `getopt_long` returns is an
-- input, and so are whether `forkpty` succeeds and the status of the child process. The child's side
-- of the fork, and the usage text, are left out.
use libfep.Base.{
  ℕ, Bool, Option, none, some, List, Bytes, [], ◌∷◌, if◌then◌else◌, Outcome, ok, failed, fault,
  died, looping,
}
use libfep.Base.Act.{Act, ◌>>=◌, ◌>>◌, pure}
use libfep.Base.Int.{pos, negsuc}
use libfep.ControlSocket.{Host, open_control_socket}
use libfep.Logger.{Log, level_debug, set_log_file, set_log_level}
use libfep.MainLoop.Child.{Drawn}
use libfep.MainLoop.Rounds.{Woken, main_loop}
use libfep.MainLoop.Running.{Running, Next, goes_on, returns, exits, start_loop, finish_loop}
use libfep.Screen.{Device}
use libfep.Server.{Terminal}
use libfep.Wire.{Platform}

pub data Flag : Type 0 where
  log_flag : Bytes → Flag
  help_flag unknown_flag : Flag

-- The log file, or the status that the program ends with.
pub data Flags : Type 0 where
  runs : Option Bytes → Flags
  stops_with : ℕ → Flags

-- The loop over the options, with its `switch`
unfoldable pub parse_flags : List Flag → Option Bytes → Flags
parse_flags [] log_file = runs log_file
parse_flags (log_flag file ∷ flags) log_file = parse_flags flags (some file)
parse_flags (help_flag ∷ flags) log_file = stops_with 0
parse_flags (unknown_flag ∷ flags) log_file = stops_with 1

-- The command: the operands, or else the shell; without one it is NULL.
unfoldable pub command_of_operands : List Bytes → Option Bytes → List Bytes
command_of_operands (s ∷ operands) shell = s ∷ operands
command_of_operands [] none = []
command_of_operands [] (some shell) = shell ∷ []

-- `if (log_file != NULL)`; `fopen` says whether a file can be opened.
unfoldable pub start_log : (Bytes → Bool) → Option Bytes → Log → Outcome (Unit {0}) × Log
start_log fopen none log = (ok tt, log)
start_log fopen (some file) log = set_log_level level_debug (set_log_file (fopen file) log)

module _ (p : Platform) (fuel : ℕ) (d : Device) (t : Terminal Drawn) (clr_eos : Bytes) where
  -- The parent's side of the fork: the loop, and then the end of the program
  abbrev pub in_parent : ℕ → List Woken → Act Running Next
  in_parent status ws = do
    start_loop d t.tigetstr
    next ← main_loop p fuel d t clr_eos ws
    finish_loop d status next

  abbrev pub forked : Bool → ℕ → List Woken → Outcome (ℕ × Bytes) → Act Running Next
  forked is_forked status ws (ok server) m =
      if is_forked then in_parent status ws m else (ok (returns (negsuc 0)), m)
  forked is_forked status ws failed m = (ok (returns (negsuc 0)), m)
  forked is_forked status ws fault m = (fault, m)
  forked is_forked status ws died m = (died, m)
  forked is_forked status ws looping m = (looping, m)

  -- `fep_run`
  unfoldable pub fep_run : Host → Bool → ℕ → List Woken → Act Running Next
  fep_run host is_forked status ws = forked is_forked status ws (open_control_socket host)

  -- What `main` makes of the result of `fep_run`; `none` is a program that still runs.
  abbrev pub status_of : Next → Option ℕ
  status_of goes_on = none
  status_of (returns (pos n)) = some 0
  status_of (returns (negsuc n)) = some 2
  status_of (exits code) = some code

  abbrev pub run_with : Host → Bool → ℕ → List Woken → Flags → Act Running (Option ℕ)
  run_with host is_forked status ws (stops_with code) m = (ok (some code), m)
  run_with host is_forked status ws (runs log_file) m =
      (do next ← fep_run host is_forked status ws; pure (status_of next)) m

  -- `main` of fep/main.c
  unfoldable pub fep_main : List Flag → Host → Bool → ℕ → List Woken → Act Running (Option ℕ)
  fep_main flags host is_forked status ws =
      run_with host is_forked status ws (parse_flags flags none)
