-- ===== src/Logger.antt =====
-- libfep/logger.c: the log file and the level up to which messages are written. `fopen` and
-- `fdopen`, the time of day and the text that `vfprintf` puts out are parameters.
pub mod Lines
use libfep.Base.{
  ℕ, Bool, Option, none, some, List, Bytes, [], ◌∷◌, ◌++◌, get_elem?, leb, if◌then◌else◌, Outcome,
  ok, fault, died,
}

-- The levels, from FEP_LOG_LEVEL_ERROR to FEP_LOG_LEVEL_DEBUG
abbrev pub level_warning : ℕ
level_warning = 2

abbrev pub level_debug : ℕ
level_debug = 5

-- `log_fp`, as what was written to it, and `log_level`
pub record Log : Type 0 where
  pub file : Option Bytes
  pub level : ℕ

abbrev pub first_log : Log
first_log = record { file = none; level = level_warning }

-- `fep_set_log_file` and `fep_set_log_fd`, where the file could be opened or could not
unfoldable pub set_log_file : Bool → Log → Log
set_log_file is_open log = record log { file = if is_open then some [] else none }

unfoldable pub get_log_level : Log → ℕ
get_log_level log = log.level

-- `fep_set_log_level`
unfoldable pub set_log_level : ℕ → Log → Outcome (Unit {0}) × Log
set_log_level level log =
    if leb level level_debug then (ok tt, record log { level = level }) else (died, log)

-- `levels`
abbrev pub level_names : List Bytes
level_names =
    (b'E' ∷ b'R' ∷ b'R' ∷ b'O' ∷ b'R' ∷ [])
    ∷ (b'C' ∷ b'R' ∷ b'I' ∷ b'T' ∷ b'I' ∷ b'C' ∷ b'A' ∷ b'L' ∷ [])
    ∷ (b'W' ∷ b'A' ∷ b'R' ∷ b'N' ∷ b'I' ∷ b'N' ∷ b'G' ∷ [])
    ∷ (b'M' ∷ b'E' ∷ b'S' ∷ b'S' ∷ b'A' ∷ b'G' ∷ b'E' ∷ [])
    ∷ (b'I' ∷ b'N' ∷ b'F' ∷ b'O' ∷ [])
    ∷ (b'D' ∷ b'E' ∷ b'B' ∷ b'U' ∷ b'G' ∷ [])
    ∷ []

-- A line: the time, the level's name, and the text
abbrev pub log_line : Bytes → Bytes → Bytes → Bytes
log_line time name text = time ++ (b' ' ∷ name) ++ (b' ' ∷ text) ++ 10 ∷ []

-- A level past the names is an access out of bounds.
abbrev pub put_line : Bytes → Bytes → Bytes → Option Bytes → Log → Outcome (Unit {0}) × Log
put_line time text out none log = (fault, log)
put_line time text out (some name) log =
    (ok tt, record log { file = some (out ++ log_line time name text) })

abbrev pub log_to : ℕ → Bytes → Bytes → Option Bytes → Log → Outcome (Unit {0}) × Log
log_to level time text none log = (ok tt, log)
log_to level time text (some out) log =
    if leb level log.level
    then put_line time text out (get_elem? level_names level) log
    else (ok tt, log)

-- `fep_log`
unfoldable pub fep_log : ℕ → Bytes → Bytes → Log → Outcome (Unit {0}) × Log
fep_log level time text log = log_to level time text log.file log
