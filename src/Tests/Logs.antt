-- ===== src/Tests/Logs.antt =====
-- The log, at fixed inputs.
use libfep.Base.{◌≡◌, some, none, List, [], ◌∷◌, ◌++◌, ok, arith}
use libfep.Logger.Lines.{Entry, log_all, lines_upto, log_all-lines_upto}

-- An error and a debugging message
abbrev two_entries : List Entry
two_entries =
    record { level = 0; time = 49 ∷ []; text = 97 ∷ [] }
    ∷ record { level = 5; time = 50 ∷ []; text = 98 ∷ [] }
    ∷ []

log_all-lines_upto_example :
    (log_all two_entries (record { file = some []; level = 2 })
      ≡ (ok tt, record { file = some ([] ++ lines_upto 2 two_entries); level = 2 }))
    × (log_all two_entries (record { file = none; level = 2 })
        ≡ (ok tt, record { file = none; level = 2 }))
log_all-lines_upto_example = log_all-lines_upto two_entries [] 2 (omega arith)
