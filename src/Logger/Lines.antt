-- ===== src/Logger/Lines.antt =====
-- What a sequence of calls of `fep_log` writes.
use libfep.Base.{
  ℕ, zero, suc, ◌≤◌, ◌<◌, ◌≡◌, refl, Bool-cases, inl, inr, Option, none, some, List, Bytes, [], ◌∷◌,
  ◌++◌, length, get_elem?, append-nil, append_assoc, leb, leb→le, if◌then◌else◌, ok, arith,
}
use libfep.Base.Act.{Act, ◌>>◌}
use libfep.Logger.{Log, level_debug, level_names, log_line, fep_log}

-- A message: its level, the time, and the text
pub record Entry : Type 0 where
  pub level : ℕ
  pub time : Bytes
  pub text : Bytes

abbrev pub log_all : List Entry → Act Log (Unit {0})
log_all [] log = (ok tt, log)
log_all (e ∷ es) log = (fep_log e.level e.time e.text >> log_all es) log

abbrev pub name_or_none : Option Bytes → Bytes
name_or_none none = []
name_or_none (some name) = name

-- The lines of the messages up to a level
abbrev pub lines_upto : ℕ → List Entry → Bytes
lines_upto level [] = []
lines_upto level (e ∷ es) =
    if leb e.level level
    then log_line e.time (name_or_none (get_elem? level_names e.level)) e.text
      ++ lines_upto level es
    else lines_upto level es

elem_below :
    (names : List Bytes) (n : ℕ)
    → n < length names
    → (name : Bytes) × (get_elem? names n ≡ some name)
elem_below [] n h = absurd (omega arith)
elem_below (name ∷ names) zero h = (name, refl)
elem_below (name ∷ names) (suc n) h = elem_below names n (omega arith)

-- Messages one after the other put just those lines into the log file whose level is no higher than
-- the level that is set, in order, each with its level's name, and never read past the names; if no
-- log file is open they write nothing. Condition: the level that is set is one that
-- `fep_set_log_level` accepts.
pub log_all-lines_upto :
    (es : List Entry) (out : Bytes) (level : ℕ)
    → level ≤ level_debug
    → (log_all es (record { file = some out; level = level })
        ≡ (ok tt, record { file = some (out ++ lines_upto level es); level = level }))
      × (log_all es (record { file = none; level = level })
          ≡ (ok tt, record { file = none; level = level }))
unfolding fep_log
log_all-lines_upto [] out level h = (rw append-nil refl, refl)
log_all-lines_upto (e ∷ es) out level h = elim (Bool-cases (leb e.level level)) [
  | inl written ↦
      (let (name, named) =
          elem_below level_names e.level (omega (arith, leb→le e.level level written)) in
        let line = log_line e.time name e.text in
        let (rest, silent) = log_all-lines_upto es (out ++ line) level h in
        (rw (written, named, rest, append_assoc out line (lines_upto level es)) refl, silent))
  | inr passed ↦
      (let (rest, silent) = log_all-lines_upto es out level h in (rw (passed, rest) refl, silent))
]
