-- ===== src/Reply.antt =====
-- fep/control.c: what the handlers read of a request (lines 133 to 191), and the checks of a
-- response (lines 287 to 314).
use libfep.Base.{
  ℕ, Option, none, some, List, Bytes, [], ◌∷◌, ◌==◌, if◌then◌else◌, Outcome, ok, failed, fault,
  died, looping, ◌>>=◌, ◌>>◌,
}
use libfep.FepString.{FepString}
use libfep.Message.{ControlMessage, arg_at}

-- The C string in a block; with no NUL, its readers run past the end.
unfoldable pub text_in : Bytes → Outcome Bytes
text_in [] = fault
text_in (c ∷ s) = let rest = (do t ← text_in s; ok (c ∷ t)) in if c == 0 then ok [] else rest

abbrev pub text_at : ControlMessage → ℕ → Outcome Bytes
text_at request index = do arg ← arg_at request index; text_in arg.str

-- `== 0` on the result of a reader.
abbrev pub option_of : {A : Type 0} → Outcome A → Outcome (Option A)
option_of (ok a) = ok (some a)
option_of failed = ok none
option_of fault = fault
option_of died = died
option_of looping = looping

-- The three checks of a response: `n_args`, the length of the first argument, and the command.
abbrev pub is_command : ℕ → Bytes → Outcome (Unit {0})
is_command command [] = fault
is_command command (c ∷ s) = if c == command then ok tt else failed

unfoldable pub check_args : ControlMessage → List FepString → Outcome (Unit {0})
check_args request [] = failed
check_args request (arg ∷ args) =
    if arg.len == 1 then is_command request.command arg.str else failed

unfoldable pub check_response : ControlMessage → Outcome ControlMessage → Outcome ControlMessage
unfolding check_args
check_response request outcome = do
  response ← outcome
  check_args request response.args
  ok response
