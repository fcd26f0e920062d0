-- ===== src/Base/Act.antt =====
-- Computations that change a state and can end as C calls do.
use libfep.Base.Results.{Outcome, ok, failed, fault, died, looping}

abbrev pub Act : Type 0 → Type 0 → Type 0
Act S A = S → Outcome A × S

-- An outcome other than `ok` ends the call, in the state that it was reached in.
abbrev pub and_then : {S A B : Type 0} → Outcome A × S → (A → Act S B) → Outcome B × S
and_then (ok a, s) f = f a s
and_then (failed, s) f = (failed, s)
and_then (fault, s) f = (fault, s)
and_then (died, s) f = (died, s)
and_then (looping, s) f = (looping, s)

infixl 5 ◌>>=◌ ◌>>◌
abbrev pub ◌>>=◌ : {S A B : Type 0} → Act S A → (A → Act S B) → Act S B
◌>>=◌ m f s = and_then (m s) f

abbrev pub ◌>>◌ : {S B : Type 0} → Act S (Unit {0}) → Act S B → Act S B
m >> k = m >>= λ _. k

abbrev pub lift : {S A : Type 0} → Outcome A → Act S A
lift o s = (o, s)

abbrev pub pure : {S A : Type 0} → A → Act S A
pure a s = (ok a, s)
