-- ===== src/Base/Ends.antt =====
-- What a computation establishes, whatever its outcome.
use libfep.Base.Results.{Outcome, ok, failed, fault, died, looping}
use libfep.Base.Act.{Act, and_then}

-- A postcondition of a computation: `P` of a result and its state, `F` of the state of a return of
-- -1. Where the process ends there is nothing to say.
abbrev pub Ends : {S A : Type 0} → (A → S → Type 0) → (S → Type 0) → Outcome A × S → Type 0
Ends P F (ok a, s) = P a s
Ends P F (failed, s) = F s
Ends P F (fault, s) = Unit
Ends P F (died, s) = Unit
Ends P F (looping, s) = Unit

pub Ends-and_then :
    {S A B : Type 0} (P : A → S → Type 0) (Q : B → S → Type 0) (F : S → Type 0) (r : Outcome A × S)
    (f : A → Act S B)
    → Ends P F r
    → ((a : A) (s : S) → P a s → Ends Q F (f a s))
    → Ends Q F (and_then r f)
Ends-and_then P Q F (ok a, s) f h k = k a s h
Ends-and_then P Q F (failed, s) f h k = h
Ends-and_then P Q F (fault, s) f h k = tt
Ends-and_then P Q F (died, s) f h k = tt
Ends-and_then P Q F (looping, s) f h k = tt

pub Ends-failed :
    {S A : Type 0} (P : A → S → Type 0) (F : S → Type 0) (r : Outcome A × S)
    → Ends P (λ _. ⊥) r
    → Ends P F r
Ends-failed P F (ok a, s) h = h
Ends-failed P F (failed, s) h = elim h [ ]
Ends-failed P F (fault, s) h = tt
Ends-failed P F (died, s) h = tt
Ends-failed P F (looping, s) h = tt

pub Ends-weaken :
    {S A : Type 0} (P Q : A → S → Type 0) (F : S → Type 0) (r : Outcome A × S)
    → Ends P F r
    → ((a : A) (s : S) → P a s → Q a s)
    → Ends Q F r
Ends-weaken P Q F (ok a, s) h k = k a s h
Ends-weaken P Q F (failed, s) h k = h
Ends-weaken P Q F (fault, s) h k = tt
Ends-weaken P Q F (died, s) h k = tt
Ends-weaken P Q F (looping, s) h k = tt

-- An outcome that is not a return of -1.
abbrev pub Returns : {A : Type 0} → Outcome A → Type 0
Returns failed = ⊥
Returns _ = Unit
