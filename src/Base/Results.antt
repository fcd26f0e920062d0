-- ===== src/Base/Results.antt =====
-- How a call of the C code can end.
use mathlib.Core.Path.{◌≡◌, refl}

-- `ok` is a normal return, `failed` the return of -1, NULL or false, `fault` an access outside
-- its object, `died` the end of the process (`xalloc_die`, a failed `assert`), and `looping`
-- says that the rounds granted to a loop ran out.
pub data Outcome {ℓ} (A : Type ℓ) : Type ℓ where
  ok : A → Outcome A
  failed fault died looping : Outcome A

infixl 5 ◌>>=◌ ◌>>◌
abbrev pub ◌>>=◌ {ℓ κ} : {A : Type ℓ} {B : Type κ} → Outcome A → (A → Outcome B) → Outcome B
ok a >>= f = f a
failed >>= f = failed
fault >>= f = fault
died >>= f = died
looping >>= f = looping

abbrev pub ◌>>◌ {ℓ} : {B : Type ℓ} → Outcome (Unit {0}) → Outcome B → Outcome B
m >> k = m >>= λ _. k

pub bind-eq-ok {ℓ κ} :
    {A : Type ℓ} {B : Type κ} (m : Outcome A) (f : A → Outcome B) {b : B}
    → (m >>= f) ≡ ok b
    → (a : A) × (m ≡ ok a) × (f a ≡ ok b)
bind-eq-ok (ok a) f h = (a, refl, h)
bind-eq-ok failed f h = cc
bind-eq-ok fault f h = cc
bind-eq-ok died f h = cc
bind-eq-ok looping f h = cc
