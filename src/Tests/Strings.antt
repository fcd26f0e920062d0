-- ===== src/Tests/Strings.antt =====
-- Byte buffers and string lists at fixed inputs.
use libfep.Base.{◌≡◌, refl, List, Bytes, [], ◌∷◌, ok, ◌>>=◌, arith}
use libfep.FepString.{FepString}
use libfep.FepString.Refines.{IsValid, contents, Op, put, put_c, reset, run, replay, run_refines}
use libfep.Strv.{strsplit, strjoinv}
use libfep.Strv.Fields.{fields, strsplit-fields}
use libfep.Strv.RoundTrip.{strsplit-strjoinv}
use libfep.Tests.{calloc}

-- "ab" in a block of three bytes
abbrev ab : FepString
ab = record { str = 97 ∷ 98 ∷ 0 ∷ []; len = 2; cap = 3 }

ab-IsValid : IsValid ab
ab-IsValid = record { block = refl; within_cap = omega arith }

abbrev script : List Op
script = put (99 ∷ 100 ∷ []) ∷ put_c 101 ∷ reset ∷ put (102 ∷ []) ∷ []

run_refines_example :
    (r : FepString) × (run calloc ab script ≡ ok r)
    × IsValid r
    × (contents r ≡ replay (97 ∷ 98 ∷ []) script)
run_refines_example = run_refines calloc script ab ab-IsValid (omega arith)

-- "1;5;"
abbrev params : Bytes
params = b'1' ∷ b';' ∷ b'5' ∷ b';' ∷ []

strsplit-fields_example : strsplit params (b';' ∷ []) ≡ ok (fields b';' params)
strsplit-fields_example = strsplit-fields b';' params

fields-params : fields b';' params ≡ (b'1' ∷ []) ∷ (b'5' ∷ []) ∷ []
unfolding fields
fields-params = refl

abbrev two : List Bytes
two = (b'1' ∷ []) ∷ (b'5' ∷ []) ∷ []

strsplit-strjoinv_example : (strjoinv two (b';' ∷ []) >>= λ s. strsplit s (b';' ∷ [])) ≡ ok two
strsplit-strjoinv_example =
    strsplit-strjoinv b';' two (((λ e. omega (arith, e)), tt), (((λ e. omega (arith, e)), tt), tt))
      (λ e. cc)
