-- ===== src/Key/Params.antt =====
-- Parameters of control sequences: what `%d` printed is what the reader accepts.
use libfep.Base.{ℕ, ◌^◌, ◌<◌, ◌≡◌, ◌∙◌, ap, sym, some, [], ok, arith, append-nil}
use libfep.Key.Escape.{checked, second_param}
use libfep.Number.{decimal, strtoul}
use libfep.Number.RoundTrip.{strtoul-decimal}

-- A parameter printed with `%d` passes the reader's assertion and is read back, if it is below
-- 2^32.
pub second_param-decimal : (n : ℕ) → n < 2 ^ 32 → second_param (some (decimal n)) ≡ ok n
second_param-decimal n h =
    ap (λ s. checked (strtoul s)) (sym (append-nil (decimal n)))
    ∙ ap checked (strtoul-decimal n [] (omega arith) tt)
    ∙ ground arith
