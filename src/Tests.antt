-- ===== src/Tests.antt =====
-- A concrete allocator and platform, for the runs of its children on fixed inputs.
mod Strings
mod Sequences
mod Messages
mod Sockets
mod Calls
mod Servers
mod Attributes
mod Lists
mod Texts
mod Screens
mod Passing
mod Loops
mod Rounds
mod Typing
mod Commands
mod Bindings
mod Logs
use libfep.Base.{
  ℕ, ◌≤◌, ◌≡◌, Bytes, ◌++◌, length, take, drop, replicate, none, length-take, length-append,
  length-replicate, take-append_le, arith, true, zero, suc, List, [], ◌∷◌, refl, ap, ◌∙◌,
}
use libfep.Cap.{Tigetstr}
use libfep.FepString.{Memory}
use libfep.Wire.{Platform}

-- Fresh memory is filled with zeros.
abbrev pub zeros : ℕ → Bytes
zeros n = replicate n 0

pub take-take : (k n : ℕ) (s : Bytes) → k ≤ n → take k (take n s) ≡ take k s
take-take zero n s h = refl
take-take (suc k) zero s h = absurd (omega arith)
take-take (suc k) (suc n) [] h = refl
take-take (suc k) (suc n) (c ∷ s) h = ap (◌∷◌ c) (take-take k n s (omega arith))

abbrev pub calloc : Memory
calloc = record {
  alloc = zeros;
  realloc = λ s n. take n (s ++ zeros n);
  length-alloc = λ n. length-replicate {A = ℕ} n 0;
  length-realloc = λ s n. omega (
    arith,
    length-take n (s ++ zeros n),
    length-append s (zeros n),
    length-replicate {A = ℕ} n 0,
  );
  take-realloc = λ k s n h l. take-take k n (s ++ zeros n) l ∙ take-append_le k s (zeros n) h;
}

abbrev pub linux : Platform
linux = record { buf_size = 8192; char_signed = true; memory = calloc }

-- A terminal without capabilities.
abbrev pub dumb : Tigetstr
dumb name = none
