-- ===== src/Input.antt =====
-- fep/input.c: the keyboard, with the bytes that were put back, and the descriptors to wait for.
pub mod Ready
use libfep.Base.{
  ℕ, suc, ◌+◌, ◌-◌, min, max, Option, none, some, List, Bytes, [], ◌∷◌, ◌++◌, length, take, drop,
  ltb, leb, if◌then◌else◌, Outcome, ok, failed, fault,
}
use libfep.Base.Act.{Act}
use libfep.FepString.{FepString}
use libfep.Wire.{Arrival, read_fd}

pub record Tty : Type 0 where
  pub arriving : List Arrival
  pub ttybuf : FepString

-- What a read leaves: the number that it returns, and the bytes that it has stored. What is in the
-- caller's buffer behind these is not written.
pub record Reading : Type 0 where
  pub returned : ℕ
  pub stored : Bytes

-- `memcpy (buf, ttybuf.str, n)` and the move of the rest to the front; the number returned is the
-- one that was asked for.
abbrev pub read_back : ℕ → Tty → Outcome Reading × Tty
read_back count tty =
    let buf = tty.ttybuf in
    let n = min count buf.len in
    if leb buf.len (length buf.str)
    then (
      ok (record { returned = count; stored = take n buf.str }),
      record tty {
        ttybuf = record buf {
          str = take (buf.len - n) (drop n buf.str) ++ drop (buf.len - n) buf.str;
          len = buf.len - n;
        };
      },
    )
    else (fault, tty)

abbrev pub reading : Option Bytes → Outcome Reading
reading none = failed
reading (some s) = ok (record { returned = length s; stored = s })

-- `_fep_read`
unfoldable pub read_tty : ℕ → Tty → Outcome Reading × Tty
read_tty count tty =
    if ltb 0 tty.ttybuf.len
    then read_back count tty
    else (let (r, arriving) = read_fd count tty.arriving in
        (reading r, record tty { arriving = arriving }))

-- The clients that are connected; `none` stands for -1.
abbrev pub connected : List (Option ℕ) → List ℕ
connected [] = []
connected (none ∷ clients) = connected clients
connected (some fd ∷ clients) = fd ∷ connected clients

abbrev pub largest : ℕ → List ℕ → ℕ
largest nfds [] = nfds
largest nfds (fd ∷ fds) = largest (max nfds fd) fds

-- What `_fep_pselect` does: it reports the terminal at once, or waits for some descriptors.
pub data Waiting : Type 0 where
  ready : ℕ → Waiting
  waits : List ℕ → ℕ → Waiting

-- `_fep_pselect`, on the descriptors of the terminal, the child process and the control socket
unfoldable pub pselect : Tty → ℕ → ℕ → ℕ → List (Option ℕ) → Waiting
pselect tty tty_in pty server clients =
    let fds = tty_in ∷ pty ∷ server ∷ connected clients in
    if ltb 0 tty.ttybuf.len then ready tty_in else waits fds (largest 0 fds + 1)
