-- ===== src/Input/Ready.antt =====
-- The descriptors that the main loop waits for.
use libfep.Base.{ℕ, ◌+◌, ◌≤◌, ◌<◌, ◌≡◌, max, false, Option, List, [], ◌∷◌, ltb, All, arith}
use libfep.Input.{Tty, connected, largest, waits, pselect}

largest_ge : (n : ℕ) (fds : List ℕ) → n ≤ largest n fds
largest_ge n [] = omega arith
largest_ge n (fd ∷ fds) = omega (arith, largest_ge (max n fd) fds)

largest-All : (n : ℕ) (fds : List ℕ) → All (λ fd. fd ≤ largest n fds) fds
largest-All n [] = tt
largest-All n (fd ∷ fds) = (omega (arith, largest_ge (max n fd) fds), largest-All (max n fd) fds)

below_sum : (n : ℕ) (fds : List ℕ) → All (λ fd. fd ≤ n) fds → All (λ fd. fd < n + 1) fds
below_sum n [] h = tt
below_sum n (fd ∷ fds) (h, hs) = (omega arith, below_sum n fds hs)

-- With nothing put back, `_fep_pselect` waits for the terminal, the child process, the control
-- socket and every connected client, and the number that it gives to `pselect` is above them all.
pub pselect_covers :
    (tty : Tty) (tty_in pty server : ℕ) (clients : List (Option ℕ))
    → tty.ttybuf.len ≡ 0
    → (nfds : ℕ) × (pselect tty tty_in pty server clients
        ≡ waits (tty_in ∷ pty ∷ server ∷ connected clients) nfds)
      × All (λ fd. fd < nfds) (tty_in ∷ pty ∷ server ∷ connected clients)
unfolding pselect
pselect_covers tty tty_in pty server clients h =
    let fds = tty_in ∷ pty ∷ server ∷ connected clients in
    let empty : ltb 0 tty.ttybuf.len ≡ false = ground arith in
    (largest 0 fds + 1, rw (empty, pselect), below_sum (largest 0 fds) fds (largest-All 0 fds))
