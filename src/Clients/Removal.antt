-- ===== src/Clients/Removal.antt =====
-- What is left of the table when a client's connection ends.
use libfep.Base.{ℕ, suc, ◌-◌, ◌^◌, ◌<◌, ◌≡◌, refl, ap₂, ap, ◌∙◌, List, [], ◌∷◌, failed, All, arith}
use libfep.Clients.{
  Clients, image, ints, move_down, remove_at, find_client, remove_client,
  read_control_message_from_fd,
}
use libfep.Wire.{Platform, read_fd, first_byte, read_control_message}

abbrev pub Words : List ℕ → Type 0
Words = All (λ a. a < 2 ^ 32)

ints-image : (fds : List ℕ) → Words fds → ints (image fds) ≡ fds
unfolding ints image
ints-image [] h = refl
ints-image (a ∷ fds) (h, hs) = ap₂ ◌∷◌ (omega arith) (ints-image fds hs)

-- A connection that has ended fails, and its client is removed.
closed_lem :
    (p : Platform) (fuel fd : ℕ) (c : Clients)
    → read_control_message_from_fd p fuel fd [] c ≡ ((failed, []), remove_client fd c)
unfolding read_control_message_from_fd read_control_message read_fd first_byte
closed_lem p fuel fd c = refl

first_found :
    (n a : ℕ) (fds : List ℕ)
    → remove_client a (record { fds = a ∷ fds; n_clients = suc n })
      ≡ remove_at 0 (record { fds = a ∷ fds; n_clients = suc n })
unfolding remove_client find_client
first_found n a fds = ground arith

move_one_byte :
    (a b : ℕ) (rest : List ℕ)
    → a < 256
    → b < 256
    → Words rest
    → move_down 0 1 (a ∷ b ∷ rest) ≡ b ∷ b ∷ rest
unfolding move_down image ints
move_one_byte a b rest ha hb hr = ap₂ ◌∷◌ (omega arith) (ap₂ ◌∷◌ (omega arith) (ints-image rest hr))

move_two_bytes :
    (a b c : ℕ) (rest : List ℕ)
    → a < 2 ^ 16
    → b < 2 ^ 16
    → c < 2 ^ 16
    → Words rest
    → move_down 0 2 (a ∷ b ∷ c ∷ rest) ≡ b ∷ b ∷ c ∷ rest
unfolding move_down image ints
move_two_bytes a b c rest ha hb hc hr =
    ap₂ ◌∷◌ (omega arith) (ap₂ ◌∷◌ (omega arith) (ap₂ ◌∷◌ (omega arith) (ints-image rest hr)))

-- When the first of two clients closes its connection, the second one takes its place, if the
-- descriptors are below 256: a single byte is moved.
pub removes_first_of_two :
    (p : Platform) (fuel a b : ℕ) (rest : List ℕ)
    → a < 256
    → b < 256
    → Words rest
    → (read_control_message_from_fd p fuel a [] (record { fds = a ∷ b ∷ rest; n_clients = 2 })).1
      ≡ record { fds = b ∷ (2 ^ 32 - 1) ∷ rest; n_clients = 1 }
removes_first_of_two p fuel a b rest ha hb hr =
    ap (λ r. r.1) (closed_lem p fuel a (record { fds = a ∷ b ∷ rest; n_clients = 2 }))
    ∙ first_found 1 a (b ∷ rest)
    ∙ unfold remove_at in rw (move_one_byte a b rest ha hb hr)

-- When the first of three clients closes its connection, the second one stands twice in the table
-- and the third one is lost, if the descriptors are below 65536: `memmove` is given the number of
-- clients to move, not of bytes.
pub loses_third_client :
    (p : Platform) (fuel a b c : ℕ) (rest : List ℕ)
    → a < 2 ^ 16
    → b < 2 ^ 16
    → c < 2 ^ 16
    → Words rest
    → (read_control_message_from_fd p fuel a []
        (record { fds = a ∷ b ∷ c ∷ rest; n_clients = 3 })).1
      ≡ record { fds = b ∷ b ∷ (2 ^ 32 - 1) ∷ rest; n_clients = 2 }
loses_third_client p fuel a b c rest ha hb hc hr =
    ap (λ r. r.1) (closed_lem p fuel a (record { fds = a ∷ b ∷ c ∷ rest; n_clients = 3 }))
    ∙ first_found 2 a (b ∷ c ∷ rest)
    ∙ unfold remove_at in rw (move_two_bytes a b c rest ha hb hc hr)
