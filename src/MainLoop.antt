-- ===== src/MainLoop.antt =====
-- fep/fep.c, with `struct _Fep` of fep/private.h: what the program does with the keys that are
-- typed, with a new window size, with the text of the child process, with a client that connects,
-- and with its signals. The messages for clients are in Events, the handling of keys in Loop, that
-- of text of the child process and of a new size in Child, and the loop itself in Rounds.
pub mod Events
pub mod Loop
pub mod Child
pub mod Running
pub mod Signals
pub mod Serving
pub mod Rounds
pub mod Flags
pub mod Cooked
pub mod Connections
pub mod Turns
pub mod Shown
pub mod Stays
pub mod Drawing
pub mod Exits
pub mod Typing
pub mod Matching
pub mod Keys
use libfep.Base.{
  ℕ, zero, suc, ◌+◌, ◌-◌, bit_or, Bool, ◌&&◌, Option, none, some, List, Bytes, [], ◌∷◌, ◌++◌,
  length, drop, get_elem?, set, ◌==◌, ltb, leb, if◌then◌else◌, Outcome, ok, fault, looping,
}
use libfep.Clients.{Clients}
use libfep.Csi.{skip}
use libfep.Number.{is_digit}
use libfep.Strv.{has_prefix, strstr}

-- `memrchr (haystack, c, n)`: the last place below `n` that holds this byte
unfoldable pub memrchr : Bytes → ℕ → ℕ → Option ℕ
memrchr haystack c zero = none
memrchr haystack c (suc n) =
    let rest = memrchr haystack c n in
    elim (get_elem? haystack n) [ none ↦ rest | some a ↦ if a == c then some n else rest ]

-- The test at a place of the first byte, with its `memcmp`.
abbrev pub matches_at : Bytes → Bytes → ℕ → Bool
matches_at haystack needle p =
    leb (length needle) (length haystack - p) && has_prefix needle (drop p haystack)

-- `while (_haystacklen > 0)`, with fuel
unfoldable pub match_loop : ℕ → Bytes → ℕ → Bytes → ℕ → Outcome (Option ℕ)
match_loop zero haystack c needle n = looping
match_loop (suc f) haystack c needle zero = ok none
match_loop (suc f) haystack c needle (suc n) = elim (memrchr haystack c (suc n)) [
  | none ↦ ok none
  | some p ↦
      (let rest = match_loop f haystack c needle p in
        if matches_at haystack needle p then ok (some (p + length needle)) else rest)
]

-- `*(const char *) needle`, at the terminating NUL if there is no other byte
abbrev pub first_byte_of : Bytes → ℕ
first_byte_of [] = 0
first_byte_of (c ∷ s) = c

-- The end of the last occurrence, as a place of the text
unfoldable pub find_match_end : Bytes → Bytes → Outcome (Option ℕ)
find_match_end haystack needle =
    match_loop (suc (length haystack)) haystack (first_byte_of needle) needle (length haystack)

-- From `if (*p != '>')` on: `from` is what starts at `start`.
abbrev pub cut_padding : Bytes → Bytes → Bytes → Bytes
cut_padding str before [] = str
cut_padding str before (c ∷ p) = if c == b'>' then before ++ p else str

abbrev pub padding_at : Bytes → Option (Bytes × Bytes) → Bytes
padding_at str none = str
padding_at str (some (before, from)) =
    let (digits, p) = skip is_digit from in cut_padding str before p

unfoldable pub remove_padding : Bytes → Bytes
remove_padding str = padding_at str (strstr str (b'$' ∷ b'<' ∷ []))

-- The signals that the program takes
pub data Signal : Type 0 where
  hup term quit winch tstp other : Signal

abbrev pub flag_term : ℕ
flag_term = 1

abbrev pub flag_winch : ℕ
flag_winch = 4

abbrev pub flag_tstp : ℕ
flag_tstp = 32

-- `signal_handler`
unfoldable pub signal_handler : Signal → ℕ → ℕ
signal_handler hup signals = bit_or signals flag_term
signal_handler term signals = bit_or signals flag_term
signal_handler quit signals = bit_or signals flag_term
signal_handler winch signals = bit_or signals flag_winch
signal_handler tstp signals = bit_or signals flag_tstp
signal_handler other signals = signals

-- `fep->clients[fep->n_clients++] = fd`: a place past the array is a fault.
unfoldable pub add_client : ℕ → Clients → Outcome Clients
add_client fd c =
    if ltb c.n_clients (length c.fds)
    then ok (record { fds = set c.fds c.n_clients fd; n_clients = c.n_clients + 1 })
    else fault
