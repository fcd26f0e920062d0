-- ===== src/Wire/Send.antt =====
-- What `_fep_write_control_message` puts on the socket.
use libfep.Base.{
  ℕ, zero, suc, ◌<◌, min, ◌≡◌, sym, ap, ap₂, ◌∙◌, true, some, List, Bytes, [], ◌∷◌, ◌++◌, length,
  take, drop, map, leb, ok, arith, append_assoc, append-nil, length-drop, take-append-drop,
  drop_all, take_all, take-min, All,
}
use libfep.Message.{exact, le32}
use libfep.Wire.{
  Answer, takes, refuses, Sink, write_fd, write_body, write_one, write_args, write_control_message,
}

-- The format of an argument and of a message.
abbrev pub encode_arg : Bytes → Bytes
encode_arg s = le32 (length s) ++ s

unfoldable pub encode_args : List Bytes → Bytes
encode_args [] = []
encode_args (s ∷ ss) = encode_arg s ++ encode_args ss

abbrev pub encode : ℕ → List Bytes → Bytes
encode command ss = command ∷ encode_args ss

-- Every write takes at least one byte.
abbrev pub Willing : List Answer → Type 0
Willing [] = Unit
Willing (takes k ∷ r) = (0 < k) × Willing r
Willing (refuses ∷ r) = ⊥

write_fd-Willing :
    (c : ℕ) (s out : Bytes) (answers : List Answer)
    → Willing answers
    → (n : ℕ) × (r : List Answer) × (write_fd (c ∷ s) (record { sent = out; answers = answers })
        ≡ (some (suc n), record { sent = out ++ take (suc n) (c ∷ s); answers = r }))
      × Willing r
unfolding write_fd
write_fd-Willing c s out [] w = (
  length s,
  [],
  ap (λ t. (some (suc (length s)), record { sent = out ++ c ∷ t; answers = [] }))
      (sym (take_all (length s) s (omega arith))),
  tt,
)
write_fd-Willing c s out (takes zero ∷ r) w = absurd (omega arith)
write_fd-Willing c s out (takes (suc k) ∷ r) w = (
  min k (length s),
  r,
  ap₂ (λ (n : ℕ) (t : Bytes). (some n, record { sent = out ++ c ∷ t; answers = r })) (omega arith)
      (sym (take-min k s)),
  w.1,
)
write_fd-Willing c s out (refuses ∷ r) w = elim w [ ]

-- However the system splits the writes of an argument's bytes, as long as each takes at least one
-- byte, the loop ends within one round more than there are bytes, and all bytes are written, once
-- and in order.
pub write_body_lem :
    (f : ℕ) (s out : Bytes) (answers : List Answer)
    → length s < f
    → Willing answers
    → (r : List Answer) × (write_body f s (record { sent = out; answers = answers })
        ≡ (ok tt, record { sent = out ++ s; answers = r }))
      × Willing r
unfolding write_body
write_body_lem zero s out answers h w = absurd (omega arith)
write_body_lem (suc f) [] out answers h w =
    (answers, ap (λ t. (ok tt, record { sent = t; answers = answers })) (sym (append-nil out)), w)
write_body_lem (suc f) (c ∷ s) out answers h w =
    let (n, r, e, w1) = write_fd-Willing c s out answers w in
    let (r', e', w') =
      write_body_lem f (drop n s) (out ++ take (suc n) (c ∷ s)) r (omega (arith, length-drop n s))
        w1 in
    (
      r',
      rw e (
          e'
          ∙ ap (λ t. (ok tt, record { sent = t; answers = r' }))
              (append_assoc out (take (suc n) (c ∷ s)) (drop n s)
                ∙ ap (◌++◌ out) (take-append-drop (suc n) (c ∷ s)))),
      w',
    )

-- Where the system takes every write whole.
abbrev pub open_sink : Bytes → Sink
open_sink out = record { sent = out; answers = [] }

write_body-open_sink :
    (f : ℕ) (s out : Bytes)
    → length s < f
    → write_body f s (open_sink out) ≡ (ok tt, open_sink (out ++ s))
unfolding write_body write_fd
write_body-open_sink zero s out h = absurd (omega arith)
write_body-open_sink (suc f) [] out h = rw append-nil
write_body-open_sink (suc zero) (c ∷ s) out h = absurd (omega arith)
write_body-open_sink (suc (suc f)) (c ∷ s) out h =
    ap (λ t. write_body (suc f) t (open_sink (out ++ c ∷ s))) (drop_all (length s) s (omega arith))

write_one_lem :
    (f : ℕ) (s out : Bytes)
    → length s < f
    → write_one f (exact s) (open_sink out) ≡ (ok tt, open_sink (out ++ encode_arg s))
unfolding write_one write_fd
write_one_lem f s out h =
    let all : leb (length s) (length s) ≡ true = ground arith in
    rw (
      all,
      take_all (length s) s (omega arith),
      write_body-open_sink f s (out ++ le32 (length s)) h,
      append_assoc out (le32 (length s)) s,
    )

write_args_lem :
    (f : ℕ) (ss : List Bytes) (out : Bytes)
    → All (λ s. length s < f) ss
    → write_args f (map exact ss) (open_sink out) ≡ (ok tt, open_sink (out ++ encode_args ss))
unfolding write_args encode_args
write_args_lem f [] out h = rw append-nil
write_args_lem f (s ∷ ss) out (h, hs) = rw (
  write_one_lem f s out h,
  write_args_lem f ss (out ++ encode_arg s) hs,
  append_assoc out (encode_arg s) (encode_args ss),
)

-- A message is written as its command byte, and for each argument the length in four bytes, lowest
-- first, and the bytes, if every write is taken whole and the fuel is more than the length of every
-- argument.
pub write_control_message_lem :
    (f command : ℕ) (ss : List Bytes) (out : Bytes)
    → All (λ s. length s < f) ss
    → write_control_message f (record { command = command; args = map exact ss }) (open_sink out)
      ≡ (ok tt, open_sink (out ++ encode command ss))
unfolding write_control_message write_fd
write_control_message_lem f command ss out h =
    rw (
      write_args_lem f ss (out ++ command ∷ []) h,
      append_assoc out (command ∷ []) (encode_args ss),
    )
