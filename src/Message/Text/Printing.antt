-- ===== src/Message/Text/Printing.antt =====
-- The text of a message fits the block that is allocated for it.
use libfep.Base.{
  ℕ, suc, subst, ◌+◌, ◌-◌, ◌*◌, ◌≤◌, ◌≡◌, refl, sym, ap, ap₂, ◌∙◌, true, some, List, Bytes, [], ◌∷◌,
  ◌++◌, length, drop, set, replicate, map, ltb, leb, arith, All, append-nil, append_assoc,
  length-append, length-replicate, length-drop, take-append, take_all, Outcome, ok, ◌>>=◌,
}
use libfep.FepString.{FepString}
use libfep.Message.{ControlMessage}
use libfep.Message.Text.{
  get_name, hex_of, args_size, put, put_bytes, put_args, end_text, print, message_to_string,
}
use libfep.Strv.RoundTrip.{join}
use libfep.Wire.{readable}

-- The two digits of each byte.
unfoldable pub hex_text : Bytes → Bytes
hex_text [] = []
hex_text (c ∷ s) = hex_of c ++ hex_text s

-- Each argument, with a space behind it.
unfoldable args_text : List FepString → Bytes
args_text [] = []
args_text (arg ∷ args) = (hex_text arg.str ++ b' ' ∷ []) ++ args_text args

-- A block whose first part is written, with `p` behind that part.
abbrev behind : Bytes → Bytes → Bytes × ℕ
behind w r = (w ++ r, length w)

drop_behind : (w r : Bytes) (n : ℕ) → drop (length w + n) (w ++ r) ≡ drop n r
drop_behind [] r n = ap (λ k. drop k r) (omega arith)
drop_behind (c ∷ w) r n =
    let next : length (c ∷ w) + n ≡ suc (length w + n) = omega arith in
    ap (λ k. drop k (c ∷ (w ++ r))) next ∙ drop_behind w r n

put-behind :
    (a b w r : Bytes)
    → length (a ++ b) ≤ length r
    → put (a ++ b) (length a) (behind w r) ≡ ok (behind (w ++ a) (b ++ drop (length (a ++ b)) r))
put-behind a b w r h =
    let fits : leb (length w + length (a ++ b)) (length (w ++ r)) ≡ true =
      ground (arith, length-append w r, h) in
    rw (fits, take-append (length w) w r refl, drop_behind w r (length (a ++ b)))
      (ap₂ (λ u v. ok (u, v)) (simp append_assoc refl) (sym (length-append w a)))

put_all-behind :
    (a w r : Bytes)
    → length a ≤ length r
    → put a (length a) (behind w r) ≡ ok (behind (w ++ a) (drop (length a) r))
put_all-behind a w r h =
    subst (λ x. put x (length a) (behind w r) ≡ ok (behind (w ++ a) (drop (length x) r)))
      (append-nil a) (put-behind a [] w r (omega (arith, h, ap length (append-nil a))))

-- What is left of the block behind a text, and how long that is.
abbrev Written : Bytes → Bytes → ℕ → Outcome (Bytes × ℕ) → Type 0
Written w r n out = (r' : Bytes) × (out ≡ ok (behind w r')) × (length r' + n ≡ length r)

put_bytes-Written :
    (s w r : Bytes)
    → length s * 2 + 1 ≤ length r
    → Written (w ++ hex_text s) r (length s * 2) (put_bytes s (behind w r))
unfolding put_bytes hex_text
put_bytes-Written [] w r h = (r, ap (λ u. ok (behind u r)) (sym (append-nil w)), omega arith)
put_bytes-Written (c ∷ s) w r h =
    let r1 = 0 ∷ drop 3 r in
    let (r2, e, l) = put_bytes-Written s (w ++ hex_of c) r1 (omega (arith, length-drop 3 r, h)) in
    (
      r2,
      ap (λ o. o >>= λ at. put_bytes s at) (put-behind (hex_of c) (0 ∷ []) w r (omega (arith, h)))
          ∙ e
          ∙ ap (λ u. ok (behind u r2)) (append_assoc w (hex_of c) (hex_text s)),
      omega (arith, l, length-drop 3 r, h),
    )

readable_whole : (arg : FepString) → arg.len ≡ length arg.str → readable arg ≡ ok arg.str
readable_whole arg h =
    let fits : leb arg.len (length arg.str) ≡ true = ground (arith, h) in
    rw fits (ap ok (take_all arg.len arg.str (omega (arith, h))))

put_args-Written :
    (args : List FepString) (w r : Bytes)
    → All (λ arg. arg.len ≡ length arg.str) args
    → args_size args ≤ length r
    → Written (w ++ args_text args) r (args_size args) (put_args args (behind w r))
unfolding put_args args_size args_text
put_args-Written [] w r h l = (r, ap (λ u. ok (behind u r)) (sym (append-nil w)), omega arith)
put_args-Written (arg ∷ args) w r (h, hs) l =
    let s = arg.str in
    let (r1, e1, l1) = put_bytes-Written s w r (omega (arith, h, l)) in
    let w1 = w ++ hex_text s in
    let r2 = drop 1 r1 in
    let (r3, e3, l3) =
      put_args-Written args (w1 ++ b' ' ∷ []) r2 hs (omega (arith, h, l, l1, length-drop 1 r1)) in
    (
      r3,
      rw (readable_whole arg h, e1)
          (ap (λ o. o >>= λ at. put_args args at)
              (put-behind (b' ' ∷ []) [] w1 r1 (omega (arith, h, l, l1)))
            ∙ e3
            ∙ ap (λ u. ok (behind u r3)) (simp append_assoc refl)),
      omega (arith, h, l1, l3, length-drop 1 r1, l),
    )

-- The words with a space behind each are the words with a space between each two, and one more.
words_text :
    (name : Bytes) (args : List FepString)
    → (name ++ b' ' ∷ []) ++ args_text args
      ≡ join (b' ' ∷ []) (name ∷ map (λ arg. hex_text arg.str) args) ++ b' ' ∷ []
unfolding args_text join
words_text name [] = append-nil (name ++ b' ' ∷ [])
words_text name (arg ∷ args) =
    ap (◌++◌ (name ++ b' ' ∷ [])) (words_text (hex_text arg.str) args) ∙ simp append_assoc refl

set_last : (w : Bytes) (c d : ℕ) → set (w ++ c ∷ []) (length w) d ≡ w ++ d ∷ []
set_last [] c d = refl
set_last (a ∷ w) c d = ap (◌∷◌ a) (set_last w c d)

end_text_lem :
    (w r : Bytes) → length r ≡ 0 → end_text (behind (w ++ b' ' ∷ []) r) ≡ ok (w ++ 0 ∷ [])
end_text_lem w [] h =
    let place : length (w ++ b' ' ∷ []) - 1 ≡ length w =
      omega (arith, length-append w (b' ' ∷ [])) in
    let fits : ltb (length w) (length ((w ++ b' ' ∷ []) ++ [])) ≡ true =
      ground (arith, length-append w (b' ' ∷ []), ap length (append-nil (w ++ b' ' ∷ []))) in
    rw (place, fits)
      (ap ok (ap (λ x. set x (length w) 0) (append-nil (w ++ b' ' ∷ [])) ∙ set_last w b' ' 0))
end_text_lem w (c ∷ r) h = absurd (omega (arith, h))

print_lem :
    (name : Bytes) (args : List FepString)
    → All (λ arg. arg.len ≡ length arg.str) args
    → print name args ≡ ok (join (b' ' ∷ []) (name ∷ map (λ arg. hex_text arg.str) args) ++ 0 ∷ [])
print_lem name args h =
    let total = (length name + 1) + args_size args in
    let block : Bytes = replicate total 0 in
    let size : length block ≡ total = length-replicate {A = ℕ} total 0 in
    let r1 = drop (length name) block in
    let r2 = drop 1 r1 in
    let spaced = name ++ b' ' ∷ [] in
    let words = join (b' ' ∷ []) (name ∷ map (λ arg. hex_text arg.str) args) in
    let (r3, e3, l3) =
      put_args-Written args spaced r2 h
        (omega (arith, size, length-drop (length name) block, length-drop 1 r1)) in
    let e1 = put_all-behind name [] block (omega (arith, size)) in
    let e2 =
      put_all-behind (b' ' ∷ []) name r1 (omega (arith, size, length-drop (length name) block)) in
    ap (λ o. o >>= λ named. put (b' ' ∷ []) 1 named >>= λ at. put_args args at >>= end_text) e1
    ∙ ap (λ o. o >>= λ at. put_args args at >>= end_text) e2
    ∙ ap (λ o. o >>= end_text) e3
    ∙ ap (λ w. end_text (behind w r3)) (words_text name args)
    ∙ end_text_lem words r3
        (omega (arith, l3, size, length-drop (length name) block, length-drop 1 r1))

-- The text of a message whose command is known is its name and the bytes of each argument in two
-- digits, with a space between each two words, and no write falls outside the block that was
-- allocated for it, if the length of each argument is that of its block.
pub message_to_string_lem :
    (message : ControlMessage) (name : Bytes)
    → get_name message.command ≡ some name
    → All (λ arg. arg.len ≡ length arg.str) message.args
    → message_to_string message
      ≡ ok (join (b' ' ∷ []) (name ∷ map (λ arg. hex_text arg.str) message.args) ++ 0 ∷ [])
unfolding message_to_string
message_to_string_lem message name e h = rw (e, message_to_string) (print_lem name message.args h)
