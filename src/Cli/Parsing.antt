-- ===== src/Cli/Parsing.antt =====
-- What the loop over the options leaves: of each kind of option the last text.
use libfep.Base.{◌≡◌, refl, ap, ◌∙◌, sym, Option, none, some, true, List, All, Bytes, [], ◌∷◌, ◌++◌}
use libfep.Cli.{
  Opt, cursor_opt, status_opt, send_opt, listen_opt, log_opt, help_opt, unknown_opt, Options,
  no_options, options, parse, request, action_of,
}
use libfep.Request.{Call, set_cursor_text, set_status_text}

-- The texts of an option
abbrev pub cursor_text_of : Opt → Option Bytes
cursor_text_of (cursor_opt text) = some text
cursor_text_of _ = none

abbrev pub status_text_of : Opt → Option Bytes
status_text_of (status_opt text) = some text
status_text_of _ = none

abbrev pub send_text_of : Opt → Option Bytes
send_text_of (send_opt text) = some text
send_text_of _ = none

-- An option that does not end the program
abbrev pub Accepted : Opt → Type 0
Accepted help_opt = ⊥
Accepted unknown_opt = ⊥
Accepted _ = Unit

-- No option has such a text.
abbrev pub Lacks : (Opt → Option Bytes) → List Opt → Type 0
Lacks text_of opts = All (λ o. text_of o ≡ none) opts

-- The last such text of the options
pub record Last (text_of : Opt → Option Bytes) (opts : List Opt) (text : Bytes) : Type 0 where
  pub before : List Opt
  pub opt : Opt
  pub behind : List Opt
  pub splits : before ++ (opt ∷ behind) ≡ opts
  pub given : text_of opt ≡ some text
  pub none_behind : Lacks text_of behind

abbrev text_or : Option Bytes → Option Bytes → Option Bytes
text_or none d = d
text_or (some text) d = some text

last_text : (Opt → Option Bytes) → List Opt → Option Bytes → Option Bytes
last_text text_of [] d = d
last_text text_of (o ∷ opts) d = last_text text_of opts (text_or (text_of o) d)

last_text-Lacks :
    (text_of : Opt → Option Bytes) (opts : List Opt) (d : Option Bytes)
    → Lacks text_of opts
    → last_text text_of opts d ≡ d
unfolding last_text
last_text-Lacks text_of [] d h = refl
last_text-Lacks text_of (o ∷ opts) d (h, hs) = rw h (last_text-Lacks text_of opts d hs)

last_text-given :
    (text_of : Opt → Option Bytes) (before behind : List Opt) (o : Opt) (text : Bytes)
    (d : Option Bytes)
    → text_of o ≡ some text
    → Lacks text_of behind
    → last_text text_of (before ++ (o ∷ behind)) d ≡ some text
unfolding last_text
last_text-given text_of [] behind o text d e h =
    ap (λ x. last_text text_of behind (text_or x d)) e
    ∙ last_text-Lacks text_of behind (some text) h
last_text-given text_of (b ∷ before) behind o text d e h =
    last_text-given text_of before behind o text (text_or (text_of b) d) e h

last_text-Last :
    (text_of : Opt → Option Bytes) (opts : List Opt) (text : Bytes) (d : Option Bytes)
    → Last text_of opts text
    → last_text text_of opts d ≡ some text
last_text-Last text_of opts text d l =
    ap (λ os. last_text text_of os d) (sym l.splits)
    ∙ last_text-given text_of l.before l.behind l.opt text d l.given l.none_behind

-- The variables of `main` behind the loop
record Left (opts : List Opt) (o : Options) : Type 0 where
  pub left : Options
  pub parses : parse opts o ≡ options left
  pub has_cursor : left.cursor_text ≡ last_text cursor_text_of opts o.cursor_text
  pub has_status : left.status_text ≡ last_text status_text_of opts o.status_text
  pub has_send : left.send_text ≡ last_text send_text_of opts o.send_text

-- One option more, behind which the variables are `o'`
Left-suc :
    (opt : Opt) (opts : List Opt) (o o' : Options)
    → parse (opt ∷ opts) o ≡ parse opts o'
    → o'.cursor_text ≡ text_or (cursor_text_of opt) o.cursor_text
    → o'.status_text ≡ text_or (status_text_of opt) o.status_text
    → o'.send_text ≡ text_or (send_text_of opt) o.send_text
    → Left opts o'
    → Left (opt ∷ opts) o
unfolding last_text
Left-suc opt opts o o' p c s d l = record {
  left = l.left;
  parses = p ∙ l.parses;
  has_cursor = l.has_cursor ∙ ap (last_text cursor_text_of opts) c;
  has_status = l.has_status ∙ ap (last_text status_text_of opts) s;
  has_send = l.has_send ∙ ap (last_text send_text_of opts) d;
}

parse-Left : (opts : List Opt) (o : Options) → All Accepted opts → Left opts o
unfolding parse last_text
parse-Left [] o h = record {
  left = o;
  parses = refl;
  has_cursor = refl;
  has_status = refl;
  has_send = refl;
}
parse-Left (cursor_opt text ∷ opts) o (h, hs) =
    Left-suc (cursor_opt text) opts o (record o { cursor_text = some text }) refl refl refl refl
      (parse-Left opts _ hs)
parse-Left (status_opt text ∷ opts) o (h, hs) =
    Left-suc (status_opt text) opts o (record o { status_text = some text }) refl refl refl refl
      (parse-Left opts _ hs)
parse-Left (send_opt text ∷ opts) o (h, hs) =
    Left-suc (send_opt text) opts o (record o { send_text = some text }) refl refl refl refl
      (parse-Left opts _ hs)
parse-Left (listen_opt ∷ opts) o (h, hs) =
    Left-suc listen_opt opts o (record o { listen_event = true }) refl refl refl refl
      (parse-Left opts _ hs)
parse-Left (log_opt file ∷ opts) o (h, hs) =
    Left-suc (log_opt file) opts o (record o { log_file = file }) refl refl refl refl
      (parse-Left opts _ hs)
parse-Left (help_opt ∷ opts) o (h, hs) = elim h [ ]
parse-Left (unknown_opt ∷ opts) o (h, hs) = elim h [ ]

-- The request that the options ask for: a cursor text goes before a status text, and that before a
-- text to send; of each kind the last one counts.
pub data Asks (opts : List Opt) : Call → Type 0 where
  for_cursor :
      {text : Bytes} → Last cursor_text_of opts text → Asks opts (set_cursor_text text none)
  for_status :
      {text : Bytes}
      → Lacks cursor_text_of opts
      → Last status_text_of opts text
      → Asks opts (set_status_text text none)
  for_send :
      {text : Bytes}
      → Lacks cursor_text_of opts
      → Lacks status_text_of opts
      → Last send_text_of opts text
      → Asks opts (Call.send_text text)

action_of-Asks :
    (opts : List Opt) (l : Left opts no_options) (call : Call)
    → Asks opts call
    → action_of l.left ≡ some (request call)
action_of-Asks opts l call (for_cursor {text} c) =
    rw (l.has_cursor ∙ last_text-Last cursor_text_of opts text none c) refl
action_of-Asks opts l call (for_status {text} nc s) =
    rw
      (
        l.has_cursor ∙ last_text-Lacks cursor_text_of opts none nc,
        l.has_status ∙ last_text-Last status_text_of opts text none s,
      )
      refl
action_of-Asks opts l call (for_send {text} nc ns t) =
    rw
      (
        l.has_cursor ∙ last_text-Lacks cursor_text_of opts none nc,
        l.has_status ∙ last_text-Lacks status_text_of opts none ns,
        l.has_send ∙ last_text-Last send_text_of opts text none t,
      )
      refl

-- What the loop and the branches behind it make of the options
pub parsed-Asks :
    (opts : List Opt) (call : Call)
    → All Accepted opts
    → Asks opts call
    → (o : Options) × (parse opts no_options ≡ options o) × (action_of o ≡ some (request call))
parsed-Asks opts call h asks =
    let l = parse-Left opts no_options h in (l.left, l.parses, action_of-Asks opts l call asks)
