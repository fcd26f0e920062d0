-- ===== src/Cli.antt =====
-- tools/cli.c: the command line client. What `getopt_long` makes of the arguments is given: the
-- options in order, and whether other arguments follow. What is printed and the log are left out.
pub mod Parsing
pub mod Requests
use libfep.Base.{
  ℕ, Bool, true, false, not, ◌&&◌, Option, none, some, List, Bytes, [], ◌∷◌, if◌then◌else◌, Outcome,
  ok, failed, fault, died, looping,
}
use libfep.Client.{Client, Filter, perform, dispatch}
use libfep.Client.Opening.{System, open_client}
use libfep.Request.{Call, set_cursor_text, set_status_text, send_text, Event}
use libfep.Wire.{Platform}

-- What `getopt_long` returns, with `optarg`; the long option for the log takes no argument, so that
-- `optarg` is null.
pub data Opt : Type 0 where
  cursor_opt status_opt send_opt : Bytes → Opt
  listen_opt : Opt
  log_opt : Option Bytes → Opt
  help_opt unknown_opt : Opt

pub record Options : Type 0 where
  pub cursor_text : Option Bytes
  pub status_text : Option Bytes
  pub send_text : Option Bytes
  pub listen_event : Bool
  pub log_file : Option Bytes

abbrev pub no_options : Options
no_options = record {
  cursor_text = none;
  status_text = none;
  send_text = none;
  listen_event = false;
  log_file = none;
}

-- The options, or the status that the program ends with.
pub data ParsedOptions : Type 0 where
  options : Options → ParsedOptions
  exits : ℕ → ParsedOptions

-- The loop over the options, with its `switch`
unfoldable pub parse : List Opt → Options → ParsedOptions
parse [] o = options o
parse (cursor_opt text ∷ opts) o = parse opts (record o { cursor_text = some text })
parse (status_opt text ∷ opts) o = parse opts (record o { status_text = some text })
parse (send_opt text ∷ opts) o = parse opts (record o { send_text = some text })
parse (listen_opt ∷ opts) o = parse opts (record o { listen_event = true })
parse (log_opt file ∷ opts) o = parse opts (record o { log_file = file })
parse (help_opt ∷ opts) o = exits 0
parse (unknown_opt ∷ opts) o = exits 1

-- `event_filter` prints the event, and returns 1.
abbrev pub event_filter : Filter
event_filter event = ([], 1)

-- The chain of `else if`: a request, or to wait for an event.
pub data Action : Type 0 where
  request : Call → Action
  listen : Action

abbrev pub action_of : Options → Option Action
action_of o = elim o.cursor_text [
  | some text ↦ some (request (set_cursor_text text none))
  | none ↦ elim o.status_text [
    | some text ↦ some (request (set_status_text text none))
    | none ↦ elim o.send_text [
      | some text ↦ some (request (Call.send_text text))
      | none ↦ if o.listen_event then some listen else none
    ]
  ]
]

-- `exit (0)` whatever a request does, which returns nothing
abbrev pub requested : Outcome (Unit {0}) × Client → Outcome ℕ × Option Client
requested (ok u, c) = (ok 0, some c)
requested (failed, c) = (ok 0, some c)
requested (fault, c) = (fault, some c)
requested (died, c) = (died, some c)
requested (looping, c) = (looping, some c)

abbrev pub listened : Outcome (Unit {0}) × Client → Outcome ℕ × Option Client
listened (ok u, c) = (ok 0, some c)
listened (failed, c) = (ok 1, some c)
listened (fault, c) = (fault, some c)
listened (died, c) = (died, some c)
listened (looping, c) = (looping, some c)

module _ (p : Platform) (fuel : ℕ) where
  abbrev pub act : Action → Client → Outcome ℕ × Option Client
  act (request call) c = requested (perform p fuel call c)
  act listen c = listened (dispatch p fuel (some event_filter) c)

  abbrev pub opened : Action → Outcome (Option Client) → Outcome ℕ × Option Client
  opened action (ok none) = (ok 1, none)
  opened action (ok (some c)) = act action c
  opened action failed = (failed, none)
  opened action fault = (fault, none)
  opened action died = (died, none)
  opened action looping = (looping, none)

  abbrev pub act_on : System → Option Action → Outcome ℕ × Option Client
  act_on system none = (ok 1, none)
  act_on system (some action) = opened action (open_client system none false)

  abbrev pub parsed : System → Bool → ParsedOptions → Outcome ℕ × Option Client
  parsed system has_operands (exits status) = (ok status, none)
  parsed system has_operands (options o) =
      if has_operands then (ok 1, none) else act_on system (action_of o)

  -- `main`: the exit status, and the client if one was opened.
  unfoldable pub main : System → List Opt → Bool → Outcome ℕ × Option Client
  main system opts has_operands = parsed system has_operands (parse opts no_options)
