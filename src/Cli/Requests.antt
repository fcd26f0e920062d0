-- ===== src/Cli/Requests.antt =====
-- What the command line client sends.
use libfep.Base.{
  ℕ, ◌+◌, ◌<◌, ◌≡◌, refl, ap, ◌∙◌, true, false, none, some, List, All, Bytes, [], length, leb,
  arith, ok,
}
use libfep.Cli.{Opt, request, requested, opened, main}
use libfep.Cli.Parsing.{Accepted, Asks, parsed-Asks}
use libfep.Client.Calls.{arguments, Short, encode_call, perform_writes}
use libfep.Client.Opening.{System, new_client, open_client}
use libfep.Request.{Call}
use libfep.Wire.{Platform, Arrival}
use libfep.Wire.Send.{open_sink}

module _ (p : Platform) (fuel : ℕ) (system : System) where
  open_client_lem :
      (path : Bytes) (incoming : List Arrival)
      → system.control_sock ≡ some path
      → length path + 1 < system.path_size
      → system.has_socket ≡ true
      → system.connect path ≡ some (incoming, open_sink [])
      → open_client system none false ≡ ok (some (new_client (incoming, open_sink [])))
  unfolding open_client
  open_client_lem path incoming e l s k =
      let short : leb system.path_size (length path + 1) ≡ false = ground (arith, l) in
      rw e (rw (short, s, k) refl)

  -- The program connects to the address in the environment, writes the one request that its options
  -- ask for and nothing else, and ends with status 0: the last cursor text if one is given, else the
  -- last status text, else the last text to send. Conditions: no option asks for help or is unknown,
  -- there are no other arguments, the path fits, the server is there and takes what it is given, and
  -- the fuel is more than the length of each argument of the request.
  pub main_requests :
      (opts : List Opt) (call : Call) (path : Bytes) (incoming : List Arrival)
      → All Accepted opts
      → Asks opts call
      → system.control_sock ≡ some path
      → length path + 1 < system.path_size
      → system.has_socket ≡ true
      → system.connect path ≡ some (incoming, open_sink [])
      → Short fuel (arguments call)
      → main p fuel system opts false
        ≡ (ok 0, some (new_client (incoming, open_sink (encode_call call))))
  unfolding main
  main_requests opts call path incoming h asks en l s k short =
      let (o, e, a) = parsed-Asks opts call h asks in
      rw (e, a)
        (ap (opened p fuel (request call)) (open_client_lem path incoming en l s k)
          ∙ ap requested
              (perform_writes p fuel call (new_client (incoming, open_sink [])) [] refl refl short))
