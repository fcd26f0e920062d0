-- ===== src/Glib/Objects.antt =====
-- libfep-glib/fepgclient.c, lines 58 to 62, 93 to 114 and 147 to 445: the object around a client, from
-- its construction to its end. The construction and the end of an object are GLib's, and parameters.
use libfep.Base.{
  ℕ, ◌+◌, ◌≡◌, Bool, true, false, Option, none, some, Bytes, length, leb, Outcome, ok, failed,
  fault, died, looping,
}
use libfep.Base.Act.{Act}
use libfep.Client.{Client, Filter, perform, dispatch}
use libfep.Client.Opening.{System, open_client}
use libfep.Request.{Call}
use libfep.Wire.{Platform}

-- `struct _FepGClientPrivate`; `is_freed` says whether the block of the address has been released.
pub record GClient : Type 0 where
  pub client : Option Client
  pub address : Option Bytes
  pub is_freed : Bool

-- `fep_g_client_set_property` and `fep_g_client_get_property`, for the one property there is
unfoldable pub set_address : Option Bytes → GClient → GClient
set_address value m = record m { address = value; is_freed = false }

unfoldable pub get_address : GClient → Option Bytes
get_address m = m.address

-- Whether `fep_client_open` releases the address: it does if the path is too long.
abbrev pub releases : System → Option Bytes → Bool
releases system none = false
releases system (some path) = leb system.path_size (length path + 1)

abbrev pub opened_as : Outcome (Option Client) → GClient → Outcome Bool × GClient
opened_as (ok none) m = (ok false, record m { client = none })
opened_as (ok (some client)) m = (ok true, record m { client = some client })
opened_as failed m = (failed, m)
opened_as fault m = (fault, m)
opened_as died m = (died, m)
opened_as looping m = (looping, m)

-- `initable_init`
unfoldable pub initable_init : System → Act GClient Bool
initable_init system m =
    opened_as (open_client system m.address true)
      (record m { is_freed = releases system m.address })

abbrev pub free_string : Option Bytes → Bool → Outcome (Unit {0})
free_string none is_freed = ok tt
free_string (some s) true = fault
free_string (some s) false = ok tt

-- `fep_g_client_finalize`; closing the connection changes no state that is followed here.
unfoldable pub finalize : Act GClient (Unit {0})
finalize m = (free_string m.address m.is_freed, record m { is_freed = true })

-- `g_initable_new`: the object is initialised, and given up where that fails.
pub record Construction : Type 0 where
  pub construct : Act GClient Bool → Act GClient (Unit {0}) → GClient → Outcome (Option GClient)
  pub construct-true :
      (init : Act GClient Bool) (final : Act GClient (Unit {0})) (m m' : GClient)
      → init m ≡ (ok true, m')
      → construct init final m ≡ ok (some m')
  pub construct-false :
      (init : Act GClient Bool) (final : Act GClient (Unit {0})) (m m' m'' : GClient)
      → init m ≡ (ok false, m')
      → final m' ≡ (ok tt, m'')
      → construct init final m ≡ ok none
  pub construct-fault :
      (init : Act GClient Bool) (final : Act GClient (Unit {0})) (m m' m'' : GClient)
      → init m ≡ (ok false, m')
      → final m' ≡ (fault, m'')
      → construct init final m ≡ fault

-- `fep_g_client_new`
unfoldable pub g_client_new : Construction → System → Option Bytes → Outcome (Option GClient)
g_client_new c system address =
    c.construct (initable_init system) finalize
      (set_address address (record { client = none; address = none; is_freed = false }))

-- A call on `priv->client`
abbrev pub stored : {A : Type 0} → GClient → Outcome A × Client → Outcome A × GClient
stored m (r, client) = (r, record m { client = some client })

abbrev pub on_client : {A : Type 0} → Act Client A → Option Client → Act GClient A
on_client act none m = (fault, m)
on_client act (some client) m = stored m (act client)

-- `retval == 0`
abbrev pub is_zero : {S : Type 0} → Outcome (Unit {0}) × S → Outcome Bool × S
is_zero (ok u, s) = (ok true, s)
is_zero (failed, s) = (ok false, s)
is_zero (fault, s) = (fault, s)
is_zero (died, s) = (died, s)
is_zero (looping, s) = (looping, s)

module _ (p : Platform) (fuel : ℕ) where
  -- `fep_g_client_set_cursor_text` and the four calls like it
  unfoldable pub g_perform : Call → Act GClient (Unit {0})
  g_perform call m = on_client (perform p fuel call) m.client m

  -- `fep_g_client_dispatch`, with a filter that returns: that `event_filter` reads past the object of
  -- a resize event is in Glib/Filtering and not followed here.
  unfoldable pub g_dispatch : Filter → Act GClient Bool
  g_dispatch filter m = is_zero (on_client (dispatch p fuel (some filter)) m.client m)
