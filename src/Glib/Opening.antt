-- ===== src/Glib/Opening.antt =====
-- A new object, by the ways in which the connection can go.
use libfep.Base.{
  ◌+◌, ◌≡◌, refl, ◌∙◌, Bool, true, false, Bool-cases, inl, inr, Option, none, some, Bytes, length,
  leb, if◌then◌else◌, ok, fault,
}
use libfep.Client.{Client}
use libfep.Client.Opening.{System, connected_to, open_client}
use libfep.Glib.Objects.{GClient, Construction, set_address, initable_init, finalize, g_client_new}

abbrev with_address : Option Bytes → Bool → GClient
with_address address freed = record { client = none; address = address; is_freed = freed }

-- An object around the client that was connected
abbrev pub object_around : Bytes → Option Client → Option GClient
object_around path none = none
object_around path (some client) =
    some (record { client = some client; address = some path; is_freed = false })

module _ (c : Construction) (system : System) (path : Bytes) where
  connected-made :
      (o : Option Client)
      → leb system.path_size (length path + 1) ≡ false
      → connected_to system path ≡ o
      → g_client_new c system (some path) ≡ ok (object_around path o)
  unfolding g_client_new set_address
  connected-made none short e =
      c.construct-false (initable_init system) finalize (with_address (some path) false)
        (with_address (some path) false) (with_address (some path) true)
        (unfold initable_init open_client in rw (short, e) refl) (unfold finalize in refl)
  connected-made (some client) short e =
      c.construct-true (initable_init system) finalize (with_address (some path) false)
        (record { client = some client; address = some path; is_freed = false })
        (unfold initable_init open_client in rw (short, e) refl)

  overlong-fault :
      leb system.path_size (length path + 1) ≡ true → g_client_new c system (some path) ≡ fault
  unfolding g_client_new set_address
  overlong-fault long =
      c.construct-fault (initable_init system) finalize (with_address (some path) false)
        (with_address (some path) true) (with_address (some path) true)
        (unfold initable_init open_client in rw long refl) (unfold finalize in refl)

  -- The making of an object with an address gives one that is connected, or NULL where no socket can
  -- be made or connected; an address too long for a socket is freed twice instead, by
  -- `fep_client_open` and with the object.
  pub g_client_new_lem : g_client_new c system (some path) ≡ (
      if leb system.path_size (length path + 1)
      then fault
      else ok (object_around path (connected_to system path)))
  g_client_new_lem = elim (Bool-cases (leb system.path_size (length path + 1))) [
    | inl long ↦ overlong-fault long ∙ rw long refl
    | inr short ↦ connected-made (connected_to system path) short refl ∙ rw short refl
  ]
