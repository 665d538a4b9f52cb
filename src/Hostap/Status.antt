-- ===== src/Hostap/Status.antt =====
-- `updateInterfaceStatus`: the monitor's entry in the status of the resource.
pub mod Entries
pub mod Quiet
use eapol_operator.Base.{
  ℕ, List, [], ◌∷◌, ◌++◌, Str, Bool, true, false, Option, none, some, Result, ok, err, ◌≡◌, ◌≢◌,
  refl, arith, if◌then◌else◌, ◌==◌, bytes_eq, In, inl, inr,
}
use eapol_operator.Base.Dict
use eapol_operator.Api.{Authenticator, Interface, IfState}
use eapol_operator.Host.{Host, Call, get_auth_object, update_status, Trace, Act}
use eapol_operator.Host.Actions.{pure, ◌>>=◌, ◌>>◌, perform}
use eapol_operator.Hostap.Monitor.{Monitor, get_auth}

-- The first entry with the name is written over; with none, one is appended.
unfoldable pub set_status : Str → IfState → List Str → List Interface → List Interface
unfolding bytes_eq
set_status name state clients [] =
    record { name = name; state = state; authenticated_clients = clients } ∷ []
set_status name state clients (iface ∷ rest) =
    if iface.name == name
    then record iface { state = state; authenticated_clients = clients } ∷ rest
    else iface ∷ set_status name state clients rest

module _ (h : Host) where
  write_status : Monitor → Authenticator → Act (Unit {0})
  unfolding set_status
  write_status m auth t =
      let clients = h.range_texts t (Dict.keys m.pf.authenticated_addrs) in
      let interfaces = set_status m.if_name m.if_eap_state clients auth.status.interfaces in
      perform (update_status interfaces)
        (h.put_status (record auth { status = record { interfaces = interfaces } })) t

  -- The closure that is retried.
  unfoldable pub push_status : Monitor → Act (Unit {0})
  unfolding get_auth write_status
  push_status m = get_auth h >>= write_status m

  unfoldable pub update_interface_status : Monitor → Act (Unit {0})
  unfolding push_status
  update_interface_status m = if m.has_client then h.retry_on_conflict (push_status m) else pure tt
