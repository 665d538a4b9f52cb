-- ===== src/Controllers/Documented.antt =====
-- What the reconciler relies on: the documented behaviour of the API server and of
-- `SetControllerReference`.
use eapol_operator.Base.{List, [], Str, none, some, ok, ◌≡◌, ◌≢◌}
use eapol_operator.Api.{Authenticator}
use eapol_operator.Configgen.{DaemonSet}
use eapol_operator.Controllers.{
  Owner, Meta, Subject, Answer, Object, config_map, service_account, role, role_binding, daemon_set,
  Kind, config_maps, service_accounts, roles, role_bindings, daemon_sets, Trace, Kube,
}

abbrev pub meta_of : Object → Meta
meta_of (config_map m _) = m
meta_of (service_account m) = m
meta_of (role m) = m
meta_of (role_binding m _) = m
meta_of (daemon_set m _) = m

abbrev pub subjects_of : Object → List Subject
subjects_of (role_binding _ subjects) = subjects
subjects_of _ = []

abbrev pub owner_of : Authenticator → Owner
owner_of a = record { name = a.name; uid = a.uid }

-- What is found has the namespace and the name that were asked for.
pub record IsServer (kube : Kube) : Type 0 where
  pub found_authenticator :
      (ns n : Str) (t : Trace) (a : Authenticator)
      → kube.get_authenticator ns n t ≡ ok a
      → (a.namespace ≡ ns) × (a.name ≡ n)
  pub found_daemon_set :
      (ns n : Str) (t : Trace) (m : Meta) (d : DaemonSet)
      → kube.get_daemon_set ns n t ≡ ok (m, d)
      → (m.namespace ≡ ns) × (m.name ≡ n)
  -- What comes back is what was sent, but for the version.
  pub created :
      (o : Object) (t : Trace) (m : Answer)
      → kube.create o t ≡ ok m
      → (m.meta.name ≡ (meta_of o).name)
        × (m.meta.namespace ≡ (meta_of o).namespace)
        × (m.meta.owner ≡ (meta_of o).owner)
        × (m.subjects ≡ subjects_of o)

-- `SetControllerReference` makes the resource the owner of an object in its namespace that has
-- none, and leaves an object that one of another name owns. It changes the owner only.
pub record IsReferring (kube : Kube) : Type 0 where
  pub name_kept : (a : Authenticator) (m : Meta) → (kube.set_controller_reference a m).name ≡ m.name
  pub namespace_kept :
      (a : Authenticator) (m : Meta) → (kube.set_controller_reference a m).namespace ≡ m.namespace
  pub takes :
      (a : Authenticator) (m : Meta)
      → m.owner ≡ none
      → m.namespace ≡ a.namespace
      → (kube.set_controller_reference a m).owner ≡ some (owner_of a)
  pub leaves :
      (a : Authenticator) (m : Meta) (o : Owner)
      → m.owner ≡ some o
      → o.name ≢ a.name
      → (kube.set_controller_reference a m).owner ≡ some o

abbrev pub kind_of : Object → Kind
kind_of (config_map _ _) = config_maps
kind_of (service_account _) = service_accounts
kind_of (role _) = roles
kind_of (role_binding _ _) = role_bindings
kind_of (daemon_set _ _) = daemon_sets
