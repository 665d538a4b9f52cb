-- ===== src/Controllers/Reconcile/Grows.antt =====
-- The parts of a reconciliation add requests to what was there.
use eapol_operator.Base.{List, [], ◌∷◌, Str, Error}
use eapol_operator.Base.Dict.{Dict}
use eapol_operator.Api.{Authenticator}
use eapol_operator.Configgen.{DaemonSet}
use eapol_operator.Controllers.{Meta, Subject, Object, Kind, get, Kube, Resources, Run, pure}
use eapol_operator.Controllers.Adds.{Adds, Adds-pure, adds_rules}
use eapol_operator.Controllers.Reconcile.Namespace.{Adds-get, send_create-Adds, send_update-Adds}
use eapol_operator.Controllers.Reconcile.{
  send_create, send_update, create_service_account, create_role, bind_first, create_role_binding,
  sync_one, sync_service_account, sync_role, sync_role_binding, sync_rbac_resources,
  update_config_map, create_owned_config_map, sync_config_map, update_daemon_set,
  create_owned_daemon_set, sync_daemon_set, sync_all,
}
use eapol_operator.Controllers.Leaves.{Any, any}

module _ (kube : Kube) where
  create-Any : (wrap : Error → Error) (o : Object) → Adds Any (send_create kube wrap o)
  create-Any wrap o = send_create-Adds kube wrap o any any

  update-Any : (o : Object) → Adds Any (send_update kube o)
  update-Any o = send_update-Adds kube o any any

  module _ (a : Authenticator) (ns : Str) where
    bind_first-Any :
        (res : Resources) (subjects : List Subject) → Adds Any (bind_first kube a ns res subjects)
    unfolding bind_first
    bind_first-Any res [] = search adds_rules
    bind_first-Any res (s ∷ rest) = search (adds_rules, create-Any)

    sync_one-Any :
        (k : Kind) (name : Str) (make : Run (Unit {0}))
        → Adds Any make
        → Adds Any (sync_one kube a k ns name make)
    unfolding sync_one
    sync_one-Any k name make p =
        Adds-get kube (get k ns name) (kube.get_meta k ns name) make (λ _. pure tt) any any p
          (λ t m q. Adds-pure tt)

    account-Any : Adds Any (create_service_account kube a ns)
    unfolding create_service_account
    account-Any = search (adds_rules, create-Any)

    made_role-Any : Adds Any (create_role kube a ns)
    unfolding create_role
    made_role-Any = search (adds_rules, create-Any)

    pub service_account-Any : Adds Any (sync_service_account kube a ns)
    unfolding sync_service_account
    service_account-Any = search (adds_rules, sync_one-Any, account-Any)

    pub role-Any : Adds Any (sync_role kube a ns)
    unfolding sync_role
    role-Any = search (adds_rules, sync_one-Any, made_role-Any)

    pub role_binding-Any : Adds Any (sync_role_binding kube a ns)
    unfolding sync_role_binding create_role_binding
    role_binding-Any = search (adds_rules, sync_one-Any, bind_first-Any)

    pub config_map-Any :
        (new : Dict Str Str) (found : Meta × Dict Str Str)
        → Adds Any (update_config_map kube a new found)
    unfolding update_config_map
    config_map-Any new (m, old) = search (adds_rules, update-Any)

    pub daemon_set-Any :
        (new : DaemonSet) (found : Meta × DaemonSet) → Adds Any (update_daemon_set kube a new found)
    unfolding update_daemon_set
    daemon_set-Any new (m, old) = search (adds_rules, update-Any)

    new_config_map-Any : (new : Dict Str Str) → Adds Any (create_owned_config_map kube a new)
    unfolding create_owned_config_map
    new_config_map-Any new = search (adds_rules, create-Any)

    new_daemon_set-Any : (new : DaemonSet) → Adds Any (create_owned_daemon_set kube a new)
    unfolding create_owned_daemon_set
    new_daemon_set-Any new = search (adds_rules, create-Any)

    pub config_map_synced-Any : (name text : Str) → Adds Any (sync_config_map kube a ns name text)
    unfolding sync_config_map
    config_map_synced-Any name text =
        search (adds_rules, Adds-get, any, new_config_map-Any, config_map-Any)

    pub daemon_set_synced-Any :
        (name account : Str) → Adds Any (sync_daemon_set kube a ns name account)
    unfolding sync_daemon_set
    daemon_set_synced-Any name account =
        search (adds_rules, Adds-get, any, new_daemon_set-Any, daemon_set-Any)

    pub rbac-Any : Adds Any (sync_rbac_resources kube a ns)
    unfolding sync_rbac_resources
    rbac-Any = search (adds_rules, service_account-Any, role-Any, role_binding-Any)

    pub all-Any : (name : Str) → Adds Any (sync_all kube a ns name)
    unfolding sync_all
    all-Any name = search (adds_rules, config_map_synced-Any, rbac-Any, daemon_set_synced-Any)
