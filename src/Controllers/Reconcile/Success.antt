-- ===== src/Controllers/Reconcile/Success.antt =====
-- A reconciliation that succeeded: what the server has.
use eapol_operator.Base.{List, [], ◌∷◌, Str, Result, ok, err, Error, ◌≡◌, ◌≢◌, refl, ◌∙◌, sym}
use eapol_operator.Api.{Authenticator}
use eapol_operator.Configgen.{config_file, daemonset}
use eapol_operator.Controllers.{
  Subject, Object, Kind, authenticators, config_maps, service_accounts, roles, role_bindings,
  daemon_sets, get, create, update, Event, done, failed, Trace, Kube, Resources, value, World, Run,
  pure, note,
}
use eapol_operator.Controllers.Adds.{newer, nothing, Adds-pure, Adds-bind, adds_rules}
use eapol_operator.Controllers.Documented.{meta_of, kind_of, IsServer, IsReferring}
use eapol_operator.Controllers.Reconcile.{
  fresh_meta, on_get, send_create, create_service_account, create_role, bind_first,
  create_role_binding, sync_one, sync_service_account, sync_role, sync_role_binding,
  sync_rbac_resources, create_owned_config_map, sync_config_map, create_owned_daemon_set,
  sync_daemon_set, sync_all, reconcile,
}
use eapol_operator.Controllers.Leaves.{
  any, Reached, here, Reached-newer, Reached-older, Leaves, Leaves-stop, Leaves-ask, Leaves-get,
  leaves_rules,
}
use eapol_operator.Controllers.Reconcile.Grows.{
  service_account-Any, role-Any, role_binding-Any, config_map-Any, daemon_set-Any,
  config_map_synced-Any, daemon_set_synced-Any, rbac-Any, all-Any,
}

-- The resource, its ConfigMap and its DaemonSet have one name; the others have those of their
-- manifests.
abbrev pub IsNamed : Kind → Str → Str → Type 0
IsNamed authenticators name n = n ≡ name
IsNamed config_maps name n = n ≡ name
IsNamed daemon_sets name n = n ≡ name
IsNamed _ name n = Unit

-- An object of the kind, in the namespace and named so, that the server has found or created.
abbrev pub Provides : Kind → Str → Str → Event → Type 0
Provides k ns name (done (get j n o)) = (j ≡ k) × (n ≡ ns) × IsNamed k name o
Provides k ns name (done (create o)) =
    (kind_of o ≡ k) × ((meta_of o).namespace ≡ ns) × IsNamed k name (meta_of o).name
Provides k ns name (done (update _)) = ⊥
Provides k ns name (failed _) = ⊥

module _ (kube : Kube) where
  create-Leaves :
      (k : Kind) (ns name : Str) (wrap : Error → Error) (o : Object)
      → kind_of o ≡ k
      → (meta_of o).namespace ≡ ns
      → IsNamed k name (meta_of o).name
      → Leaves (Provides k ns name) (send_create kube wrap o)
  unfolding send_create
  create-Leaves k ns name wrap o p q n = Leaves-ask (create o) (kube.create o) wrap (p, q, n)

  module _ (referring : IsReferring kube) (a : Authenticator) (ns name : Str) where
    account-Leaves : Leaves (Provides service_accounts ns name) (create_service_account kube a ns)
    unfolding create_service_account
    account-Leaves = search (leaves_rules, create-Leaves, adds_rules, referring.namespace_kept)

    role-Leaves : Leaves (Provides roles ns name) (create_role kube a ns)
    unfolding create_role
    role-Leaves = search (leaves_rules, create-Leaves, adds_rules, referring.namespace_kept)

    bind_first-Leaves :
        (res : Resources) (subjects : List Subject)
        → Leaves (Provides role_bindings ns name) (bind_first kube a ns res subjects)
    unfolding bind_first
    bind_first-Leaves res [] = Leaves-stop
    bind_first-Leaves res (s ∷ rest) =
        search (leaves_rules, create-Leaves, adds_rules, referring.namespace_kept)

    binding-Leaves : Leaves (Provides role_bindings ns name) (create_role_binding kube a ns)
    unfolding create_role_binding
    binding-Leaves = search (leaves_rules, bind_first-Leaves, adds_rules)

    sync_one-Leaves :
        (k : Kind) (n : Str) (make : Run (Unit {0}))
        → IsNamed k name n
        → Leaves (Provides k ns name) make
        → Leaves (Provides k ns name) (sync_one kube a k ns n make)
    unfolding sync_one
    sync_one-Leaves k n make q p =
        Leaves-get kube (get k ns n) (kube.get_meta k ns n) make (λ _. pure tt) (refl, refl, q) p
          (λ _. Adds-pure tt)

    service_account_synced :
        Leaves (Provides service_accounts ns name) (sync_service_account kube a ns)
    unfolding sync_service_account
    service_account_synced = search (leaves_rules, sync_one-Leaves, account-Leaves, adds_rules)

    role_synced : Leaves (Provides roles ns name) (sync_role kube a ns)
    unfolding sync_role
    role_synced = search (leaves_rules, sync_one-Leaves, role-Leaves, adds_rules)

    role_binding_synced : Leaves (Provides role_bindings ns name) (sync_role_binding kube a ns)
    unfolding sync_role_binding
    role_binding_synced = search (leaves_rules, sync_one-Leaves, binding-Leaves, adds_rules)

    config_map_synced :
        (text : Str)
        → a.namespace ≡ ns
        → a.name ≡ name
        → Leaves (Provides config_maps ns name) (sync_config_map kube a ns name text)
    unfolding sync_config_map create_owned_config_map
    config_map_synced text p named =
        Leaves-get kube (get config_maps ns name) (kube.get_config_map ns name) _ _
          (refl, refl, refl)
          (search (
            leaves_rules,
            create-Leaves,
            adds_rules,
            referring.namespace_kept a (fresh_meta a.namespace a.name) ∙ p,
            referring.name_kept a (fresh_meta a.namespace a.name) ∙ named,
          ))
          (λ found. config_map-Any kube a ns ((config_file, text) ∷ []) found)

    daemon_set_synced :
        (account : Str)
        → a.namespace ≡ ns
        → a.name ≡ name
        → Leaves (Provides daemon_sets ns name) (sync_daemon_set kube a ns name account)
    unfolding sync_daemon_set create_owned_daemon_set daemonset
    daemon_set_synced account p named =
        Leaves-get kube (get daemon_sets ns name) (kube.get_daemon_set ns name) _ _
          (refl, refl, refl)
          (search (
            leaves_rules,
            create-Leaves,
            adds_rules,
            referring.namespace_kept a (fresh_meta a.namespace a.name) ∙ p,
            referring.name_kept a (fresh_meta a.namespace a.name) ∙ named,
          ))
          (λ found. daemon_set-Any kube a ns (daemonset a account) found)

    account_in_rbac : Leaves (Provides service_accounts ns name) (sync_rbac_resources kube a ns)
    unfolding sync_rbac_resources
    account_in_rbac =
        search (leaves_rules, service_account_synced, role-Any, role_binding-Any, Adds-bind)

    role_in_rbac : Leaves (Provides roles ns name) (sync_rbac_resources kube a ns)
    unfolding sync_rbac_resources
    role_in_rbac = search (leaves_rules, service_account-Any, role_synced, role_binding-Any)

    binding_in_rbac : Leaves (Provides role_bindings ns name) (sync_rbac_resources kube a ns)
    unfolding sync_rbac_resources
    binding_in_rbac = search (leaves_rules, service_account-Any, role-Any, role_binding_synced)

    -- What the three parts of the reconciliation leave is left by the whole of it.
    all-Leaves :
        (k : Kind)
        → a.namespace ≡ ns
        → a.name ≡ name
        → k ≢ authenticators
        → Leaves (Provides k ns name) (sync_all kube a ns name)
    unfolding sync_all
    all-Leaves authenticators p named n = absurd (n refl)
    all-Leaves config_maps p named n =
        search
          (leaves_rules, config_map_synced, rbac-Any, daemon_set_synced-Any, p, named, adds_rules)
    all-Leaves service_accounts p named n =
        search
          (leaves_rules, config_map_synced-Any, account_in_rbac, daemon_set_synced-Any, adds_rules)
    all-Leaves roles p named n =
        search
          (leaves_rules, config_map_synced-Any, role_in_rbac, daemon_set_synced-Any, adds_rules)
    all-Leaves role_bindings p named n =
        search
          (leaves_rules, config_map_synced-Any, binding_in_rbac, daemon_set_synced-Any, adds_rules)
    all-Leaves daemon_sets p named n =
        search
          (leaves_rules, config_map_synced-Any, rbac-Any, daemon_set_synced, p, named, adds_rules)

  module _ (server : IsServer kube) (referring : IsReferring kube) (ns name : Str) where
    own_name : (k : Kind) → k ≡ authenticators → IsNamed k name name
    own_name authenticators p = refl
    own_name config_maps p = refl
    own_name daemon_sets p = refl
    own_name service_accounts p = tt
    own_name roles p = tt
    own_name role_bindings p = tt

    after_found :
        (t : Trace) (m : Resources) (b : Authenticator) (k : Kind)
        → b.namespace ≡ ns
        → b.name ≡ name
        → (sync_all kube b ns name
            (record { memory = m; calls = done (get authenticators ns name) ∷ t })).0
          ≡ value tt
        → Dec (k ≡ authenticators)
        → Reached
            (Provides k ns name)
            t
            (sync_all kube b ns name
              (record { memory = m; calls = done (get authenticators ns name) ∷ t })).1.calls
    after_found t m b k q named e (yes p) =
        Reached-newer (here _ (sym p, refl, own_name k p) nothing) ((all-Any kube b ns name).at _)
    after_found t m b k q named e (no n) =
        Reached-older (newer _ any nothing) ((all-Leaves referring b ns name k q named n).at _ tt e)

    is_authenticators : (k : Kind) → Dec (k ≡ authenticators)
    is_authenticators authenticators = yes refl
    is_authenticators config_maps = no (λ p. cc)
    is_authenticators service_accounts = no (λ p. cc)
    is_authenticators roles = no (λ p. cc)
    is_authenticators role_bindings = no (λ p. cc)
    is_authenticators daemon_sets = no (λ p. cc)

    found-Provides :
        (t : Trace) (r : Result Authenticator) (m : Resources) (a : Authenticator) (k : Kind)
        → r ≡ ok a
        → ((b : Authenticator) → r ≡ ok b → (b.namespace ≡ ns) × (b.name ≡ name))
        → (on_get kube r
            (pure tt)
            (λ b. sync_all kube b ns name)
            (record { memory = m; calls = note (get authenticators ns name) r ∷ t })).0
          ≡ value tt
        → Reached
            (Provides k ns name)
            t
            (on_get kube r
              (pure tt)
              (λ b. sync_all kube b ns name)
              (record { memory = m; calls = note (get authenticators ns name) r ∷ t })).1.calls
    unfolding on_get
    found-Provides t (err x) m a k p q e = absurd cc
    found-Provides t (ok b) m a k p q e =
        after_found t m b k (q b refl).0 (q b refl).1 e (is_authenticators k)

    -- If `Reconcile` succeeds on a resource that is there, then the server has found or created, since
    -- the call, in the namespace of the request: the resource, the ConfigMap and the DaemonSet of its
    -- name, and a ServiceAccount, a Role and a RoleBinding.
    pub reconcile_success :
        (w : World) (a : Authenticator)
        → kube.get_authenticator ns name w.calls ≡ ok a
        → (reconcile kube ns name w).0 ≡ value tt
        → (k : Kind) → Reached (Provides k ns name) w.calls (reconcile kube ns name w).1.calls
    unfolding reconcile
    reconcile_success w a p e k =
        found-Provides w.calls (kube.get_authenticator ns name w.calls) w.memory a k p
          (λ b q. server.found_authenticator ns name w.calls b q) e
