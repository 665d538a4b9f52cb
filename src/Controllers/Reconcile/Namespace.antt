-- ===== src/Controllers/Reconcile/Namespace.antt =====
-- Where the reconciler reads and writes.
use eapol_operator.Base.{List, [], ◌∷◌, Str, Result, ok, err, Error, ◌≡◌, refl, ◌∙◌}
use eapol_operator.Base.Dict.{Dict}
use eapol_operator.Api.{Authenticator}
use eapol_operator.Configgen.{DaemonSet, daemonset}
use eapol_operator.Controllers.{
  Meta, Subject, Object, Kind, authenticators, daemon_sets, Request, get, create, update, Event,
  done, failed, Trace, Kube, Resources, World, Run, pure, fail, ◌>>=◌, note, ask,
}
use eapol_operator.Controllers.Adds.{
  Since, Since-trans, newer, nothing, Adds, Adds-pure, Adds-fail, Adds-if, noted, adds_rules,
}
use eapol_operator.Controllers.Documented.{meta_of, IsServer, IsReferring}
use eapol_operator.Controllers.Reconcile.{
  fresh_meta, on_get, send_create, send_update, create_service_account, create_role, bind_first,
  create_role_binding, sync_one, sync_service_account, sync_role, sync_role_binding,
  sync_rbac_resources, create_owned_config_map, update_config_map, sync_config_map,
  create_owned_daemon_set, update_daemon_set, sync_daemon_set, sync_all, reconcile,
}

abbrev pub request_of : Event → Request
request_of (done q) = q
request_of (failed q) = q

abbrev pub namespace_of : Request → Str
namespace_of (get kind namespace name) = namespace
namespace_of (create o) = (meta_of o).namespace
namespace_of (update o) = (meta_of o).namespace

-- A request in the namespace.
abbrev pub InNamespace : Str → Event → Type 0
InNamespace ns e = namespace_of (request_of e) ≡ ns

module _ (kube : Kube) {P : Event → Type 0} where
  found_step :
      {A : Type 0} (r : Result A) (absent : Run (Unit {0})) (present : A → Run (Unit {0}))
      → Adds P absent
      → ((a : A) → r ≡ ok a → Adds P (present a))
      → Adds P (on_get kube r absent present)
  unfolding on_get
  found_step (ok a) absent present p q = q a refl
  found_step (err e) absent present p q =
      Adds-if (kube.is_not_found e) absent (fail e) p (Adds-fail e)

  -- A get and what follows it: the branch of an object may use that the server gave it.
  pub Adds-get :
      {A : Type 0} (q : Request) (f : Trace → Result A) (absent : Run (Unit {0}))
      (present : A → Run (Unit {0}))
      → P (done q)
      → P (failed q)
      → Adds P absent
      → ((t : Trace) (a : A) → f t ≡ ok a → Adds P (present a))
      → Adds P (ask q f >>= λ r. on_get kube r absent present)
  Adds-get q f absent present d n p k = record {
    at = λ w. Since-trans (newer _ (noted P q (f w.calls) d n) nothing) (
        (found_step (f w.calls) absent present p (k w.calls)).at
          (record w { calls = note q (f w.calls) ∷ w.calls }));
  }

  pub send_create-Adds :
      (wrap : Error → Error) (o : Object)
      → P (done (create o))
      → P (failed (create o))
      → Adds P (send_create kube wrap o)
  unfolding send_create
  send_create-Adds wrap o d n = search (adds_rules, d, n)

  pub send_update-Adds :
      (o : Object) → P (done (update o)) → P (failed (update o)) → Adds P (send_update kube o)
  unfolding send_update
  send_update-Adds o d n = search (adds_rules, d, n)

module _ (kube : Kube) (server : IsServer kube) (referring : IsReferring kube) (ns : Str) where
  module _ (a : Authenticator) (same : a.namespace ≡ ns) where
    account_in : Adds (InNamespace ns) (create_service_account kube a ns)
    unfolding create_service_account
    account_in = search (adds_rules, send_create-Adds, referring.namespace_kept)

    role_in : Adds (InNamespace ns) (create_role kube a ns)
    unfolding create_role
    role_in = search (adds_rules, send_create-Adds, referring.namespace_kept)

    bind_first_in :
        (res : Resources) (subjects : List Subject)
        → Adds (InNamespace ns) (bind_first kube a ns res subjects)
    unfolding bind_first
    bind_first_in res [] = search adds_rules
    bind_first_in res (s ∷ rest) = search (adds_rules, send_create-Adds, referring.namespace_kept)

    binding_in : Adds (InNamespace ns) (create_role_binding kube a ns)
    unfolding create_role_binding
    binding_in = search (adds_rules, bind_first_in)

    sync_one_in :
        (kind : Kind) (name : Str) (make : Run (Unit {0}))
        → Adds (InNamespace ns) make
        → Adds (InNamespace ns) (sync_one kube a kind ns name make)
    unfolding sync_one
    sync_one_in kind name make p = search (adds_rules, Adds-get, p)

    rbac_in : Adds (InNamespace ns) (sync_rbac_resources kube a ns)
    unfolding sync_rbac_resources sync_service_account sync_role sync_role_binding
    rbac_in = search (adds_rules, sync_one_in, account_in, role_in, binding_in)

    new_config_map_in :
        (new : Dict Str Str) → Adds (InNamespace ns) (create_owned_config_map kube a new)
    unfolding create_owned_config_map
    new_config_map_in new = search (
      adds_rules,
      send_create-Adds,
      referring.namespace_kept a (fresh_meta a.namespace a.name) ∙ same,
    )

    changed_config_map_in :
        (new : Dict Str Str) (found : Meta × Dict Str Str)
        → Adds (InNamespace ns) (update_config_map kube a new found)
    unfolding update_config_map
    changed_config_map_in new (m, old) = search (adds_rules, send_update-Adds, same)

    config_map_in : (name text : Str) → Adds (InNamespace ns) (sync_config_map kube a ns name text)
    unfolding sync_config_map
    config_map_in name text =
        search (adds_rules, Adds-get, new_config_map_in, changed_config_map_in)

    new_daemon_set_in :
        (account : Str)
        → Adds (InNamespace ns) (create_owned_daemon_set kube a (daemonset a account))
    unfolding create_owned_daemon_set daemonset
    new_daemon_set_in account = search (
      adds_rules,
      send_create-Adds,
      referring.namespace_kept a (fresh_meta a.namespace a.name) ∙ same,
    )

    changed_daemon_set_in :
        (new : DaemonSet) (name : Str) (t : Trace) (found : Meta × DaemonSet)
        → kube.get_daemon_set ns name t ≡ ok found
        → Adds (InNamespace ns) (update_daemon_set kube a new found)
    unfolding update_daemon_set
    changed_daemon_set_in new name t (m, old) p =
        search (adds_rules, send_update-Adds, (server.found_daemon_set ns name t m old p).0)

    daemon_set_in :
        (name account : Str) → Adds (InNamespace ns) (sync_daemon_set kube a ns name account)
    unfolding sync_daemon_set
    daemon_set_in name account =
        Adds-get kube (get daemon_sets ns name) (kube.get_daemon_set ns name) _ _ refl refl
          (new_daemon_set_in account)
          (λ t found p. changed_daemon_set_in (daemonset a account) name t found p)

    all_in : (name : Str) → Adds (InNamespace ns) (sync_all kube a ns name)
    unfolding sync_all
    all_in name = search (adds_rules, config_map_in, rbac_in, daemon_set_in)

  -- Whatever the server answers, and whichever branch is taken: every request that `Reconcile` adds,
  -- a read or a write, is in the namespace of the resource that it was called for.
  pub reconcile-InNamespace :
      (name : Str) (w : World) → Since (InNamespace ns) w.calls (reconcile kube ns name w).1.calls
  unfolding reconcile
  reconcile-InNamespace name w =
      (Adds-get kube (get authenticators ns name) (kube.get_authenticator ns name) (pure tt)
          (λ a. sync_all kube a ns name) refl refl (Adds-pure tt)
          (λ t a p. all_in a (server.found_authenticator ns name t a p).0 name)).at
        w
