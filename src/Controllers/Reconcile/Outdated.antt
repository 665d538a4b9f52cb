-- ===== src/Controllers/Reconcile/Outdated.antt =====
-- A reconciler that finds all its objects: what it updates.
use eapol_operator.Base.{List, [], ◌∷◌, ◌++◌, Str, ok, ◌≡◌, refl, inl, inr, if◌then◌else◌}
use eapol_operator.Base.Dict.{Dict}
use eapol_operator.Base.Tests.{Bool-cases}
use eapol_operator.Api.{Authenticator}
use eapol_operator.Configgen.{config_file, DaemonSet, daemonset}
use eapol_operator.Controllers.{
  Meta, Object, config_map, daemon_set, authenticators, config_maps, service_accounts, roles,
  role_bindings, daemon_sets, get, create, update, done, Trace, Kube, Resources, value, World, Run,
}
use eapol_operator.Controllers.Specs.{with_spec}
use eapol_operator.Controllers.Reconcile.{
  fresh_meta, same_data, on_get, send_update, sync_one, sync_service_account, sync_role,
  sync_role_binding, sync_rbac_resources, update_config_map, sync_config_map, update_daemon_set,
  sync_daemon_set, sync_all, reconcile,
}

-- The writes that the server has accepted, the newest first.
abbrev pub writes : Trace → List Object
writes [] = []
writes (done (create o) ∷ t) = o ∷ writes t
writes (done (update o) ∷ t) = o ∷ writes t
writes (_ ∷ t) = writes t

module _ (kube : Kube) (ns name : Str) where
  -- The server has the resource and its five objects at any time, whatever their content.
  pub record HasAll (res : Resources) (a : Authenticator) : Type 0 where
    pub text : Str
    pub rendered : kube.render a.spec ≡ ok text
    pub has_authenticator : (t : Trace) → kube.get_authenticator ns name t ≡ ok a
    pub config : Meta × Dict Str Str
    pub has_config_map : (t : Trace) → kube.get_config_map ns name t ≡ ok config
    pub service_account_meta : Meta
    pub has_service_account :
        (t : Trace)
        → kube.get_meta service_accounts ns res.service_account.name t ≡ ok service_account_meta
    pub role_meta : Meta
    pub has_role : (t : Trace) → kube.get_meta roles ns res.role.name t ≡ ok role_meta
    pub role_binding_meta : Meta
    pub has_role_binding :
        (t : Trace) → kube.get_meta role_bindings ns res.role_binding.name t ≡ ok role_binding_meta
    pub set : Meta × DaemonSet
    pub has_daemon_set : (t : Trace) → kube.get_daemon_set ns name t ≡ ok set

-- A step that succeeds, keeps the memory, and adds these writes.
record Sends (m : Run (Unit {0})) (w : World) (sent : List Object) : Type 0 where
  calls : Trace
  runs : m w ≡ (value tt, record w { calls = calls })
  written : writes calls ≡ sent ++ writes w.calls

module _ (kube : Kube) (ns name : Str) (a : Authenticator) where
  -- The ConfigMap is sent if its data are not what was rendered.
  abbrev pub config_map_writes : Dict Str Str → Str → List Object
  config_map_writes old text =
      if same_data old ((config_file, text) ∷ [])
      then []
      else config_map (fresh_meta a.namespace a.name) ((config_file, text) ∷ []) ∷ []

  -- The DaemonSet is sent if its spec differs, with the metadata that were found.
  abbrev pub daemon_set_writes : Meta × DaemonSet → Str → List Object
  daemon_set_writes found account =
      if kube.spec_differs found.1 (daemonset a account)
      then daemon_set found.0 (with_spec found.1 (daemonset a account)) ∷ []
      else []

  config_map_found :
      (accept : Object → Meta) (found : Meta × Dict Str Str) (text : Str) (w : World)
      → ((o : Object) (t : Trace) → kube.update o t ≡ ok (accept o))
      → kube.get_config_map ns name w.calls ≡ ok found
      → Sends (sync_config_map kube a ns name text) w (config_map_writes found.1 text)
  unfolding sync_config_map update_config_map on_get send_update
  config_map_found accept (m, old) text w accepts p =
      elim (Bool-cases (same_data old ((config_file, text) ∷ []))) [
        | inl q ↦ simp q (record {
          calls = done (get config_maps ns name) ∷ w.calls;
          runs = simp (p, q);
          written = refl;
        })
        | inr q ↦ simp q (record {
          calls =
              done (update (config_map (fresh_meta a.namespace a.name) ((config_file, text) ∷ [])))
              ∷ done (get config_maps ns name)
              ∷ w.calls;
          runs = simp (p, q, accepts);
          written = refl;
        })
      ]

  daemon_set_found :
      (accept : Object → Meta) (found : Meta × DaemonSet) (account : Str) (w : World)
      → ((o : Object) (t : Trace) → kube.update o t ≡ ok (accept o))
      → kube.get_daemon_set ns name w.calls ≡ ok found
      → Sends (sync_daemon_set kube a ns name account) w (daemon_set_writes found account)
  unfolding sync_daemon_set update_daemon_set on_get send_update daemonset
  daemon_set_found accept (m, old) account w accepts p =
      elim (Bool-cases (kube.spec_differs old (daemonset a account))) [
        | inl q ↦ simp q (record {
          calls =
              done (update (daemon_set m (with_spec old (daemonset a account))))
              ∷ done (get daemon_sets ns name)
              ∷ w.calls;
          runs = simp (p, q, accepts);
          written = refl;
        })
        | inr q ↦ simp q (record {
          calls = done (get daemon_sets ns name) ∷ w.calls;
          runs = simp (p, q);
          written = refl;
        })
      ]

  rbac_found :
      (w : World) (s : HasAll kube ns name w.memory a) → Sends (sync_rbac_resources kube a ns) w []
  unfolding sync_rbac_resources sync_service_account sync_role sync_role_binding sync_one on_get
  rbac_found w s = record {
    calls =
        done (get role_bindings ns w.memory.role_binding.name)
        ∷ done (get roles ns w.memory.role.name)
        ∷ done (get service_accounts ns w.memory.service_account.name)
        ∷ w.calls;
    runs = simp (s.has_service_account, s.has_role, s.has_role_binding);
    written = refl;
  }

  -- A server that has the resource and its five objects, and accepts updates: `Reconcile` succeeds. It
  -- sends the ConfigMap exactly if its data are not what was rendered, and then as an object of the
  -- resource's name with the new data and no owner, whoever owned the one that was found. It sends
  -- the DaemonSet exactly if its spec differs, with the metadata that were found. It writes nothing
  -- else.
  pub reconcile_found :
      (w : World) (s : HasAll kube ns name w.memory a) (accept : Object → Meta)
      → ((o : Object) (t : Trace) → kube.update o t ≡ ok (accept o))
      → ((reconcile kube ns name w).0 ≡ value tt)
        × (writes (reconcile kube ns name w).1.calls
            ≡ daemon_set_writes s.set w.memory.service_account.name
              ++ (config_map_writes s.config.1 s.text ++ writes w.calls))
  unfolding reconcile sync_all on_get
  reconcile_found w s accept accepts =
      let w1 = record w { calls = done (get authenticators ns name) ∷ w.calls } in
      let c = config_map_found accept s.config s.text w1 accepts (s.has_config_map w1.calls) in
      let w2 = record w { calls = c.calls } in
      let r = rbac_found w2 s in
      let w3 = record w { calls = r.calls } in
      let d =
        daemon_set_found accept s.set w.memory.service_account.name w3 accepts
          (s.has_daemon_set w3.calls) in
      (
        simp (s.has_authenticator, s.rendered, c.runs, r.runs, d.runs),
        simp (
          s.has_authenticator, s.rendered, c.runs, r.runs, d.runs, d.written, r.written, c.written,
        ),
      )
