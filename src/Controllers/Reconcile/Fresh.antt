-- ===== src/Controllers/Reconcile/Fresh.antt =====
-- A reconciler in a namespace where nothing has been made yet.
use eapol_operator.Base.{
  List, [], ◌∷◌, ◌++◌, Str, Bool, true, false, not, ◌&&◌, ok, err, Error, ◌≡◌, ◌==◌, bytes_eq,
}
use eapol_operator.Api.{Authenticator}
use eapol_operator.Configgen.{config_file, daemonset}
use eapol_operator.Controllers.{
  Meta, Subject, Answer, Object, config_map, service_account, role, role_binding, daemon_set, Kind,
  config_maps, service_accounts, roles, role_bindings, daemon_sets, get, create, update, done,
  failed, Trace, Kube, Resources, value, World,
}
use eapol_operator.Controllers.Documented.{meta_of}
use eapol_operator.Controllers.Reconcile.{
  fresh_meta, on_get, send_create, create_service_account, create_role, bind_first,
  create_role_binding, sync_one, sync_service_account, sync_role, sync_role_binding,
  sync_rbac_resources, create_owned_config_map, sync_config_map, create_owned_daemon_set,
  sync_daemon_set, sync_all, reconcile,
}

abbrev has_kind : Kind → Object → Bool
has_kind config_maps (config_map _ _) = true
has_kind service_accounts (service_account _) = true
has_kind roles (role _) = true
has_kind role_bindings (role_binding _ _) = true
has_kind daemon_sets (daemon_set _ _) = true
has_kind _ _ = false

abbrev is_in : Kind → Str → Object → Bool
is_in k ns o = has_kind k o && (meta_of o).namespace == ns

-- No object of the kind has been written in the namespace.
abbrev pub unwritten : Kind → Str → Trace → Bool
unwritten k ns [] = true
unwritten k ns (done (create o) ∷ t) = not (is_in k ns o) && unwritten k ns t
unwritten k ns (done (update o) ∷ t) = not (is_in k ns o) && unwritten k ns t
unwritten k ns (_ ∷ t) = unwritten k ns t

-- The objects that the server was asked to create and has created, the newest first.
abbrev pub creations : Trace → List Object
creations [] = []
creations (done (create o) ∷ t) = o ∷ creations t
creations (_ ∷ t) = creations t

module _ (kube : Kube) (ns name : Str) where
  -- The server has the resource, and of a kind nothing as long as nothing of it is written in the
  -- namespace; it accepts what it is asked to create.
  pub record IsFresh (a : Authenticator) : Type 0 where
    pub text : Str
    pub rendered : kube.render a.spec ≡ ok text
    pub has_authenticator : (t : Trace) → kube.get_authenticator ns name t ≡ ok a
    pub missing : Kind → Error
    pub is_missing : (k : Kind) → kube.is_not_found (missing k) ≡ true
    pub no_config_map :
        (t : Trace)
        → unwritten config_maps ns t ≡ true
        → kube.get_config_map ns name t ≡ err (missing config_maps)
    pub no_daemon_set :
        (t : Trace)
        → unwritten daemon_sets ns t ≡ true
        → kube.get_daemon_set ns name t ≡ err (missing daemon_sets)
    pub no_meta :
        (k : Kind) (n : Str) (t : Trace)
        → unwritten k ns t ≡ true
        → kube.get_meta k ns n t ≡ err (missing k)
    pub made : Object → Answer
    pub accepts : (o : Object) (t : Trace) → kube.create o t ≡ ok (made o)

  abbrev placed : Meta → Meta
  placed m = record m { namespace = ns; resource_version = [] }

  -- What `Reconcile` makes of the resource and of the objects that it keeps.
  abbrev pub wanted : Authenticator → Resources → Str → Subject → List Subject → List Object
  wanted a res text s rest =
      daemon_set (kube.set_controller_reference a (fresh_meta a.namespace a.name))
        (daemonset a res.service_account.name)
      ∷ role_binding (kube.set_controller_reference a (placed res.role_binding))
          (record s { namespace = ns } ∷ rest)
      ∷ role (kube.set_controller_reference a (placed res.role))
      ∷ service_account (kube.set_controller_reference a (placed res.service_account))
      ∷ config_map (kube.set_controller_reference a (fresh_meta a.namespace a.name))
          ((config_file, text) ∷ [])
      ∷ []

  module _ (a : Authenticator) (f : IsFresh a) where
    fresh_config_map :
        (text : Str) (w : World)
        → unwritten config_maps ns w.calls ≡ true
        → sync_config_map kube a ns name text w ≡ (
          value tt,
          record w {
            calls =
                done (
                  create (
                    config_map
                      (kube.set_controller_reference a (fresh_meta a.namespace a.name))
                      ((config_file, text) ∷ [])))
                ∷ failed (get config_maps ns name)
                ∷ w.calls;
          },
        )
    unfolding sync_config_map create_owned_config_map on_get send_create
    fresh_config_map text w u = simp (f.no_config_map, f.is_missing, f.accepts, u)

    fresh_daemon_set :
        (account : Str) (w : World)
        → unwritten daemon_sets ns w.calls ≡ true
        → sync_daemon_set kube a ns name account w ≡ (
          value tt,
          record w {
            calls =
                done (
                  create (
                    daemon_set
                      (kube.set_controller_reference a (fresh_meta a.namespace a.name))
                      (daemonset a account)))
                ∷ failed (get daemon_sets ns name)
                ∷ w.calls;
          },
        )
    unfolding sync_daemon_set create_owned_daemon_set on_get send_create daemonset
    fresh_daemon_set account w u = simp (f.no_daemon_set, f.is_missing, f.accepts, u)

    -- What the server answers to the RoleBinding.
    abbrev pub bound_answer : Resources → Subject → List Subject → Answer
    bound_answer res s rest = f.made (
        role_binding (kube.set_controller_reference a (placed res.role_binding))
          (record s { namespace = ns } ∷ rest))

    -- The memory that is left.
    abbrev pub kept : Resources → Subject → List Subject → Resources
    kept res s rest = record {
      service_account =
          (f.made
            (service_account (kube.set_controller_reference a (placed res.service_account)))).meta;
      role = (f.made (role (kube.set_controller_reference a (placed res.role)))).meta;
      role_binding = (bound_answer res s rest).meta;
      subjects = (bound_answer res s rest).subjects;
    }

    abbrev rbac_calls : Resources → Subject → List Subject → Trace
    rbac_calls res s rest =
        done (
          create (
            role_binding (kube.set_controller_reference a (placed res.role_binding))
              (record s { namespace = ns } ∷ rest)))
        ∷ failed (get role_bindings ns res.role_binding.name)
        ∷ done (create (role (kube.set_controller_reference a (placed res.role))))
        ∷ failed (get roles ns res.role.name)
        ∷ done (
            create (service_account (kube.set_controller_reference a (placed res.service_account))))
        ∷ failed (get service_accounts ns res.service_account.name)
        ∷ []

    fresh_rbac :
        (w : World) (s : Subject) (rest : List Subject)
        → w.memory.subjects ≡ s ∷ rest
        → unwritten service_accounts ns w.calls ≡ true
        → unwritten roles ns w.calls ≡ true
        → unwritten role_bindings ns w.calls ≡ true
        → sync_rbac_resources kube a ns w ≡ (
          value tt,
          record { memory = kept w.memory s rest; calls = rbac_calls w.memory s rest ++ w.calls },
        )
    unfolding sync_rbac_resources sync_service_account sync_role sync_role_binding sync_one on_get
        create_service_account create_role create_role_binding bind_first send_create
    fresh_rbac w s rest q us ur ub = simp (f.is_missing, f.accepts, f.no_meta, q, us, ur, ub)

  -- A namespace in which the resource is alone: `Reconcile` succeeds and has the server create exactly
  -- five objects, the ConfigMap with the text that was rendered, the ServiceAccount, the Role, the
  -- RoleBinding with its first subject moved to the namespace, and the DaemonSet, each as
  -- `SetControllerReference` leaves it; the server's answers become the reconciler's memory.
  pub reconcile_fresh :
      (a : Authenticator) (w : World) (f : IsFresh a) (s : Subject) (rest : List Subject)
      → w.memory.subjects ≡ s ∷ rest
      → ((k : Kind) → unwritten k ns w.calls ≡ true)
      → ((reconcile kube ns name w).0 ≡ value tt)
        × ((reconcile kube ns name w).1.memory ≡ kept a f w.memory s rest)
        × (creations (reconcile kube ns name w).1.calls
            ≡ wanted a w.memory f.text s rest ++ creations w.calls)
  unfolding reconcile sync_all on_get
  reconcile_fresh a w f s rest q u = (
    simp (
      f.has_authenticator,
      f.rendered,
      fresh_config_map a f,
      λ (v : World). fresh_rbac a f v s rest,
      fresh_daemon_set a f,
      q,
      u,
    ),
    simp (
      f.has_authenticator,
      f.rendered,
      fresh_config_map a f,
      λ (v : World). fresh_rbac a f v s rest,
      fresh_daemon_set a f,
      q,
      u,
    ),
    simp (
      f.has_authenticator,
      f.rendered,
      fresh_config_map a f,
      λ (v : World). fresh_rbac a f v s rest,
      fresh_daemon_set a f,
      q,
      u,
    ),
  )
