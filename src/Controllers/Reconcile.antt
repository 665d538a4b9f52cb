-- ===== src/Controllers/Reconcile.antt =====
-- controllers/authenticator_controller.go: `Reconcile` and what it calls.
pub mod Namespace
pub mod Total
pub mod Pods
pub mod Fresh
pub mod Owners
pub mod Outdated
pub mod Grows
pub mod Success
use eapol_operator.Base.{
  ℕ, List, [], ◌∷◌, Str, Bool, true, false, not, ◌&&◌, Option, none, some, Result, ok, err, Error,
  config_map_content, creating_service_account, creating_role, creating_role_binding, length,
  if◌then◌else◌, ◌==◌, bytes_eq, nat_eq,
}
use eapol_operator.Base.Dict
use eapol_operator.Base.Dict.{Dict}
use eapol_operator.Api.{Authenticator}
use eapol_operator.Configgen.{config_file, DaemonSet, daemonset}
use eapol_operator.Controllers.Specs.{with_spec}
use eapol_operator.Controllers.{
  Meta, Subject, Answer, Object, config_map, service_account, role, role_binding, daemon_set, Kind,
  authenticators, config_maps, service_accounts, roles, role_bindings, daemon_sets, Request, get,
  create, update, Kube, Resources, Ends, World, Run, pure, fail, stop, ◌>>=◌, ◌>>◌, ask, or_return,
  load, store,
}

-- `reflect.DeepEqual` on two maps of strings: as many keys, and the same value at each.
same_values : Dict Str Str → Dict Str Str → Bool
same_values [] b = true
same_values ((k, v) ∷ a) b =
    let rest = same_values a b in
    elim (Dict.lookup k b) [ none ↦ false | some w ↦ (v == w) && rest ]

unfoldable pub same_data : Dict Str Str → Dict Str Str → Bool
unfolding same_values
same_data a b = (length a == length b) && same_values a b

abbrev pub fresh_meta : Str → Str → Meta
fresh_meta namespace name = record {
  name = name;
  namespace = namespace;
  owner = none;
  resource_version = [];
}

abbrev pub unwrapped : Error → Error
unwrapped e = e

module _ (kube : Kube) where
  -- Goes on with what was found, or without it; any other error is returned.
  unfoldable pub on_get :
      {A : Type 0} → Result A → Run (Unit {0}) → (A → Run (Unit {0})) → Run (Unit {0})
  on_get (ok a) absent present = present a
  on_get (err e) absent present = if kube.is_not_found e then absent else fail e

  -- `Create` and `Update`; an error is wrapped.
  unfoldable pub send_create : (Error → Error) → Object → Run Answer
  send_create wrap object = ask (create object) (kube.create object) >>= or_return wrap

  unfoldable pub send_update : Object → Run (Unit {0})
  send_update object = (ask (update object) (kube.update object) >>= or_return unwrapped) >> pure tt

  module _ (a : Authenticator) where
    -- `createOwned`: the error of `SetControllerReference` is not looked at.
    abbrev owned : Meta → Meta
    owned m = kube.set_controller_reference a m

    create_service_account : Str → Run (Unit {0})
    unfolding send_create
    create_service_account namespace = do
      res ← load
      let m = owned (record res.service_account { namespace = namespace; resource_version = [] })
      store (record res { service_account = m })
      made ← send_create creating_service_account (service_account m)
      store (record res { service_account = made.meta })

    create_role : Str → Run (Unit {0})
    unfolding send_create
    create_role namespace = do
      res ← load
      let m = owned (record res.role { namespace = namespace; resource_version = [] })
      store (record res { role = m })
      made ← send_create creating_role (role m)
      store (record res { role = made.meta })

    -- `Subjects[0].Namespace = namespace` stops the program if there is no subject.
    bind_first : Str → Resources → List Subject → Run (Unit {0})
    unfolding send_create
    bind_first namespace res [] = stop
    bind_first namespace res (s ∷ rest) = do
      let subjects = record s { namespace = namespace } ∷ rest
      let m = owned (record res.role_binding { namespace = namespace; resource_version = [] })
      store (record res { role_binding = m; subjects = subjects })
      made ← send_create creating_role_binding (role_binding m subjects)
      store (record res { role_binding = made.meta; subjects = made.subjects })

    create_role_binding : Str → Run (Unit {0})
    unfolding bind_first
    create_role_binding namespace = do res ← load; bind_first namespace res res.subjects

    -- One object of the three: it is created if it is not there.
    sync_one : Kind → Str → Str → Run (Unit {0}) → Run (Unit {0})
    unfolding on_get
    sync_one kind namespace name make = do
      found ← ask (get kind namespace name) (kube.get_meta kind namespace name)
      on_get found make (λ _. pure tt)

    pub sync_service_account : Str → Run (Unit {0})
    unfolding sync_one create_service_account
    sync_service_account namespace = do
      res ← load
      sync_one service_accounts namespace res.service_account.name
          (create_service_account namespace)

    pub sync_role : Str → Run (Unit {0})
    unfolding sync_one create_role
    sync_role namespace = do
      res ← load
      sync_one roles namespace res.role.name (create_role namespace)

    pub sync_role_binding : Str → Run (Unit {0})
    unfolding sync_one create_role_binding
    sync_role_binding namespace = do
      res ← load
      sync_one role_bindings namespace res.role_binding.name (create_role_binding namespace)

    unfoldable pub sync_rbac_resources : Str → Run (Unit {0})
    unfolding sync_service_account sync_role sync_role_binding
    sync_rbac_resources namespace = do
      sync_service_account namespace
      sync_role namespace
      sync_role_binding namespace

    create_owned_config_map : Dict Str Str → Run (Unit {0})
    unfolding send_create
    create_owned_config_map new =
        send_create unwrapped (config_map (owned (fresh_meta a.namespace a.name)) new) >> pure tt

    -- What is sent is the object that was just made, which has no owner.
    pub update_config_map : Dict Str Str → Meta × Dict Str Str → Run (Unit {0})
    unfolding send_update same_data
    update_config_map new (m, old) =
        if not (same_data old new)
        then send_update (config_map (fresh_meta a.namespace a.name) new)
        else pure tt

    unfoldable pub sync_config_map : Str → Str → Str → Run (Unit {0})
    unfolding on_get create_owned_config_map update_config_map
    sync_config_map namespace name text = do
      found ← ask (get config_maps namespace name) (kube.get_config_map namespace name)
      on_get found (create_owned_config_map ((config_file, text) ∷ []))
          (update_config_map ((config_file, text) ∷ []))

    create_owned_daemon_set : DaemonSet → Run (Unit {0})
    unfolding send_create
    create_owned_daemon_set new =
        send_create unwrapped (daemon_set (owned (fresh_meta new.namespace new.name)) new)
        >> pure tt

    pub update_daemon_set : DaemonSet → Meta × DaemonSet → Run (Unit {0})
    unfolding send_update with_spec
    update_daemon_set new (m, old) =
        if kube.spec_differs old new
        then send_update (daemon_set m (with_spec old new))
        else pure tt

    unfoldable pub sync_daemon_set : Str → Str → Str → Run (Unit {0})
    unfolding on_get create_owned_daemon_set update_daemon_set daemonset
    sync_daemon_set namespace name account = do
      found ← ask (get daemon_sets namespace name) (kube.get_daemon_set namespace name)
      on_get found (create_owned_daemon_set (daemonset a account))
          (update_daemon_set (daemonset a account))

    -- What follows when the resource has been read.
    pub sync_all : Str → Str → Run (Unit {0})
    unfolding sync_config_map sync_rbac_resources sync_daemon_set
    sync_all namespace name = do
      res ← load
      text ← or_return config_map_content (kube.render a.spec)
      sync_config_map namespace name text
      sync_rbac_resources namespace
      sync_daemon_set namespace name res.service_account.name

  -- A resource that is gone is no error.
  unfoldable pub reconcile : Str → Str → Run (Unit {0})
  unfolding on_get sync_all
  reconcile namespace name = do
    found ← ask (get authenticators namespace name) (kube.get_authenticator namespace name)
    on_get found (pure tt) (λ a. sync_all a namespace name)
