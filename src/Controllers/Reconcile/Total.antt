-- ===== src/Controllers/Reconcile/Total.antt =====
-- The reconciler does not stop the program while its binding keeps its one subject.
use eapol_operator.Base.{
  List, [], ◌∷◌, Str, Bool, true, false, Result, ok, err, Error, ◌≡◌, ◌≢◌, refl, arith, ap, ◌∙◌,
  creating_role_binding, if◌then◌else◌, length,
}
use eapol_operator.Base.Dict.{Dict}
use eapol_operator.Api.{Authenticator}
use eapol_operator.Configgen.{DaemonSet}
use eapol_operator.Controllers.{
  Meta, Subject, Answer, Object, role_binding, Kind, Request, Trace, Kube, Resources, Ends, value,
  error, panic, World, Run, pure, fail, continue, ◌>>=◌, ask, ends_of, or_return, load, store,
}
use eapol_operator.Controllers.Documented.{IsServer, subjects_of}
use eapol_operator.Controllers.Assets.{Manifests}
use eapol_operator.Controllers.Operator.{
  Manager, serving, authenticator_rbac_path, operator, operator_retrieves,
}
use eapol_operator.Controllers.Assets.Subjects.{retrieve_resources_subject}
use eapol_operator.Controllers.Reconcile.{
  on_get, send_create, send_update, create_service_account, create_role, bind_first,
  create_role_binding, sync_one, sync_service_account, sync_role, sync_role_binding,
  sync_rbac_resources, create_owned_config_map, update_config_map, sync_config_map,
  create_owned_daemon_set, update_daemon_set, sync_daemon_set, sync_all, reconcile,
}

abbrev pub HasOne : Resources → Type 0
HasOne res = length res.subjects ≡ 1

-- From a memory with one subject, a step does not stop the program and leaves one subject.
record Proceeds {A : Type 0} (m : Run A) : Type 0 where
  at : (w : World) → HasOne w.memory → ((m w).0 ≢ panic) × HasOne (m w).1.memory

module _ {A : Type 0} where
  Proceeds-pure : (a : A) → Proceeds (pure a)
  Proceeds-pure a = record { at = λ w h. ((λ p. cc), h) }

  Proceeds-fail : (e : Error) → Proceeds (fail {A = A} e)
  Proceeds-fail e = record { at = λ w h. ((λ p. cc), h) }

  ends_no_panic : (wrap : Error → Error) (r : Result A) → ends_of wrap r ≢ panic
  ends_no_panic wrap (ok a) p = cc
  ends_no_panic wrap (err e) p = cc

  Proceeds-or_return : (wrap : Error → Error) (r : Result A) → Proceeds (or_return wrap r)
  Proceeds-or_return wrap r = record { at = λ w h. (ends_no_panic wrap r, h) }

  Proceeds-if : (b : Bool) (m n : Run A) → Proceeds m → Proceeds n → Proceeds (if b then m else n)
  Proceeds-if true m n p q = p
  Proceeds-if false m n p q = q

  Proceeds-ask : (q : Request) (f : Trace → Result A) → Proceeds (ask q f)
  Proceeds-ask q f = record { at = λ w h. ((λ p. cc), h) }

  Proceeds-load :
      (f : Resources → Run A)
      → ((res : Resources) → HasOne res → Proceeds (f res))
      → Proceeds (load >>= f)
  Proceeds-load f q = record { at = λ w h. (q w.memory h).at w h }

Proceeds-store : (m : Resources) → HasOne m → Proceeds (store m)
Proceeds-store m h = record { at = λ w _. ((λ p. cc), h) }

module _ {A B : Type 0} where
  Proceeds-continue :
      (r : Ends A) (f : A → Run B)
      → r ≢ panic
      → ((a : A) → Proceeds (f a))
      → Proceeds (continue r f)
  Proceeds-continue (value a) f n q = q a
  Proceeds-continue (error e) f n q = record { at = λ w h. ((λ p. cc), h) }
  Proceeds-continue panic f n q = absurd (n refl)

  Proceeds-bind :
      (m : Run A) (f : A → Run B) → Proceeds m → ((a : A) → Proceeds (f a)) → Proceeds (m >>= f)
  Proceeds-bind m f p q = record {
    at = λ w h. (Proceeds-continue (m w).0 f (p.at w h).0 q).at (m w).1 (p.at w h).1;
  }

ruleset proceeds_rules = (
  Proceeds-pure, Proceeds-fail, Proceeds-or_return, Proceeds-if, Proceeds-ask, Proceeds-store,
  Proceeds-bind,
)

module _ (kube : Kube) (server : IsServer kube) where
  on_get-Proceeds :
      {A : Type 0} (r : Result A) (absent : Run (Unit {0})) (present : A → Run (Unit {0}))
      → Proceeds absent
      → ((a : A) → Proceeds (present a))
      → Proceeds (on_get kube r absent present)
  unfolding on_get
  on_get-Proceeds (ok a) absent present p q = q a
  on_get-Proceeds (err e) absent present p q =
      Proceeds-if (kube.is_not_found e) absent (fail e) p (Proceeds-fail e)

  Proceeds-get :
      {A : Type 0} (q : Request) (f : Trace → Result A) (absent : Run (Unit {0}))
      (present : A → Run (Unit {0}))
      → Proceeds absent
      → ((a : A) → Proceeds (present a))
      → Proceeds (ask q f >>= λ r. on_get kube r absent present)
  Proceeds-get q f absent present p k =
      Proceeds-bind (ask q f) _ (Proceeds-ask q f) (λ r. on_get-Proceeds r absent present p k)

  create-Proceeds : (wrap : Error → Error) (o : Object) → Proceeds (send_create kube wrap o)
  unfolding send_create
  create-Proceeds wrap o = search proceeds_rules

  -- What follows a `create` can rely on the subjects being those that were sent.
  create_then :
      (wrap : Error → Error) (o : Object) (f : Answer → Run (Unit {0}))
      → ((made : Answer) → made.subjects ≡ subjects_of o → Proceeds (f made))
      → Proceeds (send_create kube wrap o >>= f)
  unfolding send_create
  create_then wrap o f q = record { at = λ w h. answered w h (kube.create o w.calls) refl }
    where
      answered :
          (w : World)
          → HasOne w.memory
          → (r : Result Answer) → kube.create o w.calls ≡ r
          → ((send_create kube wrap o >>= f) w).0 ≢ panic
            × HasOne ((send_create kube wrap o >>= f) w).1.memory
      answered w h (err e) p = rw p ((λ x. cc), h)
      answered w h (ok made) p = rw p ((q made (server.created o w.calls made p).3).at _ h)

  update-Proceeds : (o : Object) → Proceeds (send_update kube o)
  unfolding send_update
  update-Proceeds o = search proceeds_rules

  module _ (a : Authenticator) (ns : Str) where
    account-Proceeds : Proceeds (create_service_account kube a ns)
    unfolding create_service_account
    account-Proceeds = search (Proceeds-load, proceeds_rules, create-Proceeds)

    role-Proceeds : Proceeds (create_role kube a ns)
    unfolding create_role
    role-Proceeds = search (Proceeds-load, proceeds_rules, create-Proceeds)

    bind_first-Proceeds :
        (res : Resources) (subjects : List Subject)
        → length subjects ≡ 1
        → Proceeds (bind_first kube a ns res subjects)
    unfolding bind_first
    bind_first-Proceeds res [] h = absurd (omega arith)
    bind_first-Proceeds res (s ∷ rest) h =
        let sent = record s { namespace = ns } ∷ rest in
        let m =
          kube.set_controller_reference a
            (record res.role_binding { namespace = ns; resource_version = [] }) in
        Proceeds-bind (store (record res { role_binding = m; subjects = sent })) _
          (Proceeds-store _ h)
          (λ _.
            create_then creating_role_binding (role_binding m sent)
              (λ made. store (record res { role_binding = made.meta; subjects = made.subjects }))
              (λ made e.
                Proceeds-store (record res { role_binding = made.meta; subjects = made.subjects })
                  (ap length e ∙ h)))

    binding-Proceeds : Proceeds (create_role_binding kube a ns)
    unfolding create_role_binding
    binding-Proceeds = Proceeds-load _ (λ res h. bind_first-Proceeds res res.subjects h)

    sync_one-Proceeds :
        (kind : Kind) (name : Str) (make : Run (Unit {0}))
        → Proceeds make
        → Proceeds (sync_one kube a kind ns name make)
    unfolding sync_one
    sync_one-Proceeds kind name make p = search (Proceeds-get, proceeds_rules, p)

    rbac-Proceeds : Proceeds (sync_rbac_resources kube a ns)
    unfolding sync_rbac_resources sync_service_account sync_role sync_role_binding
    rbac-Proceeds = search (
      Proceeds-load, proceeds_rules, sync_one-Proceeds, account-Proceeds, role-Proceeds,
      binding-Proceeds,
    )

    new_config_map-Proceeds : (new : Dict Str Str) → Proceeds (create_owned_config_map kube a new)
    unfolding create_owned_config_map
    new_config_map-Proceeds new = search (proceeds_rules, create-Proceeds)

    changed_config_map-Proceeds :
        (new : Dict Str Str) (found : Meta × Dict Str Str)
        → Proceeds (update_config_map kube a new found)
    unfolding update_config_map
    changed_config_map-Proceeds new (m, old) = search (proceeds_rules, update-Proceeds)

    config_map-Proceeds : (name text : Str) → Proceeds (sync_config_map kube a ns name text)
    unfolding sync_config_map
    config_map-Proceeds name text =
        search (Proceeds-get, new_config_map-Proceeds, changed_config_map-Proceeds)

    new_daemon_set-Proceeds : (new : DaemonSet) → Proceeds (create_owned_daemon_set kube a new)
    unfolding create_owned_daemon_set
    new_daemon_set-Proceeds new = search (proceeds_rules, create-Proceeds)

    changed_daemon_set-Proceeds :
        (new : DaemonSet) (found : Meta × DaemonSet) → Proceeds (update_daemon_set kube a new found)
    unfolding update_daemon_set
    changed_daemon_set-Proceeds new (m, old) = search (proceeds_rules, update-Proceeds)

    daemon_set-Proceeds : (name account : Str) → Proceeds (sync_daemon_set kube a ns name account)
    unfolding sync_daemon_set
    daemon_set-Proceeds name account =
        search (Proceeds-get, new_daemon_set-Proceeds, changed_daemon_set-Proceeds)

    all-Proceeds : (name : Str) → Proceeds (sync_all kube a ns name)
    unfolding sync_all
    all-Proceeds name =
        search
          (Proceeds-load, proceeds_rules, config_map-Proceeds, rbac-Proceeds, daemon_set-Proceeds)

  reconcile-Proceeds : (ns name : Str) → Proceeds (reconcile kube ns name)
  unfolding reconcile
  reconcile-Proceeds ns name = search (Proceeds-get, proceeds_rules, all-Proceeds)

  -- Requests that are handled one after the other.
  pub data Handled (w : World) : World → Type 0 where
    none_yet : Handled w w
    handled : {u : World} (ns name : Str) → Handled w u → Handled w (reconcile kube ns name u).1

  Handled-HasOne : {w u : World} → HasOne w.memory → Handled w u → HasOne u.memory
  Handled-HasOne h none_yet = h
  Handled-HasOne h (handled {u = u} ns name r) =
      ((reconcile-Proceeds ns name).at u (Handled-HasOne h r)).1

  -- The reconciler of an operator that serves, whatever requests it has handled and whatever
  -- the server has answered, if it answers a new RoleBinding with the subjects sent, does not stop the program on the next request.
  pub reconcile_total :
      (m : Manifests) (manager : Manager) (res : Resources) (t : Trace) {u : World}
      → operator m manager ≡ serving res
      → Handled (record { memory = res; calls = t }) u
      → (ns name : Str) → (reconcile kube ns name u).0 ≢ panic
  reconcile_total m manager res t {u} p r ns name =
      ((reconcile-Proceeds ns name).at u (
        Handled-HasOne
          (retrieve_resources_subject m authenticator_rbac_path res
            (operator_retrieves m manager res p))
          r)).0
