-- ===== src/Controllers/Operator.antt =====
-- main.go: the operator's `main` up to the running manager.
use eapol_operator.Base.{Str, bytes, Result, ok, err, ◌≡◌, ap}
use eapol_operator.Controllers.{Resources, Ends, value, error, panic}
use eapol_operator.Controllers.Assets.{Manifests, retrieve_resources}
use eapol_operator.Controllers.Setup.{setup_with_manager, setup_retrieves}

-- What controller-runtime answers, call by call.
pub record Manager : Type 0 where
  pub new_manager : Result (Unit {0})
  pub completed : Result (Unit {0})
  pub add_healthz_check : Result (Unit {0})
  pub add_readyz_check : Result (Unit {0})

-- The program has exited, has panicked, or its manager is started with a reconciler that has these
-- resources.
pub data Operator : Type 0 where
  exited panicked : Operator
  serving : Resources → Operator

abbrev pub authenticator_rbac_path : Str
authenticator_rbac_path = bytes "./bindata/deployment/authenticator-rbac"

with_checks : Result (Unit {0}) → Result (Unit {0}) → Resources → Operator
with_checks (ok _) (ok _) res = serving res
with_checks healthz readyz res = exited

with_controller : Manager → Ends Resources → Operator
unfolding with_checks
with_controller manager (value res) =
    with_checks manager.add_healthz_check manager.add_readyz_check res
with_controller manager (error e) = exited
with_controller manager panic = panicked

with_manager : Result (Unit {0}) → Manifests → Manager → Operator
unfolding with_controller
with_manager (err e) m manager = exited
with_manager (ok _) m manager =
    with_controller manager (setup_with_manager m manager.completed authenticator_rbac_path)

unfoldable pub operator : Manifests → Manager → Operator
unfolding with_manager
operator m manager = with_manager manager.new_manager m manager

checks_serve :
    (a b : Result (Unit {0})) (x res : Resources) → with_checks a b x ≡ serving res → x ≡ res
unfolding with_checks
checks_serve (ok _) (ok _) x res p = cc
checks_serve (ok _) (err e) x res p = absurd cc
checks_serve (err e) b x res p = absurd cc

controller_serves :
    (manager : Manager) (r : Ends Resources) (res : Resources)
    → with_controller manager r ≡ serving res
    → r ≡ value res
unfolding with_controller
controller_serves manager (value x) res p =
    ap value (checks_serve manager.add_healthz_check manager.add_readyz_check x res p)
controller_serves manager (error e) res p = absurd cc
controller_serves manager panic res p = absurd cc

manager_serves :
    (r : Result (Unit {0})) (m : Manifests) (manager : Manager) (res : Resources)
    → with_manager r m manager ≡ serving res
    → setup_with_manager m manager.completed authenticator_rbac_path ≡ value res
unfolding with_manager
manager_serves (err e) m manager res p = absurd cc
manager_serves (ok _) m manager res p = controller_serves manager _ res p

-- An operator that serves has the resources that were read from its path.
pub operator_retrieves :
    (m : Manifests) (manager : Manager) (res : Resources)
    → operator m manager ≡ serving res
    → retrieve_resources m authenticator_rbac_path ≡ value res
unfolding operator
operator_retrieves m manager res p =
    setup_retrieves m manager.completed authenticator_rbac_path res
      (manager_serves manager.new_manager m manager res p)
