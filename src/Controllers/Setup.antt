-- ===== src/Controllers/Setup.antt =====
-- controllers/authenticator_controller.go: `SetupWithManager`.
use eapol_operator.Base.{Str, Result, ok, err, ◌≡◌}
use eapol_operator.Controllers.{Resources, Ends, value, error, panic}
use eapol_operator.Controllers.Assets.{Manifests, then_on, retrieve_resources}

-- `Complete(r)`, whose result is given, is called when the resources have been read.
registered : Result (Unit {0}) → Resources → Ends Resources
registered (ok _) res = value res
registered (err e) res = error e

-- The resources with which the reconciler starts.
unfoldable pub setup_with_manager : Manifests → Result (Unit {0}) → Str → Ends Resources
unfolding registered
setup_with_manager m completed path = then_on (retrieve_resources m path) (registered completed)

setup_step :
    (completed : Result (Unit {0})) (r : Ends Resources) (res : Resources)
    → then_on r (registered completed) ≡ value res
    → r ≡ value res
unfolding registered
setup_step (ok _) (value x) res p = p
setup_step (err e) (value x) res p = absurd cc
setup_step completed (error e) res p = absurd cc
setup_step completed panic res p = absurd cc

-- A reconciler that has been set up has the resources that were read.
pub setup_retrieves :
    (m : Manifests) (completed : Result (Unit {0})) (path : Str) (res : Resources)
    → setup_with_manager m completed path ≡ value res
    → retrieve_resources m path ≡ value res
unfolding setup_with_manager
setup_retrieves m completed path res p = setup_step completed (retrieve_resources m path) res p
