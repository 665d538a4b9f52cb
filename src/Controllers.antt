-- ===== src/Controllers.antt =====
-- controllers: the reconciler of the operator and the world that it works in. The API server is a
-- function of the calls made so far, as `Host` is for the monitor. A reconciler works on one
-- request after the other.
pub mod Adds
pub mod Leaves
pub mod Assets
pub mod Setup
pub mod Operator
pub mod Specs
pub mod Documented
pub mod Reconcile
use eapol_operator.Base.{List, [], ◌∷◌, Str, Bool, Option, Result, ok, err, Error, if◌then◌else◌}
use eapol_operator.Base.Dict.{Dict}
use eapol_operator.Api.{AuthenticatorSpec, Authenticator}
use eapol_operator.Configgen.{DaemonSet}

-- `metav1.OwnerReference` of a controller, as far as it tells owners apart.
pub record Owner : Type 0 where
  pub name : Str
  pub uid : Str

-- `metav1.ObjectMeta`, as far as it is read or written.
pub record Meta : Type 0 where
  pub name : Str
  pub namespace : Str
  pub owner : Option Owner
  pub resource_version : Str

-- `rbacv1.Subject`
pub record Subject : Type 0 where
  pub name : Str
  pub namespace : Str

pub data Object : Type 0 where
  config_map : Meta → Dict Str Str → Object
  service_account role : Meta → Object
  role_binding : Meta → List Subject → Object
  daemon_set : Meta → DaemonSet → Object

pub data Kind : Type 0 where
  authenticators config_maps service_accounts roles role_bindings daemon_sets : Kind

-- A request to the API server; `get` has the namespace and the name.
pub data Request : Type 0 where
  get : Kind → Str → Str → Request
  create update : Object → Request

pub data Event : Type 0 where
  done failed : Request → Event

-- The requests, the newest first.
abbrev pub Trace : Type 0
Trace = List Event

-- What is read of the object that the server answers to a `create`, which the client decodes into
-- the object that was sent; the subjects are those of a RoleBinding.
pub record Answer : Type 0 where
  pub meta : Meta
  pub subjects : List Subject

-- What is not the repository's: the API server, the template engine, `SetControllerReference`
-- of controller-runtime, and the comparison of specs by go-test/deep.
pub record Kube : Type 0 where
  pub get_authenticator : Str → Str → Trace → Result Authenticator
  pub get_config_map : Str → Str → Trace → Result (Meta × Dict Str Str)
  pub get_daemon_set : Str → Str → Trace → Result (Meta × DaemonSet)
  pub get_meta : Kind → Str → Str → Trace → Result Meta
  pub create : Object → Trace → Result Answer
  pub update : Object → Trace → Result Meta
  pub is_not_found : Error → Bool
  -- `ConfigMap`, as html/template answers; Configgen/Template has the text that it is to make
  pub render : AuthenticatorSpec → Result Str
  -- the metadata that are left, whether or not an error is returned
  pub set_controller_reference : Authenticator → Meta → Meta
  pub spec_differs : DaemonSet → DaemonSet → Bool

-- `resources`: the objects that the reconciler keeps in memory, with the subjects of the binding.
pub record Resources : Type 0 where
  pub service_account : Meta
  pub role : Meta
  pub role_binding : Meta
  pub subjects : List Subject

-- How a step ends.
pub data Ends (A : Type 0) : Type 0 where
  value : A → Ends A
  error : Error → Ends A
  panic : Ends A

-- The reconciler's memory and the requests up to now.
pub record World : Type 0 where
  pub memory : Resources
  pub calls : Trace

abbrev pub Run : Type 0 → Type 0
Run A = World → Ends A × World

abbrev pub pure : {A : Type 0} → A → Run A
pure a w = (value a, w)

abbrev pub fail : {A : Type 0} → Error → Run A
fail e w = (error e, w)

abbrev pub stop : {A : Type 0} → Run A
stop w = (panic, w)

abbrev pub continue : {A B : Type 0} → Ends A → (A → Run B) → Run B
continue (value a) f w = f a w
continue (error e) f w = (error e, w)
continue panic f w = (panic, w)

infixl 5 ◌>>=◌ ◌>>◌
abbrev pub ◌>>=◌ : {A B : Type 0} → Run A → (A → Run B) → Run B
◌>>=◌ m f w = let (r, w') = m w in continue r f w'

abbrev pub ◌>>◌ : {A B : Type 0} → Run A → Run B → Run B
m >> k = m >>= λ _. k

abbrev pub note : {A : Type 0} → Request → Result A → Event
note q (ok _) = done q
note q (err _) = failed q

-- A request, with its answer as a value.
abbrev pub ask : {A : Type 0} → Request → (Trace → Result A) → Run (Result A)
ask q answer w = (value (answer w.calls), record w { calls = note q (answer w.calls) ∷ w.calls })

abbrev pub ends_of : {A : Type 0} → (Error → Error) → Result A → Ends A
ends_of wrap (ok a) = value a
ends_of wrap (err e) = error (wrap e)

-- `if err != nil { return wrap(err) }`
abbrev pub or_return : {A : Type 0} → (Error → Error) → Result A → Run A
or_return wrap r w = (ends_of wrap r, w)

abbrev pub load : Run Resources
load w = (value w.memory, w)

abbrev pub store : Resources → Run (Unit {0})
store m w = (value tt, record w { memory = m })
