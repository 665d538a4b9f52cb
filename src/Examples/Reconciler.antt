-- ===== src/Examples/Reconciler.antt =====
-- The theorems on the reconciler, applied to the example.
use eapol_operator.Configgen.Template.OneLine.{IsOneLine}
use eapol_operator.Controllers.Reconcile.Pods.{FitTogether, reconcile-FitTogether}
use eapol_operator.Configgen.Template.{hostapd_conf}
use eapol_operator.Base.{
  [], ◌∷◌, ◌++◌, Str, bytes, true, false, Option, none, some, Result, ok, err, Error, outside, ◌≡◌,
  ◌≢◌, refl, arith, length, ◌==◌, bytes_eq, nat_eq, if◌then◌else◌,
}
use eapol_operator.Base.Text.{split, trim_space}
use eapol_operator.Api.{Authenticator}
use eapol_operator.Configgen.{DaemonSet, daemonset}
use eapol_operator.Controllers.{
  Owner, Meta, Subject, Kind, authenticators, config_maps, service_accounts, roles, role_bindings,
  daemon_sets, Kube, Resources, value, panic, World,
}
use eapol_operator.Controllers.Documented.{subjects_of, IsServer, IsReferring, meta_of, owner_of}
use eapol_operator.Controllers.Assets.{Manifests, retrieve_resources}
use eapol_operator.Controllers.Assets.Subjects.{retrieve_resources_subject}
use eapol_operator.Controllers.Setup.{setup_with_manager}
use eapol_operator.Controllers.Operator.{Manager, serving, operator}
use eapol_operator.Controllers.Reconcile.{
  reconcile, sync_config_map, sync_rbac_resources, sync_daemon_set, send_create, on_get,
}
use eapol_operator.Controllers.Reconcile.Namespace.{InNamespace, reconcile-InNamespace}
use eapol_operator.Controllers.Reconcile.Fresh.{
  unwritten, creations, IsFresh, wanted, kept, reconcile_fresh,
}
use eapol_operator.Controllers.Reconcile.Owners.{owners, AreOwned, reconcile_foreign-owners}
use eapol_operator.Controllers.Reconcile.Outdated.{
  HasAll, writes, config_map_writes, daemon_set_writes, reconcile_found,
}
use eapol_operator.Controllers.Reconcile.Success.{Provides, reconcile_success}
use eapol_operator.Controllers.Leaves.{Reached}
use eapol_operator.Controllers.Adds.{Since}
use eapol_operator.Controllers.Reconcile.Total.{none_yet, handled, reconcile_total}
use eapol_operator.Examples.Escaping.{html_escape, html_escape-IsHtmlEscape}
use eapol_operator.Examples.{resource}

abbrev not_there : Error
not_there = outside 404

-- The resource of each namespace; the one of the other namespace has another name.
abbrev resource_in : Str → Str → Authenticator
resource_in ns n = record resource { namespace = ns; name = n }

abbrev with_owner : Authenticator → Meta → Option Owner → Option Owner
with_owner a m none = if m.namespace == a.namespace then some (owner_of a) else none
with_owner a m (some o) = if o.name == a.name then some (owner_of a) else some o

-- A server that has nothing but resources, and accepts everything.
abbrev bare : Kube
bare = record {
  get_authenticator = λ ns n t. ok (resource_in ns n);
  get_config_map = λ ns n t. err not_there;
  get_daemon_set = λ ns n t. err not_there;
  get_meta = λ k ns n t. err not_there;
  create = λ o t. ok (record { meta = meta_of o; subjects = subjects_of o });
  update = λ o t. ok (meta_of o);
  is_not_found = λ e. true;
  render = λ s. ok (hostapd_conf html_escape s);
  set_controller_reference = λ a m. record m { owner = with_owner a m m.owner };
  spec_differs = λ a b. true;
}

found_here :
    (ns n : Str) (a : Authenticator)
    → Result.ok (resource_in ns n) ≡ ok a
    → (a.namespace ≡ ns) × (a.name ≡ n)
found_here ns n a p = (ground arith, ground arith)

bare-IsServer : IsServer bare
bare-IsServer = record {
  found_authenticator = λ ns n t a p. found_here ns n a p;
  found_daemon_set = λ ns n t m d p. absurd cc;
  created = λ o t m p. (ground arith, ground arith, ground arith, ground arith);
}

bare-IsReferring : IsReferring bare
bare-IsReferring = record {
  name_kept = λ a m. refl;
  namespace_kept = λ a m. refl;
  takes = λ a m p q. rw p (ground (arith, q));
  leaves = λ a m o p n. rw p (ground (arith, n));
}

bare-IsFresh : (ns n : Str) → IsFresh bare ns n (resource_in ns n)
bare-IsFresh ns n = record {
  text = hostapd_conf html_escape (resource_in ns n).spec;
  rendered = refl;
  has_authenticator = λ t. refl;
  missing = λ k. not_there;
  is_missing = λ k. refl;
  no_config_map = λ t u. refl;
  no_daemon_set = λ t u. refl;
  no_meta = λ k m t u. refl;
  made = λ o. record { meta = meta_of o; subjects = subjects_of o };
  accepts = λ o t. refl;
}

abbrev unowned : Str → Meta
unowned n = record { name = n; namespace = []; owner = none; resource_version = [] }

abbrev first_subject : Subject
first_subject = record { name = bytes "sa"; namespace = [] }

abbrev objects : Resources
objects = record {
  service_account = unowned (bytes "sa");
  role = unowned (bytes "role");
  role_binding = unowned (bytes "binding");
  subjects = first_subject ∷ [];
}

abbrev start : World
start = record { memory = objects; calls = [] }

abbrev one : Str
one = 49 ∷ []

abbrev two : Str
two = 50 ∷ []

abbrev after_one : World
after_one = (reconcile bare one one start).1

nothing_written : (k : Kind) → unwritten k one [] ≡ true
nothing_written k = refl

reconcile_fresh_example :
    ((reconcile bare one one start).0 ≡ value tt)
    × (after_one.memory
        ≡ kept bare one one (resource_in one one) (bare-IsFresh one one) objects first_subject [])
    × (creations after_one.calls
        ≡ wanted bare one one
            (resource_in one one)
            objects
            (hostapd_conf html_escape (resource_in one one).spec)
            first_subject
            []
          ++ [])
unfolding bare-IsFresh
reconcile_fresh_example =
    reconcile_fresh bare one one (resource_in one one) start (bare-IsFresh one one) first_subject []
      refl nothing_written

abbrev owner_in : Str → Option Owner
owner_in ns = some (owner_of (resource_in ns ns))

objects-AreOwned : AreOwned none objects
objects-AreOwned = record { of_service_account = refl; of_role = refl; of_role_binding = refl }

unwritten_in_two : (k : Kind) → unwritten k two after_one.calls ≡ true
unfolding reconcile sync_config_map sync_rbac_resources sync_daemon_set send_create on_get bytes_eq
unwritten_in_two authenticators = refl
unwritten_in_two config_maps = refl
unwritten_in_two service_accounts = refl
unwritten_in_two roles = refl
unwritten_in_two role_bindings = refl
unwritten_in_two daemon_sets = refl

reconcile_foreign-owners_example :
    owners (creations (reconcile bare two two after_one).1.calls)
    ≡ owner_in two
      ∷ owner_in one
      ∷ owner_in one
      ∷ owner_in one
      ∷ owner_in two
      ∷ owners (creations after_one.calls)
reconcile_foreign-owners_example =
    reconcile_foreign-owners bare bare-IsServer bare-IsReferring one one two two
      (resource_in one one) (resource_in two two) start (bare-IsFresh one one)
      (bare-IsFresh two two) first_subject [] refl nothing_written objects-AreOwned
      (λ p. ground arith) unwritten_in_two

reconcile-InNamespace_example : Since (InNamespace one) [] after_one.calls
reconcile-InNamespace_example =
    reconcile-InNamespace bare bare-IsServer bare-IsReferring one one start

one_line : IsOneLine (resource_in one one).spec
one_line = record {
  interfaces = omega arith;
  passphrase = λ l e. absurd cc;
  server = λ r e. absurd cc;
}

reconcile-FitTogether_example :
    FitTogether html_escape (resource_in one one) (creations after_one.calls)
unfolding bare-IsFresh
reconcile-FitTogether_example =
    reconcile-FitTogether bare bare-IsReferring one one html_escape html_escape-IsHtmlEscape
      (resource_in one one) start (bare-IsFresh one one) first_subject [] refl nothing_written refl
      refl one_line

reconcile_success_example : Reached (Provides config_maps one one) [] after_one.calls
reconcile_success_example =
    reconcile_success bare bare-IsServer bare-IsReferring one one start (resource_in one one) refl
      reconcile_fresh_example.0 config_maps

-- A directory of three manifests, each of which is its kind only.
abbrev files : Manifests
files = record {
  walk = λ p.
      (p, some true)
      ∷ (bytes "kind: ServiceAccount", some false)
      ∷ (bytes "kind: Role", some false)
      ∷ (bytes "kind: RoleBinding", some false)
      ∷ [];
  read_file = λ p. ok p;
  find_kind = λ m. m;
  decode_service_account = λ m. ok (unowned (bytes "sa"));
  decode_role = λ m. ok (unowned (bytes "role"));
  decode_role_binding = λ m. ok (unowned (bytes "binding"), first_subject ∷ []);
}

retrieved : retrieve_resources files [] ≡ value objects
unfolding retrieve_resources split trim_space bytes_eq nat_eq
retrieved = refl

retrieve_resources_subject_example : length objects.subjects ≡ 1
retrieve_resources_subject_example = retrieve_resources_subject files [] objects retrieved

abbrev manager : Manager
manager = record {
  new_manager = ok tt;
  completed = ok tt;
  add_healthz_check = ok tt;
  add_readyz_check = ok tt;
}

serves : operator files manager ≡ serving objects
unfolding operator setup_with_manager retrieve_resources split trim_space bytes_eq nat_eq
serves = refl

reconcile_total_example : (reconcile bare two two after_one).0 ≢ panic
reconcile_total_example =
    reconcile_total bare bare-IsServer files manager objects [] serves (handled one one none_yet)
      two two

-- The metadata of what the server has, with the resource as their owner.
abbrev owned_meta : Str → Str → Meta
owned_meta ns n = record {
  name = n;
  namespace = ns;
  owner = owner_in ns;
  resource_version = bytes "7";
}

abbrev old_set : DaemonSet
old_set = daemonset resource (bytes "old")

-- A server that has everything, with other content.
abbrev full : Kube
full = record bare {
  get_config_map = λ ns n t. ok (owned_meta ns n, []);
  get_daemon_set = λ ns n t. ok (owned_meta ns n, old_set);
  get_meta = λ k ns n t. ok (owned_meta ns n);
}

full-HasAll : HasAll full one one objects (resource_in one one)
full-HasAll = record {
  text = hostapd_conf html_escape (resource_in one one).spec;
  rendered = refl;
  has_authenticator = λ t. refl;
  config = (owned_meta one one, []);
  has_config_map = λ t. refl;
  service_account_meta = owned_meta one (bytes "sa");
  has_service_account = λ t. refl;
  role_meta = owned_meta one (bytes "role");
  has_role = λ t. refl;
  role_binding_meta = owned_meta one (bytes "binding");
  has_role_binding = λ t. refl;
  set = (owned_meta one one, old_set);
  has_daemon_set = λ t. refl;
}

-- Both are sent, the ConfigMap with no owner.
reconcile_found_example :
    ((reconcile full one one start).0 ≡ value tt)
    × (writes (reconcile full one one start).1.calls
        ≡ daemon_set_writes full one one
            (resource_in one one)
            (owned_meta one one, old_set)
            (bytes "sa")
          ++ (config_map_writes full one one
                (resource_in one one)
                []
                (hostapd_conf html_escape (resource_in one one).spec)
              ++ []))
unfolding full-HasAll
reconcile_found_example =
    reconcile_found full one one (resource_in one one) start full-HasAll meta_of (λ o t. refl)
