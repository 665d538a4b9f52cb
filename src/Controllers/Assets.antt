-- ===== src/Controllers/Assets.antt =====
-- controllers/authenticator_resources.go: the objects that the reconciler keeps, from manifests.
pub mod Subjects
use eapol_operator.Base.{
  ℕ, zero, suc, List, [], ◌∷◌, Str, bytes, Bool, true, false, Option, none, some, Result, ok, err,
  Error, subject_length, unknown_kind, no_service_account, no_role, no_role_binding, if◌then◌else◌,
  ◌==◌, bytes_eq,
}
use eapol_operator.Base.Text.{split, trim_space}
use eapol_operator.Controllers.{Meta, Subject, Resources, Ends, value, error, panic}

-- What is not the repository's: the file system, the regular expression and the YAML decoder.
pub record Manifests : Type 0 where
  -- `filepath.Walk`: each path that it visits, and whether it is a directory if that is known
  pub walk : Str → List (Str × Option Bool)
  pub read_file : Str → Result Str
  -- `reg.FindString`
  pub find_kind : Str → Str
  pub decode_service_account : Str → Result Meta
  pub decode_role : Str → Result Meta
  pub decode_role_binding : Str → Result (Meta × List Subject)

-- `res`, of which each object may be missing yet.
pub record Found : Type 0 where
  pub service_account : Option Meta
  pub role : Option Meta
  pub role_binding : Option (Meta × List Subject)

abbrev pub then_on : {A B : Type 0} → Ends A → (A → Ends B) → Ends B
then_on (value a) f = f a
then_on (error e) f = error e
then_on panic f = panic

-- `panicIfError`
abbrev pub or_panic : {A : Type 0} → Result A → Ends A
or_panic (ok a) = value a
or_panic (err e) = panic

-- `filePathWalkDir`: `info` is nil where it is not known, and the program stops.
file_path_walk_dir : List (Str × Option Bool) → Ends (List Str)
file_path_walk_dir [] = value []
file_path_walk_dir ((path, none) ∷ rest) = panic
file_path_walk_dir ((path, some true) ∷ rest) = file_path_walk_dir rest
file_path_walk_dir ((path, some false) ∷ rest) =
    then_on (file_path_walk_dir rest) (λ files. value (path ∷ files))

-- `slce[1]`
second : List Str → Ends Str
second (_ ∷ kind ∷ _) = value kind
second _ = panic

-- A binding has one subject.
with_binding : Found → Meta × List Subject → Ends Found
with_binding res (m, s ∷ []) = value (record res { role_binding = some (m, s ∷ []) })
with_binding res (m, _) = error subject_length

or_missing : {A : Type 0} → Option A → Error → Ends A
or_missing none e = error e
or_missing (some a) e = value a

-- The end of `retrieveResources`.
complete : Found → Ends Resources
unfolding or_missing
complete res = then_on (or_missing res.service_account no_service_account) λ account.
    then_on (or_missing res.role no_role) λ role.
      then_on (or_missing res.role_binding no_role_binding) λ binding. value (record {
        service_account = account;
        role = role;
        role_binding = binding.0;
        subjects = binding.1;
      })

module _ (m : Manifests) where
  read_all : List Str → Ends (List Str)
  read_all [] = value []
  read_all (file ∷ rest) =
      then_on (or_panic (m.read_file file))
        λ buffer. then_on (read_all rest) λ manifests. value (buffer ∷ manifests)

  get_assets_from : Str → Ends (List Str)
  unfolding file_path_walk_dir read_all
  get_assets_from path = then_on (file_path_walk_dir (m.walk path)) read_all

  -- The `switch` over the kind of a manifest.
  add_kind : Found → Str → Str → Ends Found
  unfolding with_binding bytes_eq
  add_kind res manifest kind =
      if kind == bytes "ServiceAccount"
      then then_on (or_panic (m.decode_service_account manifest))
          (λ account. value (record res { service_account = some account }))
      else if kind == bytes "Role"
      then then_on (or_panic (m.decode_role manifest)) (λ r. value (record res { role = some r }))
      else if kind == bytes "RoleBinding"
      then then_on (or_panic (m.decode_role_binding manifest)) (with_binding res)
      else error (unknown_kind kind)

  add_manifest : Found → Str → Ends Found
  unfolding add_kind second
  add_manifest res manifest =
      then_on (second (split 58 (m.find_kind manifest)))
        (λ kind. add_kind res manifest (trim_space kind))

  add_all : List Str → Found → Ends Found
  unfolding add_manifest
  add_all [] res = value res
  add_all (manifest ∷ rest) res = then_on (add_manifest res manifest) (add_all rest)

  unfoldable pub retrieve_resources : Str → Ends Resources
  unfolding get_assets_from add_all complete
  retrieve_resources path = then_on (get_assets_from path) (λ manifests.
      then_on
        (add_all manifests (record { service_account = none; role = none; role_binding = none }))
        complete)
