-- ===== src/Base/Errors.antt =====
-- Go's `error` results. An error of the world outside carries a number of its choice; the others
-- are the ones that the program makes.
use Prim.Native.Nat.{ℕ}
use mathlib.Core.List.{List}

pub data Error : Type 0 where
  outside : ℕ → Error
  -- `fmt.Errorf("interface %s is not a sriov pf type", …)`
  not_sriov_pf : List ℕ → Error
  -- `fmt.Errorf("failed to read vf net directory %s: %q", …)`
  read_vf_dir : List ℕ → Error → Error
  -- `fmt.Errorf("failed to get netlink %s: %q", …)`
  get_netlink : List ℕ → Error → Error
  -- `errors.New("event channel can not be empty")`
  no_channel : Error
  -- `errors.New("no authentication object found from labels")`
  no_labels : Error
  -- the errors of `strconv.Atoi`
  bad_syntax : Error
  out_of_range : Error
  -- `fmt.Errorf("failed to generate ConfigMap content: %e", …)`
  config_map_content : Error → Error
  -- `fmt.Errorf("error creating authenticator …: %v, err: %v", …)`
  creating_service_account : Error → Error
  creating_role : Error → Error
  creating_role_binding : Error → Error
  -- the errors of `retrieveResources`
  subject_length : Error
  unknown_kind : List ℕ → Error
  no_service_account no_role no_role_binding : Error

-- A value, or an error.
pub data Result {ℓ} (A : Type ℓ) : Type ℓ where
  ok : A → Result A
  err : Error → Result A
