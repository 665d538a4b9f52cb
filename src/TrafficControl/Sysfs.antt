-- ===== src/TrafficControl/Sysfs.antt =====
-- internal/trafficcontrol/sriov.go: the interfaces of a physical function, found under
-- /sys/class/net. Paths are joined as they stand; the names of interfaces need no cleaning.
pub mod Quiet
use eapol_operator.Base.{
  ℕ, List, [], ◌∷◌, ◌++◌, Str, bytes, String, Bool, true, false, Option, none, some, Result, ok,
  err, Error, not_sriov_pf, read_vf_dir, get_netlink, if◌then◌else◌,
}
use eapol_operator.Host.{Host, link_by_name, stat, glob, read_dir, Link, Trace, Act}
use eapol_operator.Host.Actions.{pure, fail, attempt, ◌>>=◌, ◌>>◌, perform}

abbrev pub sys_class_net : Str
sys_class_net = bytes "/sys/class/net/"

-- `filepath.Join(sysClassNet, ifName, "device", file)`
unfoldable pub device_path : Str → String → Str
device_path if_name file = sys_class_net ++ (if_name ++ (bytes "/device/" ++ bytes file))

exists : Result Bool → Bool
exists (ok _) = true
exists (err _) = false

is_dir : Result Bool → Bool
is_dir (ok d) = d
is_dir (err _) = false

-- A wrapped error.
wrap : {A : Type 0} → (Error → Error) → Result A → Act A
wrap f (ok a) = pure a
wrap f (err e) = fail (f e)

module _ (h : Host) where
  unfoldable pub is_sriov_pf : Str → Act Bool
  unfolding exists device_path
  is_sriov_pf if_name = do
    found ← attempt (
        perform (stat (device_path if_name "sriov_numvfs"))
          (h.file_info (device_path if_name "sriov_numvfs")))
    pure (exists found)

  unfoldable pub dir_exists : Str → Act Bool
  unfolding is_dir
  dir_exists dirname = do
    found ← attempt (perform (stat dirname) (h.file_info dirname))
    pure (is_dir found)

  -- A VF's interface, from the entries of its `net` directory. `none` skips the VF.
  vf_interface : List Str → Act (Option Str)
  unfolding wrap
  vf_interface [] = pure none
  vf_interface (vf_if_name ∷ _) = do
    answer ← attempt (perform (link_by_name vf_if_name) (h.link vf_if_name))
    vf_link ← wrap (get_netlink vf_if_name) answer
    pure (some vf_link.name)

  vf_net_entries : Str → Act (Option Str)
  unfolding wrap vf_interface
  vf_net_entries vf_net_dir = do
    answer ← attempt (perform (read_dir vf_net_dir) (h.entries vf_net_dir))
    names ← wrap (read_vf_dir vf_net_dir) answer
    vf_interface names

  vf_name : Str → Act (Option Str)
  unfolding vf_net_entries dir_exists
  vf_name vf_dir = do
    let vf_net_dir = vf_dir ++ bytes "/net"
    there ← dir_exists vf_net_dir
    if there then vf_net_entries vf_net_dir else pure none

  abbrev append_found : List Str → Option Str → List Str
  append_found names none = names
  append_found names (some name) = names ++ name ∷ []

  vf_names : List Str → List Str → Act (List Str)
  unfolding vf_name
  vf_names [] names = pure names
  vf_names (vf_dir ∷ rest) names =
      vf_name vf_dir >>= λ found. vf_names rest (append_found names found)

  unfoldable pub get_sriov_vfs : Str → Act (List Str)
  unfolding vf_names is_sriov_pf
  get_sriov_vfs if_name = do
    pf ← is_sriov_pf if_name
    if pf
        then perform (glob (device_path if_name "virtfn*"))
            (h.matches (device_path if_name "virtfn*"))
          >>= (λ vf_dirs. vf_names vf_dirs [])
        else fail (not_sriov_pf if_name)

  unfoldable pub get_associated_interfaces : Str → Act (List Str)
  unfolding is_sriov_pf get_sriov_vfs
  get_associated_interfaces if_name = do
    pf ← is_sriov_pf if_name
    if pf then get_sriov_vfs if_name >>= (λ vfs. pure (if_name ∷ vfs)) else pure (if_name ∷ [])
