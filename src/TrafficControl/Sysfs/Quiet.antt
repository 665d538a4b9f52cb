-- ===== src/TrafficControl/Sysfs/Quiet.antt =====
-- Looking for interfaces and replacing filters sets up no VF.
use eapol_operator.Base.{List, [], ◌∷◌, Str, Result, ok, err, Error}
use eapol_operator.Host.{Host}
use eapol_operator.Host.Quiet.{IsQuiet, IsQuiet-bind, quiet_rules}
use eapol_operator.TrafficControl.Sysfs.{
  wrap, is_sriov_pf, dir_exists, vf_interface, vf_net_entries, vf_name, vf_names, append_found,
  get_sriov_vfs, get_associated_interfaces,
}

wrap-IsQuiet : {A : Type 0} (f : Error → Error) (r : Result A) → IsQuiet (wrap f r)
unfolding wrap
wrap-IsQuiet f (ok a) = search quiet_rules
wrap-IsQuiet f (err e) = search quiet_rules

module _ (h : Host) where
  pub is_sriov_pf-IsQuiet : (n : Str) → IsQuiet (is_sriov_pf h n)
  unfolding is_sriov_pf
  is_sriov_pf-IsQuiet n = search quiet_rules

  dir_exists-IsQuiet : (n : Str) → IsQuiet (dir_exists h n)
  unfolding dir_exists
  dir_exists-IsQuiet n = search quiet_rules

  vf_interface-IsQuiet : (names : List Str) → IsQuiet (vf_interface h names)
  unfolding vf_interface
  vf_interface-IsQuiet [] = search quiet_rules
  vf_interface-IsQuiet (n ∷ _) = search (quiet_rules, wrap-IsQuiet)

  vf_net_entries-IsQuiet : (n : Str) → IsQuiet (vf_net_entries h n)
  unfolding vf_net_entries
  vf_net_entries-IsQuiet n = search (quiet_rules, wrap-IsQuiet, vf_interface-IsQuiet)

  vf_name-IsQuiet : (n : Str) → IsQuiet (vf_name h n)
  unfolding vf_name
  vf_name-IsQuiet n = search (quiet_rules, dir_exists-IsQuiet, vf_net_entries-IsQuiet)

  vf_names-IsQuiet : (dirs names : List Str) → IsQuiet (vf_names h dirs names)
  unfolding vf_names
  vf_names-IsQuiet [] names = search quiet_rules
  vf_names-IsQuiet (d ∷ dirs) names =
      IsQuiet-bind (vf_name h d) (λ found. vf_names h dirs (append_found h names found))
        (vf_name-IsQuiet d) (λ found. vf_names-IsQuiet dirs (append_found h names found))

  get_sriov_vfs-IsQuiet : (n : Str) → IsQuiet (get_sriov_vfs h n)
  unfolding get_sriov_vfs
  get_sriov_vfs-IsQuiet n = search (quiet_rules, is_sriov_pf-IsQuiet, vf_names-IsQuiet)

  pub get_associated_interfaces-IsQuiet : (n : Str) → IsQuiet (get_associated_interfaces h n)
  unfolding get_associated_interfaces
  get_associated_interfaces-IsQuiet n =
      search (quiet_rules, is_sriov_pf-IsQuiet, get_sriov_vfs-IsQuiet)
