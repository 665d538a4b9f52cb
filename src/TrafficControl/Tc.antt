-- ===== src/TrafficControl/Tc.antt =====
-- internal/trafficcontrol/tc.go: the traffic of one MAC address is let in or dropped.
pub mod Verdict
pub mod Port
pub mod Obliging
pub mod Others
use eapol_operator.Base.{
  ℕ, List, [], ◌∷◌, ◌++◌, Str, bytes, String, Bool, true, false, Result, ok, err, length,
  if◌then◌else◌, ◌==◌, nat_eq,
}
use eapol_operator.Host.{Host, look_path, run, Trace, Act}
use eapol_operator.Host.Actions.{pure, ◌>>=◌, ◌>>◌, perform, for_each}
use eapol_operator.TrafficControl.Sriov.{PfInfo, configure_vlan_state_for_vfs}
use eapol_operator.TrafficControl.Sysfs.{get_associated_interfaces}

-- The two texts that `fmt.Sprintf` makes.
filter_text : Str → Str → String → Str
filter_text iface mac action =
    bytes "tc filter replace dev "
    ++ (iface
        ++ (bytes " ingress pref 9000 protocol all flower src_mac "
            ++ (mac ++ (bytes " action " ++ bytes action))))

unfoldable pub allow_command : Str → Str → Str
unfolding filter_text
allow_command iface mac = filter_text iface mac "ok"

unfoldable pub deny_command : Str → Str → Str
unfolding filter_text
deny_command iface mac = filter_text iface mac "drop"

module _ (h : Host) where
  abbrev pub shell_run : Str → Act (Unit {0})
  shell_run text = perform (run text) (h.shell text)

  abbrev pub find_tc : Act (Unit {0})
  find_tc = perform (look_path (bytes "tc")) (h.find_program (bytes "tc"))

  -- The filters of the PF and its VFs, one command each.
  unfoldable pub replace_filters : (Str → Str) → Str → Act (Unit {0})
  replace_filters command if_name = do
    find_tc
    interfaces ← get_associated_interfaces h if_name
    for_each (λ iface. shell_run (command iface)) interfaces

  -- The first authenticated client opens the VFs, the last that goes shuts them. The state of the
  -- PF comes back beside the result, since it stays changed when a later step fails.
  with_vfs : PfInfo → Act (Unit {0}) → Trace → Result (Unit {0}) × PfInfo × Trace
  with_vfs pf rest t =
      let (r, t') = (configure_vlan_state_for_vfs h pf >>= λ _. rest) t in (r, pf, t')

  without_vfs : PfInfo → Act (Unit {0}) → Trace → Result (Unit {0}) × PfInfo × Trace
  without_vfs pf rest t = let (r, t') = rest t in (r, pf, t')

  unfoldable pub allow_traffic_from_mac : PfInfo → Str → Trace → Result (Unit {0}) × PfInfo × Trace
  unfolding with_vfs without_vfs nat_eq
  allow_traffic_from_mac pf mac t =
      let filters = replace_filters (λ iface. allow_command iface mac) pf.name in
      if length pf.authenticated_addrs == 1
      then with_vfs (record pf { authenticated = true }) filters t
      else without_vfs pf filters t

  unfoldable pub deny_traffic_from_mac : PfInfo → Str → Trace → Result (Unit {0}) × PfInfo × Trace
  unfolding with_vfs without_vfs nat_eq
  deny_traffic_from_mac pf mac t =
      let filters = replace_filters (λ iface. deny_command iface mac) pf.name in
      if length pf.authenticated_addrs == 0
      then with_vfs (record pf { authenticated = false }) filters t
      else without_vfs pf filters t
