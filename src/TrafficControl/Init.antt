-- ===== src/TrafficControl/Init.antt =====
-- internal/trafficcontrol/tc.go: an interface before the first authentication, and after the last.
pub mod Issued
pub mod Plan
use eapol_operator.Base.{
  ℕ, List, [], ◌∷◌, ◌++◌, Str, bytes, Bool, true, false, not, Result, ok, err, if◌then◌else◌,
}
use eapol_operator.Base.Decimal.{ℤ, itoa}
use eapol_operator.Host.{Host, Act}
use eapol_operator.Host.Actions.{pure, ◌>>=◌, ◌>>◌, for_all, attempt}
use eapol_operator.TrafficControl.Sysfs.{is_sriov_pf}
use eapol_operator.TrafficControl.Tc.{shell_run, find_tc}

module _ (if_name : Str) where
  unfoldable pub del_ingress : Str
  del_ingress = bytes "tc qdisc del dev " ++ (if_name ++ bytes " ingress >/dev/null 2>&1 || true")

  unfoldable pub del_clsact : Str
  del_clsact = bytes "tc qdisc del dev " ++ (if_name ++ bytes " clsact >/dev/null 2>&1 || true")

  unfoldable pub add_clsact : Str
  add_clsact = bytes "tc qdisc add dev " ++ (if_name ++ bytes " clsact || return $?")

  unfoldable pub drop_all : Str
  drop_all =
      bytes "tc filter add dev "
      ++ (if_name
          ++ bytes " ingress pref 10001 protocol all matchall action drop index 101 || return $?")

  unfoldable pub pass_eapol : Str
  pass_eapol =
      bytes "tc filter add dev "
      ++ (if_name
          ++ bytes " ingress pref 10000 protocol 0x888e matchall action ok index 100 || return $?")

  unfoldable pub pass_port : Str → ℤ → Str
  pass_port protocol port =
      bytes "tc filter add dev "
      ++ (if_name
          ++ (bytes " ingress pref 9999 protocol ip u32 match "
              ++ (protocol
                  ++ (bytes " dst " ++ (itoa port ++ bytes " 0xffff action ok index 99")))))

  unfoldable pub pass_port_v6 : ℤ → Str
  pass_port_v6 port =
      bytes "tc filter add dev "
      ++ (if_name
          ++ (bytes " ingress pref 9999 protocol ipv6 u32 match ip6 dport "
              ++ (itoa port ++ bytes " 0xffff action ok index 100")))

-- `if len(ports) > 0 { … }`
abbrev pub when_any : List ℤ → Act (Unit {0}) → Act (Unit {0})
when_any [] m = pure tt
when_any (_ ∷ _) m = m

module _ (h : Host) (if_name : Str) where
  unfoldable pub reset_interface : Act (Unit {0})
  reset_interface = do
    find_tc h
    shell_run h (del_ingress if_name)
    shell_run h (del_clsact if_name)

  -- A filter that cannot be added is logged and passed over.
  unfoldable pub unprotect_ports : Str → List ℤ → Act (Unit {0})
  unfolding for_all
  unprotect_ports protocol ports = do
    find_tc h
    for_all (λ port. shell_run h (pass_port if_name protocol port)) ports

  unfoldable pub unprotect_ipv6_ports : List ℤ → Act (Unit {0})
  unfolding for_all
  unprotect_ipv6_ports ports = do
    find_tc h
    for_all (λ port. shell_run h (pass_port_v6 if_name port)) ports

  -- The filters that only a PF gets.
  pf_filters : List ℤ → List ℤ → Act (Unit {0})
  unfolding unprotect_ports unprotect_ipv6_ports
  pf_filters tcp udp = do
    shell_run h (pass_eapol if_name)
    when_any tcp (unprotect_ports (bytes "tcp") tcp)
    when_any udp (unprotect_ports (bytes "udp") udp)
    when_any (tcp ++ udp) (unprotect_ipv6_ports (tcp ++ udp))

  drop_everything : Act (Unit {0})
  unfolding reset_interface
  drop_everything = do
    reset_interface
    shell_run h (add_clsact if_name)
    shell_run h (drop_all if_name)

  if_pf : List ℤ → List ℤ → Bool → Act (Unit {0})
  unfolding pf_filters
  if_pf tcp udp pf = if not pf then pure tt else pf_filters tcp udp

  unfoldable pub init_interface_for_eap_traffic : List ℤ → List ℤ → Act (Unit {0})
  unfolding drop_everything if_pf
  init_interface_for_eap_traffic tcp udp = do
    drop_everything
    pf ← is_sriov_pf h if_name
    if_pf tcp udp pf
