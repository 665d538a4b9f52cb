-- ===== src/Examples/Kernel.antt =====
-- The theorems on the VFs, the filters and the preparation of an interface, applied to the example.
use eapol_operator.Base.{[], ◌∷◌, ◌++◌, Bool, ok, ◌≡◌, refl, arith, nat_eq, bytes_eq}
use eapol_operator.Base.Dict
use eapol_operator.Base.Decimal.{pos}
use eapol_operator.Host.{oper_up, Trace}
use eapol_operator.TrafficControl.Sriov.{
  PfInfo, configure_vlan_state_for_vfs, handle_pf_event_for_vlan_change, configure_vlan_state,
}
use eapol_operator.TrafficControl.Sriov.Kernel.{
  AreShut, AreOpen, IsIndexed, AllConfigured, configure-AllConfigured, configure_all_ok,
}
use eapol_operator.TrafficControl.Sriov.VlanChange.{handle_lookup, handle_vlan_ok, info_after}
use eapol_operator.Host.Actions.{for_each, for_all}
use eapol_operator.TrafficControl.Sysfs.{is_sriov_pf, get_associated_interfaces, get_sriov_vfs}
use eapol_operator.TrafficControl.Tc.{
  allow_traffic_from_mac, deny_traffic_from_mac, replace_filters,
}
use eapol_operator.TrafficControl.Tc.Verdict.{Covers, IsDropped, IsLetIn}
use eapol_operator.TrafficControl.Tc.Port.{deny_last, allow_first}
use eapol_operator.TrafficControl.Init.{
  init_interface_for_eap_traffic, unprotect_ports, unprotect_ipv6_ports,
}
use eapol_operator.TrafficControl.Init.Issued.{issued}
use eapol_operator.TrafficControl.Init.Plan.{init_interface_plan, base_plan, plan}
use eapol_operator.Examples.{eth0, mac, machine, faithful, obliging, fresh_pf, link_of}

fresh-IsIndexed : IsIndexed fresh_pf
unfolding Dict.lookup nat_eq
fresh-IsIndexed = record { index_at = λ i vf p. ground arith }

abbrev one_client : PfInfo
one_client = record fresh_pf { authenticated_addrs = (mac, tt) ∷ [] }

-- The VFs of the example, set up.
abbrev set : Trace
set = (configure_vlan_state_for_vfs machine fresh_pf []).1

set-AllConfigured : AllConfigured fresh_pf set
set-AllConfigured =
    configure-AllConfigured machine faithful fresh_pf fresh-IsIndexed []
      (configure_all_ok machine obliging fresh_pf [])

abbrev old_pf : PfInfo
old_pf = record fresh_pf { vfs = (0, record { index = 0; vlan = 7 }) ∷ [] }

handle_lookup_example :
    Dict.lookup 0 (handle_pf_event_for_vlan_change machine old_pf []).1.vfs
    ≡ info_after 0 (link_of oper_up eth0).vfs (Dict.lookup 0 old_pf.vfs)
handle_lookup_example =
    handle_lookup machine old_pf [] (link_of oper_up eth0) refl
      (handle_vlan_ok machine obliging old_pf []) 0

deny_last_example :
    (s : Trace) × Covers machine eth0
      (IsDropped mac)
      s
      (deny_traffic_from_mac machine fresh_pf mac []).2
    × AreShut fresh_pf (deny_traffic_from_mac machine fresh_pf mac []).2
deny_last_example = deny_last machine faithful fresh_pf mac [] fresh-IsIndexed refl (
    unfold deny_traffic_from_mac configure_vlan_state_for_vfs configure_vlan_state replace_filters
      get_associated_interfaces get_sriov_vfs is_sriov_pf for_each nat_eq Dict.lookup Dict.keys in
    refl)

allow_first_example :
    (s : Trace) × Covers machine eth0
      (IsLetIn mac)
      s
      (allow_traffic_from_mac machine one_client mac []).2
    × AreOpen one_client (allow_traffic_from_mac machine one_client mac []).2
allow_first_example =
    allow_first machine faithful one_client mac [] (record { index_at = fresh-IsIndexed.index_at })
      refl
      (unfold allow_traffic_from_mac configure_vlan_state_for_vfs configure_vlan_state
          replace_filters get_associated_interfaces get_sriov_vfs is_sriov_pf for_each nat_eq
          Dict.lookup Dict.keys in
        refl)

init_interface_plan_example :
    (s : Trace) × (b : Bool) × ((is_sriov_pf machine eth0 s).0 ≡ ok b)
    × (issued s ≡ issued [] ++ base_plan eth0)
    × (issued
          (init_interface_for_eap_traffic machine eth0 (pos 53 ∷ []) (pos 53 ∷ pos 80 ∷ []) []).1
        ≡ issued [] ++ plan b eth0 (pos 53 ∷ []) (pos 53 ∷ pos 80 ∷ []))
init_interface_plan_example =
    init_interface_plan machine eth0 (pos 53 ∷ []) (pos 53 ∷ pos 80 ∷ []) [] (
      unfold init_interface_for_eap_traffic is_sriov_pf unprotect_ports unprotect_ipv6_ports
        for_all in
      refl)
