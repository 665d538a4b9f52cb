-- ===== src/TrafficControl/Tc/Obliging.antt =====
-- Where the kernel takes what it is given, the VFs follow the PF whatever else fails.
use eapol_operator.Base.{Str, length, ◌==◌, nat_eq, Bool-cases, inl, inr}
use eapol_operator.Host.{Host, Trace, Act}
use eapol_operator.Host.Views.{IsFaithful, IsObliging}
use eapol_operator.Host.Quiet.{IsQuiet}
use eapol_operator.TrafficControl.Sriov.{PfInfo, configure_vlan_state_for_vfs}
use eapol_operator.TrafficControl.Sriov.Kernel.{
  IsIndexed, AllConfigured, configure-AllConfigured, configure_all_ok,
}
use eapol_operator.TrafficControl.Tc.{
  with_vfs, without_vfs, allow_traffic_from_mac, deny_traffic_from_mac,
}
use eapol_operator.TrafficControl.Tc.Verdict.{replace_filters-IsQuiet}
use eapol_operator.TrafficControl.Tc.Port.{AllConfigured-SameVfs, shut, opened}

-- The VFs of a PF do not depend on its clients.
pub AllConfigured-clients :
    (pf : PfInfo) (addrs : _) (t : Trace)
    → AllConfigured pf t
    → AllConfigured (record pf { authenticated_addrs = addrs }) t
AllConfigured-clients pf addrs t a = record {
  indexed = record { index_at = a.indexed.index_at };
  configured = a.configured;
}

module _ (h : Host) (faithful : IsFaithful h) (obliging : IsObliging h) where
  with_vfs-AllConfigured :
      (pf : PfInfo) (rest : Act (Unit {0})) (t : Trace)
      → IsIndexed pf
      → IsQuiet rest
      → AllConfigured (with_vfs h pf rest t).1 (with_vfs h pf rest t).2
  unfolding with_vfs
  with_vfs-AllConfigured pf rest t indexed quiet =
      let done_ = configure_all_ok h obliging pf t in
      rw done_ (
        AllConfigured-SameVfs pf (quiet.at (configure_vlan_state_for_vfs h pf t).1)
          (configure-AllConfigured h faithful pf indexed t done_))

  without_vfs-AllConfigured :
      (pf : PfInfo) (rest : Act (Unit {0})) (t : Trace)
      → AllConfigured pf t
      → IsQuiet rest
      → AllConfigured (without_vfs h pf rest t).1 (without_vfs h pf rest t).2
  unfolding without_vfs
  without_vfs-AllConfigured pf rest t a quiet = AllConfigured-SameVfs pf (quiet.at t) a

  module _ (pf : PfInfo) (mac : Str) (t : Trace) (a : AllConfigured pf t) where
    pub allow-AllConfigured :
        AllConfigured (allow_traffic_from_mac h pf mac t).1 (allow_traffic_from_mac h pf mac t).2
    unfolding allow_traffic_from_mac
    allow-AllConfigured = elim (Bool-cases (length pf.authenticated_addrs == 1)) [
      | inl one ↦
          rw (one, allow_traffic_from_mac)
            (with_vfs-AllConfigured (opened pf) _ t (record { index_at = a.indexed.index_at })
              (replace_filters-IsQuiet h _ pf.name))
      | inr more ↦
          rw (more, allow_traffic_from_mac)
            (without_vfs-AllConfigured pf _ t a (replace_filters-IsQuiet h _ pf.name))
    ]

    pub deny-AllConfigured :
        AllConfigured (deny_traffic_from_mac h pf mac t).1 (deny_traffic_from_mac h pf mac t).2
    unfolding deny_traffic_from_mac
    deny-AllConfigured = elim (Bool-cases (length pf.authenticated_addrs == 0)) [
      | inl none_left ↦
          rw (none_left, deny_traffic_from_mac)
            (with_vfs-AllConfigured (shut pf) _ t (record { index_at = a.indexed.index_at })
              (replace_filters-IsQuiet h _ pf.name))
      | inr some_left ↦
          rw (some_left, deny_traffic_from_mac)
            (without_vfs-AllConfigured pf _ t a (replace_filters-IsQuiet h _ pf.name))
    ]
