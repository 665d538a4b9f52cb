-- ===== src/TrafficControl/Tc/Others.antt =====
-- What opening and shutting one PF does to the VFs of another: nothing.
use eapol_operator.Base.{Str, ◌≢◌, length, ◌==◌, nat_eq, Bool-cases, inl, inr}
use eapol_operator.Host.{Host, Trace, Act}
use eapol_operator.Host.Views.{IsFaithful}
use eapol_operator.Host.Quiet.{IsQuiet}
use eapol_operator.TrafficControl.Sriov.{PfInfo, configure_vlan_state_for_vfs}
use eapol_operator.TrafficControl.Sriov.Others.{
  SameFor, SameVfs-SameFor, Spares-bind, configure-Spares,
}
use eapol_operator.TrafficControl.Tc.{
  with_vfs, without_vfs, allow_traffic_from_mac, deny_traffic_from_mac,
}
use eapol_operator.TrafficControl.Tc.Verdict.{replace_filters-IsQuiet}
use eapol_operator.TrafficControl.Tc.Port.{shut, opened}

module _ (h : Host) (faithful : IsFaithful h) (n : Str) where
  with_vfs-SameFor :
      (pf : PfInfo) (rest : Act (Unit {0})) (t : Trace)
      → pf.name ≢ n
      → IsQuiet rest
      → SameFor n t (with_vfs h pf rest t).2
  unfolding with_vfs
  with_vfs-SameFor pf rest t other quiet =
      (Spares-bind (configure_vlan_state_for_vfs h pf) (λ _. rest)
          (record { at = configure-Spares h faithful n pf other })
          (λ _. record { at = λ u. SameVfs-SameFor (quiet.at u) })).at
        t

  without_vfs-SameFor :
      (pf : PfInfo) (rest : Act (Unit {0})) (t : Trace)
      → IsQuiet rest
      → SameFor n t (without_vfs h pf rest t).2
  unfolding without_vfs
  without_vfs-SameFor pf rest t quiet = SameVfs-SameFor (quiet.at t)

  module _ (pf : PfInfo) (mac : Str) (t : Trace) (other : pf.name ≢ n) where
    pub allow-SameFor : SameFor n t (allow_traffic_from_mac h pf mac t).2
    unfolding allow_traffic_from_mac
    allow-SameFor = elim (Bool-cases (length pf.authenticated_addrs == 1)) [
      | inl one ↦
          rw (one, allow_traffic_from_mac)
            (with_vfs-SameFor (opened pf) _ t other (replace_filters-IsQuiet h _ pf.name))
      | inr more ↦
          rw (more, allow_traffic_from_mac)
            (without_vfs-SameFor pf _ t (replace_filters-IsQuiet h _ pf.name))
    ]

    pub deny-SameFor : SameFor n t (deny_traffic_from_mac h pf mac t).2
    unfolding deny_traffic_from_mac
    deny-SameFor = elim (Bool-cases (length pf.authenticated_addrs == 0)) [
      | inl none_ ↦
          rw (none_, deny_traffic_from_mac)
            (with_vfs-SameFor (shut pf) _ t other (replace_filters-IsQuiet h _ pf.name))
      | inr some_ ↦
          rw (some_, deny_traffic_from_mac)
            (without_vfs-SameFor pf _ t (replace_filters-IsQuiet h _ pf.name))
    ]
