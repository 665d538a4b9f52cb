-- ===== src/MonitorMain/Shutdown/LeftShut.antt =====
-- A monitor whose set-up fails when it has shut some of the VFs.
use eapol_operator.Base.{
  ℕ, List, ◌∷◌, Str, some, ok, err, Error, ◌≡◌, ◌≢◌, refl, sym, ap, ◌∙◌, arith, In, nat_eq,
}
use eapol_operator.Base.Dict
use eapol_operator.Host.{Host, temp_file, dial, done, state_disable, Trace}
use eapol_operator.Host.Views.{IsFaithful, vlan_of, state_of}
use eapol_operator.TrafficControl.Sriov.{
  PfInfo, VfInfo, reserved_vlan, configure_vlan_state, get_sriov_pf_info,
  configure_vlan_state_for_vfs,
}
use eapol_operator.TrafficControl.Sriov.Kernel.{IsConfigured}
use eapol_operator.TrafficControl.Sriov.Kernel.Partial.{first_stays}
use eapol_operator.TrafficControl.Sriov.Discovery.{get_sriov_pf_info_ok, get_sriov_pf_info-name}
use eapol_operator.TrafficControl.Sriov.Others.{SameFor, SameFor-trans}
use eapol_operator.Hostap.Monitor.{Monitor}
use eapol_operator.Hostap.Start.{set_up, after_set_up, start_monitor}
use eapol_operator.MonitorMain.Shutdown.{shutdown}
use eapol_operator.MonitorMain.Shutdown.Released.{rest-SameFor}

-- The VF is on the reserved VLAN, and its link is disabled.
abbrev pub IsShut : Str → VfInfo → Trace → Type 0
IsShut n vf t =
    (vlan_of n vf.index t ≡ some reserved_vlan) × (state_of n vf.index t ≡ some state_disable)

-- A set-up of this monitor finds its PF, shuts the first VF that it visits, and fails at another.
pub record FailsHalfway (h : Host) (m : Monitor) (t : Trace) (vf : VfInfo) : Type 0 where
  pub file : Str
  pub has_file : h.temp_name t ≡ ok file
  pub connects : h.connect (done temp_file ∷ t) ≡ ok tt
  pub pf : PfInfo
  pub found : Trace
  pub finds : get_sriov_pf_info h m.if_name (done dial ∷ done temp_file ∷ t) ≡ (ok pf, found)
  pub number : ℕ
  pub others : List ℕ
  pub visits : h.range_numbers found (Dict.keys pf.vfs) ≡ number ∷ others
  pub visits_once : In number others → ⊥
  pub has_vf : Dict.lookup number pf.vfs ≡ some vf
  pub sets : (configure_vlan_state h pf vf found).0 ≡ ok tt
  pub reason : Error
  pub left : Trace
  pub fails : configure_vlan_state_for_vfs h pf found ≡ (err reason, left)

module _ (h : Host) (faithful : IsFaithful h) (m : Monitor) (t : Trace) (vf : VfInfo)
    (f : FailsHalfway h m t vf) where
  set_up_run : set_up h m t ≡ (err f.reason, f.left)
  unfolding set_up
  set_up_run = rw (f.has_file, f.connects, f.finds, f.fails) refl

  start_run : (n : ℕ) → start_monitor h n m t ≡ (some (err f.reason), m, f.left)
  unfolding start_monitor after_set_up
  start_run n = rw set_up_run refl

  pf_found : (get_sriov_pf_info h m.if_name (done dial ∷ done temp_file ∷ t)).0 ≡ ok f.pf
  pf_found = ap (λ r. r.0) f.finds

  configured : IsConfigured f.pf vf f.left
  configured =
      let fresh = get_sriov_pf_info_ok h m.if_name _ f.pf pf_found in
      rw (sym (ap (λ r. r.1) f.fails)) (
        first_stays h faithful f.pf fresh.2 vf f.number f.others f.found f.visits f.visits_once
          f.has_vf f.sets)

  shut : IsShut m.if_name vf f.left
  shut =
      let fresh = get_sriov_pf_info_ok h m.if_name _ f.pf pf_found in
      let named = get_sriov_pf_info-name h m.if_name _ f.pf pf_found in
      rw (sym named)
        (configured.0 ∙ ground (arith, fresh.0), configured.1 ∙ ground (arith, fresh.0))

  -- If a set-up shuts a VF and then fails at another, then starting this monitor ends with the error
  -- and nothing else is called: the VF is on the reserved VLAN with its link disabled, and after
  -- whatever calls spare this PF, it still is when the monitors of other PFs have been stopped and
  -- the program has reset its interfaces.
  pub start_monitor-IsShut :
      (n : ℕ) (ms : List Monitor) (ifaces : List Str) (u : Trace)
      → SameFor m.if_name f.left u
      → ((k : Monitor) → In k ms → k.pf.name ≢ m.if_name)
      → (start_monitor h n m t ≡ (some (err f.reason), m, f.left))
        × IsShut m.if_name vf f.left
        × IsShut m.if_name vf (shutdown h ms ifaces u)
  start_monitor-IsShut n ms ifaces u same others =
      let after = SameFor-trans same (rest-SameFor h faithful ms ifaces m.if_name u others) in
      (start_run n, shut, (after.vlans vf.index ∙ shut.0, after.states vf.index ∙ shut.1))
