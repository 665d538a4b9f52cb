-- ===== src/Hostap/Start/Established.antt =====
-- What holds of a monitor that has been set up.
use mathlib.Core.Path.{subst}
use eapol_operator.Base.{[], false, ok, ◌≡◌, refl, sym, ◌∙◌, arith, nat_eq, bytes_eq}
use eapol_operator.Base.Dict
use eapol_operator.Host.{Host, temp_file, dial, Trace}
use eapol_operator.Host.Actions.{pure, ◌>>◌, perform, >>=-ok}
use eapol_operator.Host.Views.{IsFaithful}
use eapol_operator.TrafficControl.Sriov.{PfInfo, get_sriov_pf_info, configure_vlan_state_for_vfs}
use eapol_operator.TrafficControl.Sriov.Kernel.{
  AllConfigured, AreShut, AllConfigured-AreShut, configure-AllConfigured,
}
use eapol_operator.TrafficControl.Sriov.Discovery.{IsFresh, get_sriov_pf_info_ok}
use eapol_operator.Hostap.Monitor.{Monitor}
use eapol_operator.Hostap.Clients.Invariant.{IsSound}
use eapol_operator.Hostap.Start.{set_up}

-- What a monitor is after its set-up, in a kernel that has been left by these calls.
abbrev pub IsEstablished : Monitor → Trace → Type 0
IsEstablished n u =
    IsSound n
    × (n.pf.authenticated_addrs ≡ [])
    × (n.pf.authenticated ≡ false)
    × AllConfigured n.pf u
    × AreShut n.pf u

abbrev fresh_monitor : Monitor → PfInfo → Monitor
fresh_monitor m pf = record m { pf = pf; deauth_requests = [] }

fresh-IsEstablished :
    (m : Monitor) (pf : PfInfo) (u : Trace)
    → IsFresh pf
    → AllConfigured pf u
    → IsEstablished (fresh_monitor m pf) u
fresh-IsEstablished m pf u (auth, addrs, _) all = (
  record {
    port = rw (auth, addrs) refl;
    pending = λ a pending _. pending (unfold Dict.lookup in refl);
  },
  addrs,
  auth,
  all,
  AllConfigured-AreShut pf u auth all,
)

module _ (h : Host) (faithful : IsFaithful h) where
  last_steps :
      (m n : Monitor) (pf : PfInfo) (t : Trace)
      → IsFresh pf
      → ((configure_vlan_state_for_vfs h pf >> pure (fresh_monitor m pf)) t).0 ≡ ok n
      → IsEstablished n ((configure_vlan_state_for_vfs h pf >> pure (fresh_monitor m pf)) t).1
  last_steps m n pf t fresh e =
      let (_, c, e', u) =
        >>=-ok (configure_vlan_state_for_vfs h pf) (λ _. pure (fresh_monitor m pf)) t n e in
      rw u (
        subst (λ k. IsEstablished k (configure_vlan_state_for_vfs h pf t).1) (ground arith)
          (fresh-IsEstablished m pf _ fresh (configure-AllConfigured h faithful pf fresh.2 t c)))

  -- A set-up that succeeds leaves a sound monitor with no clients, of which every VF is on VLAN
  -- 4095, the reserved one, and disabled in the kernel.
  pub set_up_ok :
      (m n : Monitor) (t : Trace) → (set_up h m t).0 ≡ ok n → IsEstablished n (set_up h m t).1
  unfolding set_up
  set_up_ok m n t e =
      let (_, _, e1, t1) = >>=-ok (perform temp_file h.temp_name) _ t n e in
      let (_, _, e2, t2) = >>=-ok (perform dial h.connect) _ _ n e1 in
      let (pf, q, e3, t3) = >>=-ok (get_sriov_pf_info h m.if_name) _ _ n e2 in
      subst (IsEstablished n) (sym (t1 ∙ t2 ∙ t3))
        (last_steps m n pf _ (get_sriov_pf_info_ok h m.if_name _ pf q) e3)
