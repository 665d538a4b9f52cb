-- ===== src/Hostap/Clients/Stopped.antt =====
-- What `StopMonitor` leaves.
use eapol_operator.Base.{
  ℕ, true, some, ok, err, Result, ◌∷◌, ◌≡◌, refl, ◌∙◌, arith, Bool-cases, inl, inr, nat_eq,
}
use eapol_operator.Base.Dict
use eapol_operator.Host.{Host, Trace, state_auto, conn_close}
use eapol_operator.Host.Actions.{note, perform}
use eapol_operator.Host.Quiet.{IsQuiet, quiet_rules}
use eapol_operator.Host.Views.{IsFaithful, IsObliging, vlan_of, state_of}
use eapol_operator.TrafficControl.Sriov.{VfInfo, PfInfo, configure_vlan_state_for_vfs}
use eapol_operator.TrafficControl.Sriov.Kernel.{
  AllConfigured, IsIndexed, IsConfigured, configure-AllConfigured, configure_all_ok,
}
use eapol_operator.Base.{◌≢◌, Str}
use eapol_operator.TrafficControl.Sriov.Others.{
  SameFor, SameFor-refl, SameFor-trans, configure-Spares,
}
use eapol_operator.Hostap.Monitor.{Monitor}
use eapol_operator.Hostap.Clients.{restore, begin_stop, stop_monitor}

-- The VF has its own VLAN, and its link follows that of the PF.
abbrev pub IsReleased : PfInfo → VfInfo → Trace → Type 0
IsReleased pf vf t =
    (vlan_of pf.name vf.index t ≡ some vf.vlan) × (state_of pf.name vf.index t ≡ some state_auto)

module _ (h : Host) (faithful : IsFaithful h) (obliging : IsObliging h) where
  closed :
      (pf : PfInfo) (vf : VfInfo) (t : Trace) (r : Result (Unit {0}))
      → IsReleased pf vf t
      → IsReleased pf vf (note conn_close r ∷ t)
  unfolding vlan_of state_of
  closed pf vf t (ok _) p = p
  closed pf vf t (err e) p = p

  pub own_vlan :
      (pf : PfInfo) (vf : VfInfo) (t : Trace)
      → pf.authenticated ≡ true
      → IsConfigured pf vf t
      → IsReleased pf vf t
  own_vlan pf vf t p (v, s) = (v ∙ ground (arith, p), s ∙ ground (arith, p))

  -- The VFs are as the PF wants them when `m.stop` is closed, and its port is open.
  pub begin-AllConfigured :
      (m : Monitor) (t : Trace)
      → AllConfigured m.pf t
      → AllConfigured (begin_stop h m t).0.pf (begin_stop h m t).1
        × ((begin_stop h m t).0.pf.authenticated ≡ true)
  unfolding begin_stop restore
  begin-AllConfigured m t a = elim (Bool-cases m.pf.authenticated) [
    | inl opened ↦
        rw (opened, begin_stop)
          (
            record {
              indexed = record { index_at = a.indexed.index_at };
              configured = λ i vf p. own_vlan m.pf vf t opened (a.configured i vf p);
            },
            refl,
          )
    | inr shut ↦
        let pf : PfInfo = record m.pf { authenticated = true } in
        let indexed : IsIndexed pf = record { index_at = a.indexed.index_at } in
        rw (shut, begin_stop)
          (configure-AllConfigured h faithful pf indexed t (configure_all_ok h obliging pf t), refl)
  ]

  pub stop_releases :
      (m : Monitor) (t : Trace)
      → AllConfigured m.pf t
      → (i : ℕ) (vf : VfInfo) → Dict.lookup i m.pf.vfs ≡ some vf
      → IsReleased m.pf vf (stop_monitor h m t).1
  unfolding stop_monitor begin_stop restore
  stop_releases m t a i vf p = elim (Bool-cases m.pf.authenticated) [
    | inl opened ↦
        rw (opened, stop_monitor)
          (closed m.pf vf t (h.close t) (own_vlan m.pf vf t opened (a.configured i vf p)))
    | inr shut ↦
        let pf : PfInfo = record m.pf { authenticated = true } in
        let indexed : IsIndexed pf = record { index_at = a.indexed.index_at } in
        let u = (configure_vlan_state_for_vfs h pf t).1 in
        let done_ =
          configure-AllConfigured h faithful pf indexed t (configure_all_ok h obliging pf t) in
        rw (shut, stop_monitor)
          (closed pf vf u (h.close u) (own_vlan pf vf u refl (done_.configured i vf p)))
  ]

-- The VFs of other PFs are left alone.
module _ (h : Host) (faithful : IsFaithful h) (n : Str) where
  close_note : (r : Result (Unit {0})) (t : Trace) → SameFor n t (note conn_close r ∷ t)
  unfolding vlan_of state_of
  close_note (ok _) t = record { vlans = λ i. refl; states = λ i. refl }
  close_note (err e) t = record { vlans = λ i. refl; states = λ i. refl }

  pub stop-SameFor : (m : Monitor) (t : Trace) → m.pf.name ≢ n → SameFor n t (stop_monitor h m t).1
  unfolding stop_monitor begin_stop restore
  stop-SameFor m t other = elim (Bool-cases m.pf.authenticated) [
    | inl opened ↦ rw (opened, stop_monitor) (close_note (h.close t) t)
    | inr shut ↦
        let pf : PfInfo = record m.pf { authenticated = true } in
        let u = (configure_vlan_state_for_vfs h pf t).1 in
        rw (shut, stop_monitor)
          (SameFor-trans (configure-Spares h faithful n pf other t) (close_note (h.close u) u))
  ]

-- Giving the VFs back keeps the PF's name.
pub begin_stop-name :
    (h : Host) (m : Monitor) (t : Trace) → (begin_stop h m t).0.pf.name ≡ m.pf.name
unfolding begin_stop restore
begin_stop-name h m t = ground arith

pub begin_stop-SameFor :
    (h : Host) (faithful : IsFaithful h) (n : Str) (m : Monitor) (t : Trace)
    → m.pf.name ≢ n
    → SameFor n t (begin_stop h m t).1
unfolding begin_stop restore
begin_stop-SameFor h faithful n m t other = elim (Bool-cases m.pf.authenticated) [
  | inl opened ↦ rw (opened, begin_stop) (SameFor-refl t)
  | inr shut ↦
      let pf : PfInfo = record m.pf { authenticated = true } in
      rw (shut, begin_stop) (configure-Spares h faithful n pf other t)
]

pub conn_close-IsQuiet : (h : Host) → IsQuiet (perform {A = Unit {0}} conn_close h.close)
conn_close-IsQuiet h = search quiet_rules
