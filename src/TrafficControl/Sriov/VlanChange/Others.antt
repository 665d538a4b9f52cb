-- ===== src/TrafficControl/Sriov/VlanChange/Others.antt =====
-- A change of a VLAN is no matter of the VFs of another PF.
use eapol_operator.Base.{
  List, [], ◌∷◌, Str, Option, none, some, Result, ok, err, ◌≡◌, ◌≢◌, refl, sym, ◌∙◌, not, ◌&&◌,
  Bool-cases, inl, inr, ◌==◌, nat_eq,
}
use eapol_operator.Base.Dict
use eapol_operator.Host.{Host, Link, VfAttr, Trace}
use eapol_operator.Host.Views.{IsFaithful}
use eapol_operator.TrafficControl.Sriov.{
  PfInfo, VfInfo, reserved_vlan, vlan_changed, vlan_step, vlan_loop, vlan_next, vlan_reports,
  change_vlan, with_vlan, handle_pf_event_for_vlan_change,
}
use eapol_operator.TrafficControl.Sriov.VlanChange.{step_SamePort}
use eapol_operator.TrafficControl.Sriov.Others.{
  SameFor, SameFor-refl, SameFor-trans, one-Spares, find_note,
}

module _ (h : Host) (faithful : IsFaithful h) (n : Str) where
  changed-SameFor :
      (pf : PfInfo) (vf : VfAttr) (info : VfInfo) (t : Trace)
      → pf.name ≢ n
      → SameFor n t (vlan_changed h pf vf info t).2
  unfolding vlan_changed change_vlan
  changed-SameFor pf vf info t other =
      elim (Bool-cases (not (vf.vlan == reserved_vlan) && not (info.vlan == vf.vlan))) [
        | inl new ↦
            rw (new, vlan_changed)
              ((one-Spares h faithful n (with_vlan h pf vf info) other
                  (record info { vlan = vf.vlan })).at
                t)
        | inr old ↦ rw (old, vlan_changed) (SameFor-refl t)
      ]

  step_at :
      (o : Option VfInfo) (pf : PfInfo) (vf : VfAttr) (t : Trace)
      → Dict.lookup vf.id pf.vfs ≡ o
      → pf.name ≢ n
      → SameFor n t (vlan_step h pf vf t).2
  unfolding vlan_step
  step_at none pf vf t p other = rw (p, vlan_step) (SameFor-refl t)
  step_at (some info) pf vf t p other = rw (p, vlan_step) (changed-SameFor pf vf info t other)

  next-SameFor :
      (r : Result (Unit {0})) (rest : PfInfo → Trace → Result (Unit {0}) × PfInfo × Trace)
      (pf : PfInfo) (t : Trace)
      → SameFor n t (rest pf t).2
      → SameFor n t (vlan_next h r rest pf t).2
  unfolding vlan_next
  next-SameFor (ok _) rest pf t s = s
  next-SameFor (err e) rest pf t s = SameFor-refl t

  loop-SameFor :
      (vfs : List VfAttr) (pf : PfInfo) (t : Trace)
      → pf.name ≢ n
      → SameFor n t (vlan_loop h vfs pf t).2
  unfolding vlan_loop
  loop-SameFor [] pf t other = SameFor-refl t
  loop-SameFor (vf ∷ vfs) pf t other =
      let (r, pf', t') = vlan_step h pf vf t in
      SameFor-trans (step_at (Dict.lookup vf.id pf.vfs) pf vf t refl other) (
        next-SameFor r (vlan_loop h vfs) pf' t'
          (loop-SameFor vfs pf' t' (λ q. other (sym (step_SamePort h pf vf t).0 ∙ q))))

  reports-SameFor :
      (r : Result Link) (pf : PfInfo) (t : Trace)
      → pf.name ≢ n
      → SameFor n t (vlan_reports h r pf t).2
  unfolding vlan_reports
  reports-SameFor (ok l) pf t other = loop-SameFor l.vfs pf t other
  reports-SameFor (err e) pf t other = SameFor-refl t

  pub vlan_change-SameFor :
      (pf : PfInfo) (t : Trace)
      → pf.name ≢ n
      → SameFor n t (handle_pf_event_for_vlan_change h pf t).2
  unfolding handle_pf_event_for_vlan_change
  vlan_change-SameFor pf t other =
      SameFor-trans (find_note pf.name (h.link pf.name t) t)
        (reports-SameFor (h.link pf.name t) pf _ other)
