-- ===== src/TrafficControl/Sriov/VlanChange.antt =====
-- What `HandlePfEventForVlanChange` does to the PF and to the kernel.
pub mod Others
use mathlib.Core.Path.{subst}
use eapol_operator.Base.{
  ℕ, List, [], ◌∷◌, not, ◌&&◌, Option, none, some, Result, ok, err, ◌≡◌, refl, arith, sym, ◌∙◌, inl,
  inr, Bool-cases, if◌then◌else◌, ◌==◌, nat_eq,
}
use eapol_operator.Base.Dict
use eapol_operator.Base.Dict.{Dict}
use eapol_operator.Host.{Host, Link, VfAttr, Trace}
use eapol_operator.Host.Views.{IsFaithful, IsObliging}
use eapol_operator.TrafficControl.Sriov.{
  PfInfo, VfInfo, reserved_vlan, vlan_changed, vlan_step, vlan_loop, vlan_next, vlan_reports,
  change_vlan, with_vlan, handle_pf_event_for_vlan_change,
}
use eapol_operator.TrafficControl.Sriov.Kernel.{
  IsConfigured, AllConfigured, configure_makes, configure_keeps, note_keeps, configure_one_ok,
}

-- The VLAN that VF `i` is to have after the reports, from the one that it had: the last report of
-- this VF that is not the reserved VLAN.
abbrev pub vlan_after : ℕ → List VfAttr → ℕ → ℕ
vlan_after i [] v = v
vlan_after i (vf ∷ rest) v =
    vlan_after i rest (if (i == vf.id) && not (vf.vlan == reserved_vlan) then vf.vlan else v)

abbrev pub info_after : ℕ → List VfAttr → Option VfInfo → Option VfInfo
info_after i vfs none = none
info_after i vfs (some info) = some (record info { vlan = vlan_after i vfs info.vlan })

-- The part of a PF that vlan changes leave alone.
abbrev pub SamePort : PfInfo → PfInfo → Type 0
SamePort pf pf' =
    (pf'.name ≡ pf.name)
    × (pf'.authenticated ≡ pf.authenticated)
    × (pf'.authenticated_addrs ≡ pf.authenticated_addrs)

module _ (h : Host) where
  changed_lookup :
      (i : ℕ) (pf : PfInfo) (vf : VfAttr) (info : VfInfo) (t : Trace)
      → Dict.lookup vf.id pf.vfs ≡ some info
      → Dict.lookup i (vlan_changed h pf vf info t).1.vfs
        ≡ info_after i (vf ∷ []) (Dict.lookup i pf.vfs)
  unfolding vlan_changed change_vlan
  changed_lookup i pf vf info t p =
      ground
        (arith, Dict.lookup-insert i vf.id (record { index = info.index; vlan = vf.vlan }) pf.vfs)

  -- One report, whether or not the kernel accepts the VLAN.
  step_lookup_at :
      (o : Option VfInfo) (i : ℕ) (pf : PfInfo) (vf : VfAttr) (t : Trace)
      → Dict.lookup vf.id pf.vfs ≡ o
      → Dict.lookup i (vlan_step h pf vf t).1.vfs ≡ info_after i (vf ∷ []) (Dict.lookup i pf.vfs)
  unfolding vlan_step
  step_lookup_at none i pf vf t p = rw (p, vlan_step) (ground arith)
  step_lookup_at (some info) i pf vf t p = rw (p, vlan_step) (changed_lookup i pf vf info t p)

  step_lookup :
      (i : ℕ) (pf : PfInfo) (vf : VfAttr) (t : Trace)
      → Dict.lookup i (vlan_step h pf vf t).1.vfs ≡ info_after i (vf ∷ []) (Dict.lookup i pf.vfs)
  step_lookup i pf vf t = step_lookup_at (Dict.lookup vf.id pf.vfs) i pf vf t refl

  info_after-cons :
      (i : ℕ) (vf : VfAttr) (vfs : List VfAttr) (o : Option VfInfo)
      → info_after i vfs (info_after i (vf ∷ []) o) ≡ info_after i (vf ∷ vfs) o
  info_after-cons i vf vfs none = refl
  info_after-cons i vf vfs (some info) = refl

  loop_lookup :
      (i : ℕ) (vfs : List VfAttr) (pf : PfInfo) (t : Trace)
      → (vlan_loop h vfs pf t).0 ≡ ok tt
      → Dict.lookup i (vlan_loop h vfs pf t).1.vfs ≡ info_after i vfs (Dict.lookup i pf.vfs)
  unfolding vlan_loop
  loop_lookup i [] pf t e = ground arith
  loop_lookup i (vf ∷ vfs) pf t e =
      let (r, pf', t') = vlan_step h pf vf t in
      ground (
        arith,
        loop_lookup i vfs pf' t',
        step_lookup i pf vf t,
        info_after-cons i vf vfs (Dict.lookup i pf.vfs),
      )

  step_SamePort : (pf : PfInfo) (vf : VfAttr) (t : Trace) → SamePort pf (vlan_step h pf vf t).1
  unfolding vlan_step vlan_changed change_vlan
  step_SamePort pf vf t = ground arith

  loop_SamePort :
      (vfs : List VfAttr) (pf : PfInfo) (t : Trace) → SamePort pf (vlan_loop h vfs pf t).1
  unfolding vlan_loop
  loop_SamePort [] pf t = (refl, refl, refl)
  loop_SamePort (vf ∷ vfs) pf t =
      let (r, pf', t') = vlan_step h pf vf t in
      ground (arith, loop_SamePort vfs pf' t', step_SamePort pf vf t)

  reports_SamePort :
      (r : Result Link) (pf : PfInfo) (t : Trace) → SamePort pf (vlan_reports h r pf t).1
  unfolding vlan_reports
  reports_SamePort (ok l) pf t = loop_SamePort l.vfs pf t
  reports_SamePort (err e) pf t = (refl, refl, refl)

  -- A link event, whatever the kernel answers, changes neither the PF's name nor whether it is
  -- authenticated nor its clients.
  pub handle-SamePort :
      (pf : PfInfo) (t : Trace) → SamePort pf (handle_pf_event_for_vlan_change h pf t).1
  unfolding handle_pf_event_for_vlan_change
  handle-SamePort pf t = reports_SamePort (h.link pf.name t) pf _

  -- When a link event is handled with no error, each VF of the map has the VLAN that was last
  -- reported for it, the reserved one not counted, and keeps its own if there is no such report.
  -- No VF enters or leaves the map.
  pub handle_lookup :
      (pf : PfInfo) (t : Trace) (l : Link)
      → h.link pf.name t ≡ ok l
      → (handle_pf_event_for_vlan_change h pf t).0 ≡ ok tt
      → (i : ℕ)
      → Dict.lookup i (handle_pf_event_for_vlan_change h pf t).1.vfs
        ≡ info_after i l.vfs (Dict.lookup i pf.vfs)
  unfolding handle_pf_event_for_vlan_change
  handle_lookup pf t l found e i =
      rw (found, vlan_reports) (loop_lookup i l.vfs pf _ (rw (found, vlan_reports) at e))

module _ (h : Host) (faithful : IsFaithful h) where
  change-AllConfigured :
      (pf : PfInfo) (vf : VfAttr) (info : VfInfo) (t : Trace)
      → Dict.lookup vf.id pf.vfs ≡ some info
      → AllConfigured pf t
      → (change_vlan h pf vf info t).0 ≡ ok tt
      → AllConfigured (change_vlan h pf vf info t).1 (change_vlan h pf vf info t).2
  unfolding change_vlan
  change-AllConfigured pf vf info t p a e =
      let info' : VfInfo = record info { vlan = vf.vlan } in
      let pf' : PfInfo = with_vlan h pf vf info in
      let own : info.index ≡ vf.id = a.indexed.index_at vf.id info p in
      record {
        indexed = record {
          index_at = λ i w q.
              ground (arith, Dict.lookup-insert i vf.id info' pf.vfs, a.indexed.index_at i w, own);
        };
        configured = λ i w q. elim (nat_eq.dec i vf.id) [
          | yes same ↦
              let now : info' ≡ w = ground (arith, Dict.lookup-insert i vf.id info' pf.vfs) in
              subst (λ x. IsConfigured pf' x (change_vlan h pf vf info t).2) now
                (configure_makes h faithful pf' info' t e)
          | no differ ↦
              let old : Dict.lookup i pf.vfs ≡ some w =
                ground (arith, Dict.lookup-insert i vf.id info' pf.vfs) in
              configure_keeps h faithful pf' info' w t
                (λ s. differ (sym (a.indexed.index_at i w old) ∙ s ∙ own)) (a.configured i w old) e
        ];
      }

  changed-AllConfigured :
      (pf : PfInfo) (vf : VfAttr) (info : VfInfo) (t : Trace)
      → Dict.lookup vf.id pf.vfs ≡ some info
      → AllConfigured pf t
      → (vlan_changed h pf vf info t).0 ≡ ok tt
      → AllConfigured (vlan_changed h pf vf info t).1 (vlan_changed h pf vf info t).2
  unfolding vlan_changed
  changed-AllConfigured pf vf info t p a e =
      elim (Bool-cases (not (vf.vlan == reserved_vlan) && not (info.vlan == vf.vlan))) [
        | inl new ↦
            rw (new, vlan_changed)
              (change-AllConfigured pf vf info t p a (rw (new, vlan_changed) at e))
        | inr old ↦ rw (old, vlan_changed) a
      ]

  step_at-AllConfigured :
      (o : Option VfInfo) (pf : PfInfo) (vf : VfAttr) (t : Trace)
      → Dict.lookup vf.id pf.vfs ≡ o
      → AllConfigured pf t
      → (vlan_step h pf vf t).0 ≡ ok tt
      → AllConfigured (vlan_step h pf vf t).1 (vlan_step h pf vf t).2
  unfolding vlan_step
  step_at-AllConfigured none pf vf t p a e = rw (p, vlan_step) a
  step_at-AllConfigured (some info) pf vf t p a e =
      rw (p, vlan_step) (changed-AllConfigured pf vf info t p a (rw (p, vlan_step) at e))

  next-AllConfigured :
      (r : Result (Unit {0})) (rest : PfInfo → Trace → Result (Unit {0}) × PfInfo × Trace)
      (pf : PfInfo) (t : Trace)
      → ((rest pf t).0 ≡ ok tt → AllConfigured (rest pf t).1 (rest pf t).2)
      → (vlan_next h r rest pf t).0 ≡ ok tt
      → AllConfigured (vlan_next h r rest pf t).1 (vlan_next h r rest pf t).2
  unfolding vlan_next
  next-AllConfigured (ok u) rest pf t keep e = keep e
  next-AllConfigured (err x) rest pf t keep e = cc

  next-ok :
      (r : Result (Unit {0})) (rest : PfInfo → Trace → Result (Unit {0}) × PfInfo × Trace)
      (pf : PfInfo) (t : Trace)
      → (vlan_next h r rest pf t).0 ≡ ok tt
      → r ≡ ok tt
  unfolding vlan_next
  next-ok (ok u) rest pf t e = refl
  next-ok (err x) rest pf t e = cc

  loop-AllConfigured :
      (vfs : List VfAttr) (pf : PfInfo) (t : Trace)
      → AllConfigured pf t
      → (vlan_loop h vfs pf t).0 ≡ ok tt
      → AllConfigured (vlan_loop h vfs pf t).1 (vlan_loop h vfs pf t).2
  unfolding vlan_loop
  loop-AllConfigured [] pf t a e = a
  loop-AllConfigured (vf ∷ vfs) pf t a e =
      let (r, pf', t') = vlan_step h pf vf t in
      let first : r ≡ ok tt = next-ok r (vlan_loop h vfs) pf' t' e in
      next-AllConfigured r (vlan_loop h vfs) pf' t'
        (loop-AllConfigured vfs pf' t'
          (step_at-AllConfigured (Dict.lookup vf.id pf.vfs) pf vf t refl a first))
        e

  reports-AllConfigured :
      (r : Result Link) (pf : PfInfo) (t : Trace)
      → AllConfigured pf t
      → (vlan_reports h r pf t).0 ≡ ok tt
      → AllConfigured (vlan_reports h r pf t).1 (vlan_reports h r pf t).2
  unfolding vlan_reports
  reports-AllConfigured (ok l) pf t a e = loop-AllConfigured l.vfs pf t a e
  reports-AllConfigured (err x) pf t a e = cc

  -- A link event that is handled with no error keeps every VF of the map set up in the kernel as
  -- its PF wants it, the VFs whose VLAN it changes included.
  pub handle-AllConfigured :
      (pf : PfInfo) (t : Trace)
      → AllConfigured pf t
      → (handle_pf_event_for_vlan_change h pf t).0 ≡ ok tt
      → AllConfigured
          (handle_pf_event_for_vlan_change h pf t).1
          (handle_pf_event_for_vlan_change h pf t).2
  unfolding handle_pf_event_for_vlan_change
  handle-AllConfigured pf t a e =
      reports-AllConfigured (h.link pf.name t) pf _
        (record {
          indexed = a.indexed;
          configured =
              λ i vf p. note_keeps h faithful pf vf t (h.link pf.name t) (a.configured i vf p);
        })
        e

-- A kernel that takes everything lets the event be handled with no error.
module _ (h : Host) (obliging : IsObliging h) where
  step_ok_at :
      (o : Option VfInfo) (pf : PfInfo) (vf : VfAttr) (t : Trace)
      → Dict.lookup vf.id pf.vfs ≡ o
      → (vlan_step h pf vf t).0 ≡ ok tt
  unfolding vlan_step vlan_changed change_vlan
  step_ok_at none pf vf t p = rw (p, vlan_step)
  step_ok_at (some info) pf vf t p =
      rw (p, vlan_step)
        (ground (
          arith,
          configure_one_ok h obliging (with_vlan h pf vf info) (record info { vlan = vf.vlan }) t,
        ))

  loop_ok : (vfs : List VfAttr) (pf : PfInfo) (t : Trace) → (vlan_loop h vfs pf t).0 ≡ ok tt
  unfolding vlan_loop vlan_next
  loop_ok [] pf t = refl
  loop_ok (vf ∷ vfs) pf t =
      let (r, pf', t') = vlan_step h pf vf t in
      let first : r ≡ ok tt = step_ok_at (Dict.lookup vf.id pf.vfs) pf vf t refl in
      rw (first, vlan_next) (loop_ok vfs pf' t')

  pub handle_vlan_ok :
      (pf : PfInfo) (t : Trace) → (handle_pf_event_for_vlan_change h pf t).0 ≡ ok tt
  unfolding handle_pf_event_for_vlan_change vlan_reports
  handle_vlan_ok pf t =
      let (l, found) = obliging.finds pf.name t in rw (found, vlan_reports) (loop_ok l.vfs pf _)
