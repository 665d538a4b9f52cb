-- ===== src/TrafficControl/Sriov/Kernel/Partial.antt =====
-- `ConfigureVlanStateForVFs` that fails on its way: what it has set stays set.
use eapol_operator.Base.{
  ℕ, List, [], ◌∷◌, Option, none, some, Result, ok, err, ◌≡◌, ◌≢◌, refl, ◌∙◌, In, inl, inr, nat_eq,
}
use eapol_operator.Base.Dict
use eapol_operator.Host.{Host, Link, Trace}
use eapol_operator.Host.Actions.{for_each, continue}
use eapol_operator.Host.Views.{IsFaithful}
use eapol_operator.TrafficControl.Sriov.{
  PfInfo, VfInfo, set_vf, configure_vlan_state, configure_entry, configure_vlan_state_for_vfs,
}
use eapol_operator.TrafficControl.Sriov.Kernel.{
  IsConfigured, IsIndexed, set_keeps, note_keeps, configure_makes,
}

module _ (h : Host) (faithful : IsFaithful h) (pf : PfInfo) where
  found_keeps :
      (vf vf' : VfInfo) (r : Result Link) (t : Trace)
      → vf'.index ≢ vf.index
      → IsConfigured pf vf' t
      → IsConfigured pf vf' (continue r (set_vf h pf vf) t).1
  found_keeps vf vf' (ok l) t n p = set_keeps h faithful pf vf vf' l t n p
  found_keeps vf vf' (err e) t n p = p

  one_keeps :
      (vf vf' : VfInfo) (t : Trace)
      → vf'.index ≢ vf.index
      → IsConfigured pf vf' t
      → IsConfigured pf vf' (configure_vlan_state h pf vf t).1
  unfolding configure_vlan_state
  one_keeps vf vf' t n p =
      found_keeps vf vf' (h.link pf.name t) _ n
        (note_keeps h faithful pf vf' t (h.link pf.name t) p)

  module _ (indexed : IsIndexed pf) (vf : VfInfo) where
    entry_keeps :
        (o : Option VfInfo) (j : ℕ) (t : Trace)
        → Dict.lookup j pf.vfs ≡ o
        → vf.index ≢ j
        → IsConfigured pf vf t
        → IsConfigured pf vf (configure_entry h pf j t).1
    unfolding configure_entry
    entry_keeps none j t p n c = rw (p, configure_entry) c
    entry_keeps (some w) j t p n c =
        rw (p, configure_entry) (one_keeps w vf t (λ q. n (q ∙ indexed.index_at j w p)) c)

    go_on_keeps :
        (r : Result (Unit {0})) (js : List ℕ) (t : Trace)
        → IsConfigured pf vf t
        → ((u : Trace)
            → IsConfigured pf vf u
            → IsConfigured pf vf (for_each (configure_entry h pf) js u).1)
        → IsConfigured pf vf (continue r (λ _. for_each (configure_entry h pf) js) t).1
    go_on_keeps (ok _) js t c rest = rest t c
    go_on_keeps (err e) js t c rest = c

    loop_keeps :
        (js : List ℕ) (t : Trace)
        → (In vf.index js → ⊥)
        → IsConfigured pf vf t
        → IsConfigured pf vf (for_each (configure_entry h pf) js t).1
    unfolding for_each
    loop_keeps [] t n c = c
    loop_keeps (j ∷ js) t n c =
        go_on_keeps (configure_entry h pf j t).0 js (configure_entry h pf j t).1
          (entry_keeps (Dict.lookup j pf.vfs) j t refl (λ q. n (inl q)) c)
          (λ u d. loop_keeps js u (λ i. n (inr i)) d)

    first_makes :
        (i : ℕ) (t : Trace)
        → Dict.lookup i pf.vfs ≡ some vf
        → (configure_vlan_state h pf vf t).0 ≡ ok tt
        → IsConfigured pf vf (configure_entry h pf i t).1
    unfolding configure_entry
    first_makes i t p e = rw (p, configure_entry) (configure_makes h faithful pf vf t e)

    -- The VF that is visited first and could be set is as the PF wants it, whatever follows.
    pub first_stays :
        (i : ℕ) (rest : List ℕ) (t : Trace)
        → h.range_numbers t (Dict.keys pf.vfs) ≡ i ∷ rest
        → (In i rest → ⊥)
        → Dict.lookup i pf.vfs ≡ some vf
        → (configure_vlan_state h pf vf t).0 ≡ ok tt
        → IsConfigured pf vf (configure_vlan_state_for_vfs h pf t).1
    unfolding configure_vlan_state_for_vfs for_each
    first_stays i rest t order once p e = rw order (
        go_on_keeps (configure_entry h pf i t).0 rest (configure_entry h pf i t).1
          (first_makes i t p e) (λ u c. loop_keeps rest u (rw (indexed.index_at i vf p) once) c))
