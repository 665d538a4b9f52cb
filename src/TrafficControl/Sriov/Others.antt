-- ===== src/TrafficControl/Sriov/Others.antt =====
-- What setting up the VFs of one PF does to those of another: nothing.
use eapol_operator.Base.{
  ℕ, List, [], ◌∷◌, Str, Option, none, some, Result, ok, err, ◌≡◌, ◌≢◌, refl, sym, ◌∙◌, arith,
  bytes_eq, nat_eq,
}
use eapol_operator.Base.Dict
use eapol_operator.Host.{
  Host, Link, Trace, Act, VfState, link_by_name, link_set_vf_vlan, link_set_vf_state,
}
use eapol_operator.Host.Actions.{◌>>=◌, perform, note, for_each, continue}
use eapol_operator.Host.Views.{vlan_of, state_of, IsFaithful}
use eapol_operator.Host.Quiet.{SameVfs}
use eapol_operator.TrafficControl.Sriov.{
  PfInfo, VfInfo, vlan_for, state_for, set_vf, configure_vlan_state, configure_entry,
  configure_vlan_state_for_vfs,
}
use eapol_operator.TrafficControl.Sriov.Kernel.{AllConfigured}

-- Two runs that left the VFs of this PF alike.
pub record SameFor (n : Str) (t u : Trace) : Type 0 where
  pub vlans : (i : ℕ) → vlan_of n i u ≡ vlan_of n i t
  pub states : (i : ℕ) → state_of n i u ≡ state_of n i t

module _ {n : Str} where
  pub SameFor-refl : (t : Trace) → SameFor n t t
  SameFor-refl t = record { vlans = λ i. refl; states = λ i. refl }

  pub SameFor-trans : {t u v : Trace} → SameFor n t u → SameFor n u v → SameFor n t v
  SameFor-trans a b = record {
    vlans = λ i. b.vlans i ∙ a.vlans i;
    states = λ i. b.states i ∙ a.states i;
  }

  pub SameVfs-SameFor : {t u : Trace} → SameVfs t u → SameFor n t u
  SameVfs-SameFor s = record { vlans = λ i. s.vlans n i; states = λ i. s.states n i }

-- A step that leaves the VFs of this PF alone.
pub record Spares (n : Str) {A : Type 0} (m : Act A) : Type 0 where
  pub at : (t : Trace) → SameFor n t (m t).1

module _ {n : Str} where
  vlan_note :
      (o : Str) (j v : ℕ) (r : Result (Unit {0})) (t : Trace)
      → o ≢ n
      → SameFor n t (note (link_set_vf_vlan o j v) r ∷ t)
  unfolding vlan_of state_of
  vlan_note o j v (ok _) t p = record { vlans = λ i. ground (arith, p); states = λ i. refl }
  vlan_note o j v (err e) t p = record { vlans = λ i. refl; states = λ i. refl }

  state_note :
      (o : Str) (j : ℕ) (v : VfState) (r : Result (Unit {0})) (t : Trace)
      → o ≢ n
      → SameFor n t (note (link_set_vf_state o j v) r ∷ t)
  unfolding vlan_of state_of
  state_note o j v (ok _) t p = record { vlans = λ i. refl; states = λ i. ground (arith, p) }
  state_note o j v (err e) t p = record { vlans = λ i. refl; states = λ i. refl }

  pub find_note :
      (o : Str) (r : Result Link) (t : Trace) → SameFor n t (note (link_by_name o) r ∷ t)
  unfolding vlan_of state_of
  find_note o (ok l) t = record { vlans = λ i. refl; states = λ i. refl }
  find_note o (err e) t = record { vlans = λ i. refl; states = λ i. refl }

module _ {n : Str} {A B : Type 0} where
  Spares-continue :
      (r : Result A) (f : A → Act B) → ((a : A) → Spares n (f a)) → Spares n (continue r f)
  Spares-continue (ok a) f q = q a
  Spares-continue (err e) f q = record { at = SameFor-refl }

  pub Spares-bind :
      (m : Act A) (f : A → Act B) → Spares n m → ((a : A) → Spares n (f a)) → Spares n (m >>= f)
  Spares-bind m f p q = record {
    at = λ t. SameFor-trans (p.at t) ((Spares-continue (m t).0 f q).at (m t).1);
  }

module _ (h : Host) (faithful : IsFaithful h) (n : Str) (pf : PfInfo) (other : pf.name ≢ n) where
  set-Spares : (vf : VfInfo) (l : Link) → l.name ≡ pf.name → Spares n (set_vf h pf vf l)
  unfolding set_vf
  set-Spares vf l p =
      let o : l.name ≢ n = λ q. other (sym p ∙ q) in
      Spares-bind
        (perform (link_set_vf_vlan l.name vf.index (vlan_for pf vf))
          (h.set_vf_vlan l vf.index (vlan_for pf vf)))
        (λ _.
          perform (link_set_vf_state l.name vf.index (state_for pf))
            (h.set_vf_state l vf.index (state_for pf)))
        (record {
          at = λ t.
              vlan_note l.name vf.index (vlan_for pf vf)
                (h.set_vf_vlan l vf.index (vlan_for pf vf) t) t o;
        })
        (λ _. record {
          at = λ t.
              state_note l.name vf.index (state_for pf) (h.set_vf_state l vf.index (state_for pf) t)
                t o;
        })

  found-Spares :
      (vf : VfInfo) (r : Result Link) (t : Trace)
      → ((l : Link) → r ≡ ok l → l.name ≡ pf.name)
      → SameFor n t (continue r (set_vf h pf vf) t).1
  found-Spares vf (ok l) t p = (set-Spares vf l (p l refl)).at t
  found-Spares vf (err e) t p = SameFor-refl t

  pub one-Spares : (vf : VfInfo) → Spares n (configure_vlan_state h pf vf)
  unfolding configure_vlan_state
  one-Spares vf = record {
    at = λ t.
        SameFor-trans (find_note pf.name (h.link pf.name t) t)
          (found-Spares vf (h.link pf.name t) _ (λ l p. faithful.link_name pf.name t l p));
  }

  entry_at :
      (o : Option VfInfo) (i : ℕ) (t : Trace)
      → Dict.lookup i pf.vfs ≡ o
      → SameFor n t (configure_entry h pf i t).1
  unfolding configure_entry
  entry_at none i t p = rw (p, configure_entry) (SameFor-refl t)
  entry_at (some vf) i t p = rw (p, configure_entry) ((one-Spares vf).at t)

  loop-Spares : (is : List ℕ) (t : Trace) → SameFor n t (for_each (configure_entry h pf) is t).1
  unfolding for_each
  loop-Spares [] t = SameFor-refl t
  loop-Spares (i ∷ is) t =
      (Spares-bind (configure_entry h pf i) (λ _. for_each (configure_entry h pf) is)
          (record { at = λ u. entry_at (Dict.lookup i pf.vfs) i u refl })
          (λ _. record { at = loop-Spares is })).at
        t

  pub configure-Spares : (t : Trace) → SameFor n t (configure_vlan_state_for_vfs h pf t).1
  unfolding configure_vlan_state_for_vfs
  configure-Spares t = loop-Spares (h.range_numbers t (Dict.keys pf.vfs)) t

-- A PF that is left alone stays set up.
pub AllConfigured-SameFor :
    (pf : PfInfo) {t u : Trace} → SameFor pf.name t u → AllConfigured pf t → AllConfigured pf u
AllConfigured-SameFor pf s a = record {
  indexed = a.indexed;
  configured = λ i vf p.
      (s.vlans vf.index ∙ (a.configured i vf p).0, s.states vf.index ∙ (a.configured i vf p).1);
}
