-- ===== src/TrafficControl/Sriov/Kernel.antt =====
-- What `ConfigureVlanStateForVFs` leaves in the kernel.
pub mod Partial
use eapol_operator.Base.{
  ℕ, true, false, List, [], ◌∷◌, Option, none, some, Result, ok, err, ◌≡◌, refl, ◌≢◌, arith, sym,
  ap, ◌∙◌, nat_eq, bytes_eq,
}
use mathlib.Core.Path.{subst}
use mathlib.Core.Option.{some-injective}
use eapol_operator.Base.Dict
use eapol_operator.Host.{
  Host, Link, Trace, link_by_name, link_set_vf_vlan, done, state_auto, state_disable,
}
use eapol_operator.Host.Actions.{perform, for_each, for_each-makes, >>=-ok, note}
use eapol_operator.Host.Views.{vlan_of, state_of, IsFaithful, IsObliging}
use eapol_operator.TrafficControl.Sriov.{
  PfInfo, VfInfo, vlan_for, state_for, configure_vlan_state, configure_entry, set_vf,
  configure_vlan_state_for_vfs,
}

-- A VF is set up as its PF wants it.
abbrev pub IsConfigured : PfInfo → VfInfo → Trace → Type 0
IsConfigured pf vf t =
    (vlan_of pf.name vf.index t ≡ some (vlan_for pf vf))
    × (state_of pf.name vf.index t ≡ some (state_for pf))

-- Every VF carries the number under which its PF holds it.
pub record IsIndexed (pf : PfInfo) : Type 0 where
  pub index_at : (i : ℕ) (vf : VfInfo) → Dict.lookup i pf.vfs ≡ some vf → vf.index ≡ i

-- Every VF of the map is under its number, and in the kernel as the PF wants it.
pub record AllConfigured (pf : PfInfo) (t : Trace) : Type 0 where
  pub indexed : IsIndexed pf
  pub configured : (i : ℕ) (vf : VfInfo) → Dict.lookup i pf.vfs ≡ some vf → IsConfigured pf vf t

-- Every VF of the map is on VLAN 4095 with its link disabled.
abbrev pub AreShut : PfInfo → Trace → Type 0
AreShut pf t =
    (i : ℕ) (vf : VfInfo)
    → Dict.lookup i pf.vfs ≡ some vf
    → (vlan_of pf.name vf.index t ≡ some 4095) × (state_of pf.name vf.index t ≡ some state_disable)

-- Every VF of the map has its own VLAN, and its link follows that of the PF.
abbrev pub AreOpen : PfInfo → Trace → Type 0
AreOpen pf t =
    (i : ℕ) (vf : VfInfo)
    → Dict.lookup i pf.vfs ≡ some vf
    → (vlan_of pf.name vf.index t ≡ some vf.vlan) × (state_of pf.name vf.index t ≡ some state_auto)

pub AllConfigured-AreShut :
    (pf : PfInfo) (t : Trace) → pf.authenticated ≡ false → AllConfigured pf t → AreShut pf t
AllConfigured-AreShut pf t p a i vf q =
    let (v, s) = a.configured i vf q in (v ∙ ground (arith, p), s ∙ ground (arith, p))

pub AllConfigured-AreOpen :
    (pf : PfInfo) (t : Trace) → pf.authenticated ≡ true → AllConfigured pf t → AreOpen pf t
AllConfigured-AreOpen pf t p a i vf q =
    let (v, s) = a.configured i vf q in (v ∙ ground (arith, p), s ∙ ground (arith, p))

module _ (h : Host) (faithful : IsFaithful h) (pf : PfInfo) where
  set_makes :
      (vf : VfInfo) (l : Link) (t : Trace)
      → l.name ≡ pf.name
      → (set_vf h pf vf l t).0 ≡ ok tt
      → IsConfigured pf vf (set_vf h pf vf l t).1
  unfolding set_vf vlan_of state_of
  set_makes vf l t p e = ground arith

  -- Nothing but the VF's own entry changes.
  set_keeps :
      (vf vf' : VfInfo) (l : Link) (t : Trace)
      → vf'.index ≢ vf.index
      → IsConfigured pf vf' t
      → IsConfigured pf vf' (set_vf h pf vf l t).1
  unfolding set_vf vlan_of state_of
  set_keeps vf vf' l t n p = ground arith

  pub note_keeps :
      (vf : VfInfo) (t : Trace) (r : Result Link)
      → IsConfigured pf vf t
      → IsConfigured pf vf (note (link_by_name pf.name) r ∷ t)
  unfolding vlan_of state_of
  note_keeps vf t (ok l) p = p
  note_keeps vf t (err e) p = p

  pub configure_makes :
      (vf : VfInfo) (t : Trace)
      → (configure_vlan_state h pf vf t).0 ≡ ok tt
      → IsConfigured pf vf (configure_vlan_state h pf vf t).1
  unfolding configure_vlan_state
  configure_makes vf t e =
      let (l, found, rest, same) =
        >>=-ok (perform (link_by_name pf.name) (h.link pf.name)) (set_vf h pf vf) t tt e in
      rw same (set_makes vf l _ (faithful.link_name pf.name t l found) rest)

  pub configure_keeps :
      (vf vf' : VfInfo) (t : Trace)
      → vf'.index ≢ vf.index
      → IsConfigured pf vf' t
      → (configure_vlan_state h pf vf t).0 ≡ ok tt
      → IsConfigured pf vf' (configure_vlan_state h pf vf t).1
  unfolding configure_vlan_state
  configure_keeps vf vf' t n p e =
      let (l, found, rest, same) =
        >>=-ok (perform (link_by_name pf.name) (h.link pf.name)) (set_vf h pf vf) t tt e in
      rw same (set_keeps vf vf' l _ n (note_keeps vf' t (h.link pf.name t) p))

  abbrev Settled : ℕ → Trace → Type 0
  Settled i t = (vf : VfInfo) → Dict.lookup i pf.vfs ≡ some vf → IsConfigured pf vf t

  entry_makes :
      (i : ℕ) (t : Trace)
      → (configure_entry h pf i t).0 ≡ ok tt
      → Settled i (configure_entry h pf i t).1
  unfolding configure_entry
  entry_makes i t e vf p =
      rw (p, configure_entry) (configure_makes vf t (rw (p, configure_entry) at e))

  module _ (indexed : IsIndexed pf) where
    entry_keeps_at :
        (o : Option VfInfo) (i j : ℕ) (vf : VfInfo) (t : Trace)
        → Dict.lookup i pf.vfs ≡ o
        → Dict.lookup j pf.vfs ≡ some vf
        → IsConfigured pf vf t
        → (configure_entry h pf i t).0 ≡ ok tt
        → IsConfigured pf vf (configure_entry h pf i t).1
    unfolding configure_entry
    entry_keeps_at none i j vf t p q c e = rw (p, configure_entry) c
    entry_keeps_at (some w) i j vf t p q c e =
        let run = rw (p, configure_entry) at e in
        elim (nat_eq.dec vf.index w.index) [
          | yes same ↦
              let ij : i ≡ j = sym (indexed.index_at i w p) ∙ sym same ∙ indexed.index_at j vf q in
              let found : some w ≡ some vf = sym p ∙ ap (λ k. Dict.lookup k pf.vfs) ij ∙ q in
              rw (p, configure_entry)
                (subst (λ x. IsConfigured pf x (configure_vlan_state h pf w t).1)
                  (some-injective w vf found) (configure_makes w t run))
          | no differ ↦ rw (p, configure_entry) (configure_keeps w vf t differ c run)
        ]

    -- With every VF under its own number: once the loop has succeeded, every VF of the map has the
    -- VLAN and the link state that the PF's authentication asks for.
    configure_all :
        (t : Trace)
        → (configure_vlan_state_for_vfs h pf t).0 ≡ ok tt
        → (i : ℕ) (vf : VfInfo) → Dict.lookup i pf.vfs ≡ some vf
        → IsConfigured pf vf (configure_vlan_state_for_vfs h pf t).1
    unfolding configure_vlan_state_for_vfs
    configure_all t e i vf p =
        for_each-makes (configure_entry h pf) Settled entry_makes
          (λ x y s c ok_ w q. entry_keeps_at (Dict.lookup x pf.vfs) x y w s refl q (c w q) ok_)
          (h.range_numbers t (Dict.keys pf.vfs)) t e i
          ((faithful.visits t (Dict.keys pf.vfs) i).0 (Dict.In-keys i pf.vfs (λ n. cc))) vf p

    pub configure-AllConfigured :
        (t : Trace)
        → (configure_vlan_state_for_vfs h pf t).0 ≡ ok tt
        → AllConfigured pf (configure_vlan_state_for_vfs h pf t).1
    configure-AllConfigured t e = record { indexed = indexed; configured = configure_all t e }

-- A kernel that takes everything lets the loop succeed.
module _ (h : Host) (obliging : IsObliging h) (pf : PfInfo) where
  pub configure_one_ok : (vf : VfInfo) (t : Trace) → (configure_vlan_state h pf vf t).0 ≡ ok tt
  unfolding configure_vlan_state set_vf
  configure_one_ok vf t =
      let (l, found) = obliging.finds pf.name t in
      ground (
        arith,
        found,
        obliging.takes_vlan l vf.index (vlan_for pf vf) (done (link_by_name pf.name) ∷ t),
        obliging.takes_state l vf.index (state_for pf) (
            done (link_set_vf_vlan l.name vf.index (vlan_for pf vf))
            ∷ done (link_by_name pf.name)
            ∷ t),
      )

  entry_ok_at :
      (o : Option VfInfo) (i : ℕ) (t : Trace)
      → Dict.lookup i pf.vfs ≡ o
      → (configure_entry h pf i t).0 ≡ ok tt
  unfolding configure_entry
  entry_ok_at none i t p = rw (p, configure_entry)
  entry_ok_at (some vf) i t p = rw (p, configure_entry) (configure_one_ok vf t)

  entry_ok : (i : ℕ) (t : Trace) → (configure_entry h pf i t).0 ≡ ok tt
  entry_ok i t = entry_ok_at (Dict.lookup i pf.vfs) i t refl

  loop_ok : (is : List ℕ) (t : Trace) → (for_each (configure_entry h pf) is t).0 ≡ ok tt
  unfolding for_each
  loop_ok [] t = refl
  loop_ok (i ∷ is) t = rw (entry_ok i t) (loop_ok is (configure_entry h pf i t).1)

  pub configure_all_ok : (t : Trace) → (configure_vlan_state_for_vfs h pf t).0 ≡ ok tt
  unfolding configure_vlan_state_for_vfs
  configure_all_ok t = loop_ok (h.range_numbers t (Dict.keys pf.vfs)) t
