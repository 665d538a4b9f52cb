-- ===== src/TrafficControl/Sriov.antt =====
-- internal/trafficcontrol/sriov.go: `PFInfo`, `VFInfo` and the VLAN that each VF is given. A VF's
-- `Parent` is the PF that holds it in its map (`GetSriovPFInfo` builds no other), so it is passed.
pub mod Others
pub mod Kernel
pub mod Discovery
pub mod VlanChange
use eapol_operator.Base.{
  ℕ, List, [], ◌∷◌, Str, Bool, true, false, not, ◌&&◌, Option, none, some, Result, ok, err, length,
  if◌then◌else◌, ◌==◌, nat_eq,
}
use eapol_operator.Base.Dict
use eapol_operator.Base.Dict.{Dict}
use eapol_operator.Host.{
  Host, Call, link_by_name, link_set_vf_vlan, link_set_vf_state, VfState, state_auto, state_disable,
  VfAttr, Link, Trace, Act,
}
use eapol_operator.Host.Actions.{pure, ◌>>=◌, ◌>>◌, perform, for_each}

abbrev pub reserved_vlan : ℕ
reserved_vlan = 4095

pub record VfInfo : Type 0 where
  pub index : ℕ
  pub vlan : ℕ

pub record PfInfo : Type 0 where
  pub name : Str
  pub authenticated : Bool
  pub authenticated_addrs : Dict Str (Unit {0})
  pub vfs : Dict ℕ VfInfo

-- The VLAN and the link state that a VF is to have.
abbrev pub vlan_for : PfInfo → VfInfo → ℕ
vlan_for pf vf = if not pf.authenticated then reserved_vlan else vf.vlan

abbrev pub state_for : PfInfo → VfState
state_for pf = if not pf.authenticated then state_disable else state_auto

module _ (h : Host) where
  set_vf : PfInfo → VfInfo → Link → Act (Unit {0})
  set_vf pf vf pf_link = do
    perform (link_set_vf_vlan pf_link.name vf.index (vlan_for pf vf))
        (h.set_vf_vlan pf_link vf.index (vlan_for pf vf))
    perform (link_set_vf_state pf_link.name vf.index (state_for pf))
        (h.set_vf_state pf_link vf.index (state_for pf))

  unfoldable pub configure_vlan_state : PfInfo → VfInfo → Act (Unit {0})
  unfolding set_vf
  configure_vlan_state pf vf = do
    pf_link ← perform (link_by_name pf.name) (h.link pf.name)
    set_vf pf vf pf_link

  -- The body of the loop over the map: the entry of a key.
  configure_entry : PfInfo → ℕ → Act (Unit {0})
  configure_entry pf i = elim (Dict.lookup i pf.vfs) [
    | none ↦ pure tt
    | some vf ↦ configure_vlan_state pf vf
  ]

  unfoldable pub configure_vlan_state_for_vfs : PfInfo → Act (Unit {0})
  unfolding configure_entry for_each
  configure_vlan_state_for_vfs pf t =
      for_each (configure_entry pf) (h.range_numbers t (Dict.keys pf.vfs)) t

  -- `GetSriovPFInfo`: the VFs that the link reports.
  collect_vfs : List VfAttr → Dict ℕ VfInfo → Dict ℕ VfInfo
  collect_vfs [] m = m
  collect_vfs (vf ∷ rest) m =
      collect_vfs rest (Dict.insert vf.id (record { index = vf.id; vlan = vf.vlan }) m)

  unfoldable pub get_sriov_pf_info : Str → Act PfInfo
  unfolding collect_vfs
  get_sriov_pf_info if_name = do
    pf_link ← perform (link_by_name if_name) (h.link if_name)
    pure (record {
      name = if_name;
      authenticated = false;
      authenticated_addrs = [];
      vfs = collect_vfs pf_link.vfs [];
    })

  -- One reported VF in `HandlePfEventForVlanChange`: the write, and its guard.
  with_vlan : PfInfo → VfAttr → VfInfo → PfInfo
  with_vlan pf vf info = record pf {
    vfs = Dict.insert vf.id (record info { vlan = vf.vlan }) pf.vfs;
  }

  change_vlan : PfInfo → VfAttr → VfInfo → Trace → Result (Unit {0}) × PfInfo × Trace
  unfolding with_vlan
  change_vlan pf vf info t =
      let (r, t') =
        configure_vlan_state (with_vlan pf vf info) (record info { vlan = vf.vlan }) t in
      (r, with_vlan pf vf info, t')

  vlan_changed : PfInfo → VfAttr → VfInfo → Trace → Result (Unit {0}) × PfInfo × Trace
  unfolding change_vlan
  vlan_changed pf vf info t =
      if not (vf.vlan == reserved_vlan) && not (info.vlan == vf.vlan)
      then change_vlan pf vf info t
      else (ok tt, pf, t)

  vlan_step : PfInfo → VfAttr → Trace → Result (Unit {0}) × PfInfo × Trace
  unfolding vlan_changed
  vlan_step pf vf t = elim (Dict.lookup vf.id pf.vfs) [
    | none ↦ (ok tt, pf, t)
    | some info ↦ vlan_changed pf vf info t
  ]

  -- Goes on with the loop, or returns the error.
  vlan_next :
      Result (Unit {0})
      → (PfInfo → Trace → Result (Unit {0}) × PfInfo × Trace)
      → PfInfo
      → Trace
      → Result (Unit {0}) × PfInfo × Trace
  vlan_next (ok _) rest pf t = rest pf t
  vlan_next (err e) rest pf t = (err e, pf, t)

  vlan_loop : List VfAttr → PfInfo → Trace → Result (Unit {0}) × PfInfo × Trace
  unfolding vlan_next
  vlan_loop [] pf t = (ok tt, pf, t)
  vlan_loop (vf ∷ rest) pf t =
      let (r, pf', t') = vlan_step pf vf t in vlan_next r (vlan_loop rest) pf' t'

  -- The loop over the reports, if the link was found.
  vlan_reports : Result Link → PfInfo → Trace → Result (Unit {0}) × PfInfo × Trace
  unfolding vlan_loop vlan_step
  vlan_reports (ok pf_link) pf t = vlan_loop pf_link.vfs pf t
  vlan_reports (err e) pf t = (err e, pf, t)

  unfoldable pub handle_pf_event_for_vlan_change :
      PfInfo → Trace → Result (Unit {0}) × PfInfo × Trace
  unfolding vlan_reports
  handle_pf_event_for_vlan_change pf t =
      let (r, t') = perform (link_by_name pf.name) (h.link pf.name) t in vlan_reports r pf t'
