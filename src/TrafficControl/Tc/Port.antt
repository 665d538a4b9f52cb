-- ===== src/TrafficControl/Tc/Port.antt =====
-- What `AllowTrafficFromMac` and `DenyTrafficFromMac` do to the PF, the VFs and the filters.
use eapol_operator.Base.{
  Str, true, false, ok, ◌≡◌, refl, arith, length, ◌∙◌, if◌then◌else◌, ◌==◌, nat_eq,
}
use eapol_operator.Host.{Host, Trace}
use eapol_operator.Host.Actions.{◌>>=◌, >>=-ok}
use eapol_operator.Host.Views.{IsFaithful}
use eapol_operator.Host.Quiet.{SameVfs}
use eapol_operator.TrafficControl.Sriov.{PfInfo, configure_vlan_state_for_vfs}
use eapol_operator.TrafficControl.Sriov.Kernel.{
  IsIndexed, AllConfigured, AreShut, AreOpen, AllConfigured-AreShut, AllConfigured-AreOpen,
  configure-AllConfigured,
}
use eapol_operator.TrafficControl.Tc.{
  allow_command, deny_command, replace_filters, with_vfs, allow_traffic_from_mac,
  deny_traffic_from_mac,
}
use eapol_operator.TrafficControl.Tc.Verdict.{
  IsDropped, IsLetIn, Covers, replace_drops, replace_lets_in, replace_filters-IsQuiet,
}

module _ (h : Host) (pf : PfInfo) (mac : Str) (t : Trace) where
  -- Whatever fails, the PF is authenticated after an `Allow` with one client; otherwise, and in
  -- all else, it stays what it was.
  pub pf-allow :
      (allow_traffic_from_mac h pf mac t).1
      ≡ (if length pf.authenticated_addrs == 1 then record pf { authenticated = true } else pf)
  unfolding allow_traffic_from_mac
  pf-allow = ground arith

  -- Whatever fails, the PF is not authenticated after a `Deny` with no clients; otherwise, and in
  -- all else, it stays what it was.
  pub pf-deny :
      (deny_traffic_from_mac h pf mac t).1
      ≡ (if length pf.authenticated_addrs == 0 then record pf { authenticated = false } else pf)
  unfolding deny_traffic_from_mac
  pf-deny = ground arith

-- The VFs stay set up over a run that sets up none.
pub AllConfigured-SameVfs :
    (pf : PfInfo) {t u : Trace} → SameVfs t u → AllConfigured pf t → AllConfigured pf u
AllConfigured-SameVfs pf s a = record {
  indexed = a.indexed;
  configured = λ i vf p. (
    s.vlans pf.name vf.index ∙ (a.configured i vf p).0,
    s.states pf.name vf.index ∙ (a.configured i vf p).1,
  );
}

module _ (h : Host) (faithful : IsFaithful h) (pf : PfInfo) (indexed : IsIndexed pf) where
  -- The VFs are set up, and then the filters replaced.
  vfs_then_filters :
      (command : Str → Str) (t : Trace)
      → ((configure_vlan_state_for_vfs h pf >>= λ _. replace_filters h command pf.name) t).0 ≡ ok tt
      → (s : Trace) × ((replace_filters h command pf.name s).0 ≡ ok tt)
        × (((configure_vlan_state_for_vfs h pf >>= λ _. replace_filters h command pf.name) t).1
            ≡ (replace_filters h command pf.name s).1)
        × AllConfigured pf (replace_filters h command pf.name s).1
  vfs_then_filters command t e =
      let (_, first, rest, same) =
        >>=-ok (configure_vlan_state_for_vfs h pf) (λ _. replace_filters h command pf.name) t tt
          e in
      let s = (configure_vlan_state_for_vfs h pf t).1 in
      (
        s,
        rest,
        same,
        AllConfigured-SameVfs pf ((replace_filters-IsQuiet h command pf.name).at s)
            (configure-AllConfigured h faithful pf indexed t first),
      )

abbrev pub shut : PfInfo → PfInfo
shut pf = record pf { authenticated = false }

abbrev pub opened : PfInfo → PfInfo
opened pf = record pf { authenticated = true }

module _ (h : Host) (pf : PfInfo) (mac : Str) (t : Trace) where
  deny_none :
      length pf.authenticated_addrs ≡ 0
      → deny_traffic_from_mac h pf mac t
        ≡ with_vfs h (shut pf) (replace_filters h (λ i. deny_command i mac) pf.name) t
  unfolding deny_traffic_from_mac
  deny_none p = rw (p, deny_traffic_from_mac) (ground arith)

  allow_one :
      length pf.authenticated_addrs ≡ 1
      → allow_traffic_from_mac h pf mac t
        ≡ with_vfs h (opened pf) (replace_filters h (λ i. allow_command i mac) pf.name) t
  unfolding allow_traffic_from_mac
  allow_one p = rw (p, allow_traffic_from_mac) (ground arith)

module _ (h : Host) (faithful : IsFaithful h) (pf : PfInfo) (mac : Str) (t : Trace)
    (indexed : IsIndexed pf) where
  shut-IsIndexed : IsIndexed (shut pf)
  shut-IsIndexed = record { index_at = indexed.index_at }

  opened-IsIndexed : IsIndexed (opened pf)
  opened-IsIndexed = record { index_at = indexed.index_at }

  -- When no client is left and `Deny` returns no error, every VF of the map is on VLAN 4095,
  -- the reserved one, with its link disabled, and the address is dropped on all the interfaces that were found,
  -- the PF's own among them.
  pub deny_last :
      length pf.authenticated_addrs ≡ 0
      → (deny_traffic_from_mac h pf mac t).0 ≡ ok tt
      → (s : Trace) × Covers h pf.name (IsDropped mac) s (deny_traffic_from_mac h pf mac t).2
        × AreShut pf (deny_traffic_from_mac h pf mac t).2
  deny_last p e =
      let (s, rest, same, all) =
        vfs_then_filters h faithful (shut pf) shut-IsIndexed (λ i. deny_command i mac) t
          (unfold with_vfs in rw (deny_none h pf mac t p) at e) in
      rw (deny_none h pf mac t p) (
        unfold with_vfs in
        rw same (_, replace_drops h pf.name mac s rest, AllConfigured-AreShut (shut pf) _ refl all))

  -- When the first client comes and `Allow` returns no error, every VF of the map has its own VLAN
  -- and follows its link, and the address is let in on all the interfaces that were found, the
  -- PF's own among them.
  pub allow_first :
      length pf.authenticated_addrs ≡ 1
      → (allow_traffic_from_mac h pf mac t).0 ≡ ok tt
      → (s : Trace) × Covers h pf.name (IsLetIn mac) s (allow_traffic_from_mac h pf mac t).2
        × AreOpen pf (allow_traffic_from_mac h pf mac t).2
  allow_first p e =
      let (s, rest, same, all) =
        vfs_then_filters h faithful (opened pf) opened-IsIndexed (λ i. allow_command i mac) t
          (unfold with_vfs in rw (allow_one h pf mac t p) at e) in
      rw (allow_one h pf mac t p) (
        unfold with_vfs in
        rw same
          (_, replace_lets_in h pf.name mac s rest, AllConfigured-AreOpen (opened pf) _ refl all))
