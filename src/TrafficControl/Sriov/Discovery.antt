-- ===== src/TrafficControl/Sriov/Discovery.antt =====
-- What `GetSriovPFInfo` builds.
use mathlib.Core.Path.{subst}
use eapol_operator.Base.{
  ℕ, List, [], ◌∷◌, Str, false, Option, none, some, Result, ok, err, ◌≡◌, refl, sym, ◌∙◌, arith,
  if◌then◌else◌, ◌==◌, nat_eq,
}
use eapol_operator.Base.Dict
use eapol_operator.Base.Dict.{Dict}
use eapol_operator.Host.{Host, Link, VfAttr, Trace}
use eapol_operator.TrafficControl.Sriov.{PfInfo, VfInfo, collect_vfs, get_sriov_pf_info}
use eapol_operator.TrafficControl.Sriov.Kernel.{IsIndexed}

-- The VLAN that the link reports for VF `i`; of two reports the last one counts.
abbrev pub reported : ℕ → List VfAttr → Option ℕ → Option ℕ
reported i [] o = o
reported i (vf ∷ rest) o = reported i rest (if i == vf.id then some vf.vlan else o)

abbrev pub with_index : ℕ → Option ℕ → Option VfInfo
with_index i none = none
with_index i (some v) = some (record { index = i; vlan = v })

module _ (h : Host) where
  lookup-collect :
      (i : ℕ) (vfs : List VfAttr) (m : Dict ℕ VfInfo) (o : Option ℕ)
      → Dict.lookup i m ≡ with_index i o
      → Dict.lookup i (collect_vfs h vfs m) ≡ with_index i (reported i vfs o)
  unfolding collect_vfs
  lookup-collect i [] m o p = p
  lookup-collect i (vf ∷ rest) m o p =
      lookup-collect i rest _ _
        (ground (arith, Dict.lookup-insert i vf.id (record { index = vf.id; vlan = vf.vlan }) m))

  -- When the link is found, the PF has this name, is not authenticated and has no clients, and the
  -- map holds for each number the VF that the link reports last under it, and no others.
  get_sriov_pf_info_lem :
      (if_name : Str) (t : Trace) (l : Link)
      → h.link if_name t ≡ ok l
      → (pf : PfInfo) × ((get_sriov_pf_info h if_name t).0 ≡ ok pf)
        × (pf.name ≡ if_name)
        × (pf.authenticated ≡ false)
        × (pf.authenticated_addrs ≡ [])
        × ((i : ℕ) → Dict.lookup i pf.vfs ≡ with_index i (reported i l.vfs none))
  unfolding get_sriov_pf_info
  get_sriov_pf_info_lem if_name t l p = (
    record {
      name = if_name;
      authenticated = false;
      authenticated_addrs = [];
      vfs = collect_vfs h l.vfs [];
    },
    ground arith,
    refl,
    refl,
    refl,
    λ i. lookup-collect i l.vfs [] none (unfold Dict.lookup in refl),
  )

-- No clients, not authenticated, and each VF under its number.
abbrev pub IsFresh : PfInfo → Type 0
IsFresh pf = (pf.authenticated ≡ false) × (pf.authenticated_addrs ≡ []) × IsIndexed pf

with_index_index : (i : ℕ) (o : Option ℕ) (vf : VfInfo) → with_index i o ≡ some vf → vf.index ≡ i
with_index_index i none vf p = ground arith
with_index_index i (some v) vf p = ground arith

new_same : (new pf : PfInfo) → Result.ok new ≡ ok pf → new ≡ pf
new_same new pf p = ground arith

IsFresh-same : (new pf : PfInfo) → Result.ok new ≡ ok pf → IsFresh new → IsFresh pf
IsFresh-same new pf p f = subst IsFresh (new_same new pf p) f

module _ (h : Host) where
  info-IsFresh :
      (if_name : Str) (t : Trace) (pf : PfInfo) (r : Result Link)
      → h.link if_name t ≡ r
      → (get_sriov_pf_info h if_name t).0 ≡ ok pf
      → IsFresh pf
  unfolding get_sriov_pf_info
  info-IsFresh if_name t pf (ok l) p e =
      let (new, q, _, fresh, empty, at) = get_sriov_pf_info_lem h if_name t l p in
      IsFresh-same new pf (sym q ∙ e) (
        fresh,
        empty,
        record { index_at = λ i vf found. with_index_index i _ vf (sym (at i) ∙ found) },
      )
  info-IsFresh if_name t pf (err f) p e = ground arith

  -- A PF that was built has no clients, is not authenticated, and holds each VF under its number.
  pub get_sriov_pf_info_ok :
      (if_name : Str) (t : Trace) (pf : PfInfo)
      → (get_sriov_pf_info h if_name t).0 ≡ ok pf
      → IsFresh pf
  get_sriov_pf_info_ok if_name t pf = info-IsFresh if_name t pf (h.link if_name t) refl

  info-name :
      (if_name : Str) (t : Trace) (pf : PfInfo) (r : Result Link)
      → h.link if_name t ≡ r
      → (get_sriov_pf_info h if_name t).0 ≡ ok pf
      → pf.name ≡ if_name
  unfolding get_sriov_pf_info
  info-name if_name t pf (ok l) p e =
      let (new, q, named, _, _, _) = get_sriov_pf_info_lem h if_name t l p in
      subst (λ x. x.name ≡ if_name) (new_same new pf (sym q ∙ e)) named
  info-name if_name t pf (err f) p e = ground arith

  -- It has the name of the interface.
  pub get_sriov_pf_info-name :
      (if_name : Str) (t : Trace) (pf : PfInfo)
      → (get_sriov_pf_info h if_name t).0 ≡ ok pf
      → pf.name ≡ if_name
  get_sriov_pf_info-name if_name t pf = info-name if_name t pf (h.link if_name t) refl
