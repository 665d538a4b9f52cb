-- ===== src/Host/Views.antt =====
-- What a run has left in the kernel, read off the calls that succeeded: the last one counts.
use eapol_operator.Base.{
  ℕ, List, [], ◌∷◌, Str, ◌&&◌, Option, none, some, if◌then◌else◌, ◌==◌, nat_eq, bytes_eq, ◌≡◌,
  Result, ok, In,
}
use eapol_operator.Host.{Host, done, link_set_vf_vlan, link_set_vf_state, VfState, Link, Trace, Act}

-- The VLAN and the link state of VF `i` of the link `pf`.
unfoldable pub vlan_of : Str → ℕ → Trace → Option ℕ
vlan_of pf i [] = none
vlan_of pf i (done (link_set_vf_vlan n j v) ∷ t) =
    if (n == pf) && (j == i) then some v else vlan_of pf i t
vlan_of pf i (_ ∷ t) = vlan_of pf i t

unfoldable pub state_of : Str → ℕ → Trace → Option VfState
state_of pf i [] = none
state_of pf i (done (link_set_vf_state n j v) ∷ t) =
    if (n == pf) && (j == i) then some v else state_of pf i t
state_of pf i (_ ∷ t) = state_of pf i t

-- The runs of `act` one after the other, the last of which gives the result.
pub data Attempts (act : Act (Unit {0})) (t : Trace) : Result (Unit {0}) × Trace → Type 0 where
  once : Attempts act t (act t)
  again : {p : Result (Unit {0}) × Trace} → Attempts act t p → Attempts act t (act p.1)

-- What the program relies on: a link that is found by a name has this name, a loop over a map
-- visits its keys, and `RetryOnConflict` runs its closure once or more and returns its last result.
pub record IsFaithful (h : Host) : Type 0 where
  pub link_name : (n : Str) (t : Trace) (l : Link) → h.link n t ≡ ok l → l.name ≡ n
  pub visits :
      (t : Trace) (ks : List ℕ) (k : ℕ)
      → (In k ks → In k (h.range_numbers t ks)) × (In k (h.range_numbers t ks) → In k ks)
  pub visits_texts :
      (t : Trace) (ks : List Str) (k : Str)
      → (In k ks → In k (h.range_texts t ks)) × (In k (h.range_texts t ks) → In k ks)
  pub retries : (act : Act (Unit {0})) (t : Trace) → Attempts act t (h.retry_on_conflict act t)

-- A kernel that takes every VLAN and link state that it is given.
pub record IsObliging (h : Host) : Type 0 where
  pub finds : (n : Str) (t : Trace) → (l : Link) × (h.link n t ≡ ok l)
  pub takes_vlan : (l : Link) (i v : ℕ) (t : Trace) → h.set_vf_vlan l i v t ≡ ok tt
  pub takes_state : (l : Link) (i : ℕ) (v : VfState) (t : Trace) → h.set_vf_state l i v t ≡ ok tt
