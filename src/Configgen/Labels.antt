-- ===== src/Configgen/Labels.antt =====
-- Where the pods run: the node selector of a resource that is enabled, and of one that is not.
use eapol_operator.Base.{
  [], Str, Bool, true, false, not, Option, none, some, ◌≡◌, ◌≢◌, refl, ap, ◌∙◌, arith,
  if◌then◌else◌, ◌==◌, bytes_eq,
}
use eapol_operator.Base.Dict
use eapol_operator.Base.Dict.{Dict}
use eapol_operator.Api.{Authenticator}
use eapol_operator.Configgen.{
  daemonset, after_daemonset, node_selector_for, disable, left_in, disabled_selector,
  disabled_reason,
}

-- The node label that a selector asks for; a selector that is nil asks for none.
abbrev pub selected : Str → Option (Dict Str Str) → Option Str
selected k none = none
selected k (some nodes) = Dict.lookup k nodes

disabled_nodes :
    (k : Str) (nodes : Option (Dict Str Str))
    → Dict.lookup k (disable nodes)
      ≡ (if k == disabled_selector then some disabled_reason else selected k nodes)
unfolding disable
disabled_nodes k none =
    Dict.lookup-insert k disabled_selector disabled_reason [] ∙ unfold Dict.lookup in refl
disabled_nodes k (some nodes) = Dict.lookup-insert k disabled_selector disabled_reason nodes

stays :
    (enabled : Bool) (nodes : Option (Dict Str Str))
    → enabled ≡ false
    → nodes ≢ none
    → selected disabled_selector
        (left_in nodes (if not enabled then some (disable nodes) else nodes))
      ≡ some disabled_reason
unfolding left_in bytes_eq
stays true nodes p q = ground arith
stays false none p q = absurd (q refl)
stays false (some nodes) p q = disabled_nodes disabled_selector (some nodes)

kept :
    (enabled : Bool) (nodes : Option (Dict Str Str))
    → enabled ≡ true
    → left_in nodes (if not enabled then some (disable nodes) else nodes) ≡ nodes
unfolding left_in
kept false nodes p = ground arith
kept true none p = refl
kept true (some nodes) p = refl

module _ (a : Authenticator) where
  -- A resource that is not enabled asks for the nodes that it names and for one label more, which
  -- no node has; an enabled one asks for what it names.
  pub daemonset_nodes :
      (service_account k : Str)
      → selected k (daemonset a service_account).node_selector ≡ (
          if a.spec.enabled
          then selected k a.spec.node_selector
          else if k == disabled_selector
          then some disabled_reason
          else selected k a.spec.node_selector)
  unfolding daemonset node_selector_for
  daemonset_nodes service_account k = ground (arith, disabled_nodes k a.spec.node_selector)

  -- The map of the resource is shared: a resource that names nodes and is not enabled still asks
  -- for the label that no node has when the same object is enabled again and a DaemonSet is made
  -- of it.
  disabled_stays :
      (service_account : Str)
      → a.spec.enabled ≡ false
      → a.spec.node_selector ≢ none
      → selected disabled_selector
          (daemonset
            (record (after_daemonset a) {
              spec = record (after_daemonset a).spec { enabled = true };
            })
            service_account).node_selector
        ≡ some disabled_reason
  unfolding daemonset node_selector_for after_daemonset left_in
  disabled_stays service_account p q = stays a.spec.enabled a.spec.node_selector p q

  -- An enabled resource is left as it was.
  pub enabled_kept : a.spec.enabled ≡ true → after_daemonset a ≡ a
  unfolding after_daemonset node_selector_for left_in
  enabled_kept p =
      ap (λ n. record a { spec = record a.spec { node_selector = n } })
        (kept a.spec.enabled a.spec.node_selector p)
