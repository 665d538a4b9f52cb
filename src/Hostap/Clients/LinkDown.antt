-- ===== src/Hostap/Clients/LinkDown.antt =====
-- What a link that goes down asks of the clients, and when nobody is left.
use eapol_operator.Base.{
  ℕ, ◌-◌, ◌≤◌, [], ◌∷◌, Str, true, false, not, Option, none, some, ◌≡◌, ◌≢◌, refl, ap, ◌∙◌, arith,
  bytes_eq,
}
use eapol_operator.Base.Dict
use eapol_operator.Base.Dict.{Dict}
use eapol_operator.Host.{Host, Link, Trace, OperState, oper_down}
use eapol_operator.Host.Views.{IsFaithful}
use eapol_operator.TrafficControl.Sriov.VlanChange.{handle-SamePort}
use eapol_operator.Hostap.Monitor.{Monitor}
use eapol_operator.Hostap.Clients.{
  same_state, handle_pf_event_for_op_state_change, handle_pf_event_for_vf_vlan_change,
  on_oper_state, handle_if_event, handle_requests_timeout_round, request_timeout,
}
use eapol_operator.Hostap.Clients.Invariant.{has_clients}
use eapol_operator.Hostap.Clients.Invariant.LinkState.{down_requests}
use eapol_operator.Hostap.Clients.Timeouts.{AllAsked, request, client, round_drops, round_keeps}

pub nobody :
    (d : Dict Str (Unit {0})) → ((a : Str) → Dict.lookup a d ≡ none) → has_clients d ≡ false
unfolding Dict.lookup
nobody [] p = refl
nobody ((k, v) ∷ d) p = ground (arith, p k)

module _ (h : Host) (faithful : IsFaithful h) where
  pf_kept :
      (link : Link) (m : Monitor) (t : Trace)
      → link.oper_state ≡ oper_down
      → (handle_pf_event_for_op_state_change h link m t).0.pf ≡ m.pf
  unfolding handle_pf_event_for_op_state_change on_oper_state
  pf_kept link m t down = rw (down, on_oper_state) refl

  is_new : (o p : OperState) → p ≢ oper_down → o ≡ oper_down → not (same_state o p) ≡ true
  is_new o p up down = ground (arith)

  pub asked_by_event :
      (link : Link) (m : Monitor) (t : Trace) (a : Str)
      → link.oper_state ≡ oper_down
      → m.oper_state ≢ oper_down
      → client (handle_if_event h link m t).0 a ≢ none
      → request (handle_if_event h link m t).0 a ≢ none
  unfolding handle_if_event handle_pf_event_for_vf_vlan_change
  asked_by_event link m t a down up p =
      let (n, u) = handle_pf_event_for_op_state_change h link m t in
      let same = handle-SamePort h n.pf u in
      let was : Dict.lookup a m.pf.authenticated_addrs ≢ none = λ e.
        (rw (is_new link.oper_state m.oper_state up down, handle_if_event) at p) (
          ap (Dict.lookup a) same.2
          ∙ ap (λ f. Dict.lookup a f.authenticated_addrs) (pf_kept link m t down)
          ∙ e) in
      rw (is_new link.oper_state m.oper_state up down, handle_if_event)
        (down_requests h faithful link m t a down was)

-- A round at a time when every request is old enough, where every client has one: nobody is left.
module _ (h : Host) (faithful : IsFaithful h) (n : Monitor) (u : Trace) where
  no_client_at :
      (a : Str) (c : Option (Unit {0})) (r : Option ℕ)
      → AllAsked n
      → request_timeout ≤ h.now u
      → ((b : Str) (since : ℕ) → request n b ≡ some since → request_timeout ≤ h.now u - since)
      → client n a ≡ c
      → request n a ≡ r
      → client (handle_requests_timeout_round h n u).0 a ≡ none
  no_client_at a c (some since) asked late old p q = round_drops h faithful n u a late old (λ e. cc)
  no_client_at a none none asked late old p q =
      round_keeps h faithful n u a (λ since e. absurd cc) ∙ p
  no_client_at a (some c) none asked late old p q = absurd (asked a (λ e. cc) q)

  pub round_empties :
      AllAsked n
      → request_timeout ≤ h.now u
      → ((b : Str) (since : ℕ) → request n b ≡ some since → request_timeout ≤ h.now u - since)
      → has_clients (handle_requests_timeout_round h n u).0.pf.authenticated_addrs ≡ false
  round_empties asked late old =
      nobody (handle_requests_timeout_round h n u).0.pf.authenticated_addrs
        (λ a. no_client_at a (client n a) (request n a) asked late old refl refl)
