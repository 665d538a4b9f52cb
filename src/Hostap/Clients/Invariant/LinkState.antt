-- ===== src/Hostap/Clients/Invariant/LinkState.antt =====
-- What a link that goes down or comes up does to the clients.
use eapol_operator.Base.{
  ℕ, List, Str, not, Option, none, some, ◌≡◌, refl, ◌≢◌, In, inl, inr, Bool-cases, bytes_eq,
}
use eapol_operator.Base.Dict
use eapol_operator.Base.Dict.{Dict}
use eapol_operator.Host.{Host, Link, Trace, OperState, oper_down, oper_up}
use eapol_operator.Host.Views.{IsFaithful}
use eapol_operator.Hostap.Monitor.{Monitor}
use eapol_operator.Hostap.Clients.{
  cancel_all, on_oper_state, same_state, handle_pf_event_for_op_state_change, handle_if_event,
}
use eapol_operator.Hostap.Clients.Invariant.{
  IsSound, request_all_lem, request_all-made, cancel_all_lem, vlan_change-IsSound,
}

module _ (h : Host) (faithful : IsFaithful h) where
  -- The clients that the loop visits.
  abbrev visited : Monitor → Trace → List Str
  visited m t = h.range_texts t (Dict.keys m.pf.authenticated_addrs)

  visited_client :
      (m : Monitor) (t : Trace) (a : Str)
      → In a (visited m t)
      → Dict.lookup a m.pf.authenticated_addrs ≢ none
  visited_client m t a i =
      Dict.lookup_of_keys a m.pf.authenticated_addrs
        ((faithful.visits_texts t (Dict.keys m.pf.authenticated_addrs) a).1 i)

  client_visited :
      (m : Monitor) (t : Trace) (a : Str)
      → Dict.lookup a m.pf.authenticated_addrs ≢ none
      → In a (visited m t)
  client_visited m t a p =
      (faithful.visits_texts t (Dict.keys m.pf.authenticated_addrs) a).0
        (Dict.In-keys a m.pf.authenticated_addrs p)

  oper_state-IsSound :
      (o : OperState) (m : Monitor) (t : Trace) → IsSound m → IsSound (on_oper_state h o m t).0
  unfolding on_oper_state
  oper_state-IsSound oper_down m t s = record {
    port = s.port;
    pending = λ a p. elim (request_all_lem h (visited m t) m.deauth_requests t a p) [
      | inl i ↦ visited_client m t a i
      | inr q ↦ s.pending a q
    ];
  }
  oper_state-IsSound oper_up m t s = record {
    port = s.port;
    pending = λ a p. s.pending a (cancel_all_lem h (visited m t) m.deauth_requests a p).0;
  }
  oper_state-IsSound _ m t s = s

  op_state_change-IsSound :
      (link : Link) (m : Monitor) (t : Trace)
      → IsSound m
      → IsSound (handle_pf_event_for_op_state_change h link m t).0
  unfolding handle_pf_event_for_op_state_change
  op_state_change-IsSound link m t s =
      oper_state-IsSound link.oper_state (record m { oper_state = link.oper_state }) t
        (record { port = s.port; pending = s.pending })

  -- Every link event leaves a sound monitor.
  pub if_event-IsSound :
      (link : Link) (m : Monitor) (t : Trace) → IsSound m → IsSound (handle_if_event h link m t).0
  unfolding handle_if_event
  if_event-IsSound link m t s = elim (Bool-cases (not (same_state link.oper_state m.oper_state))) [
    | inl new ↦
        rw (new, handle_if_event)
          (vlan_change-IsSound h _ (handle_pf_event_for_op_state_change h link m t).1
            (op_state_change-IsSound link m t s))
    | inr old ↦ rw (old, handle_if_event) (vlan_change-IsSound h m t s)
  ]

  -- After the link was seen to be down, every client has a request to leave.
  pub down_requests :
      (link : Link) (m : Monitor) (t : Trace) (a : Str)
      → link.oper_state ≡ oper_down
      → Dict.lookup a m.pf.authenticated_addrs ≢ none
      → Dict.lookup a (handle_pf_event_for_op_state_change h link m t).0.deauth_requests ≢ none
  unfolding handle_pf_event_for_op_state_change on_oper_state
  down_requests link m t a down p =
      rw (down, on_oper_state)
        (request_all-made h (visited m t) m.deauth_requests t a (client_visited m t a p))

  -- After the link was seen to be up, no address has a request in a monitor that was sound.
  up_cancels :
      (link : Link) (m : Monitor) (t : Trace) (a : Str)
      → IsSound m
      → link.oper_state ≡ oper_up
      → Dict.lookup a (handle_pf_event_for_op_state_change h link m t).0.deauth_requests ≡ none
  unfolding handle_pf_event_for_op_state_change on_oper_state
  up_cancels link m t a s up = rw (up, on_oper_state) (left (Dict.lookup a left_over) refl)
    where
      left_over : Dict Str ℕ
      left_over = cancel_all h (visited m t) m.deauth_requests

      left : (o : Option ℕ) → Dict.lookup a left_over ≡ o → Dict.lookup a left_over ≡ none
      left none e = e
      left (some n) e =
          let (there, not_visited) = cancel_all_lem h (visited m t) m.deauth_requests a (λ z. cc) in
          absurd (not_visited (client_visited m t a (s.pending a there)))
