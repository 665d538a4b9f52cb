-- ===== src/Hostap/Clients/Invariant.antt =====
-- The invariant of a running monitor: the port is open exactly while a client is authenticated, and
-- only authenticated clients are asked to leave. Every handler keeps it, whatever fails outside.
pub mod LinkState
use eapol_operator.Base.{
  ℕ, suc, List, [], ◌∷◌, ◌++◌, Str, Bool, true, false, not, Option, none, some, Result, ok, err,
  ◌≡◌, refl, ◌≢◌, arith, length, sym, ap, ◌∙◌, if◌then◌else◌, ◌==◌, bytes_eq, nat_eq, In, inl, inr,
  ltb, Bool-cases, ◌⊎◌, ◌-◌,
}
use eapol_operator.Base.Dict
use eapol_operator.Base.Dict.{Dict}
use eapol_operator.Host.{Host, Link, Trace, Act, OperState, oper_down, oper_up}
use eapol_operator.Host.Views.{IsFaithful}
use eapol_operator.TrafficControl.Sriov.{PfInfo, handle_pf_event_for_vlan_change}
use eapol_operator.TrafficControl.Sriov.VlanChange.{SamePort, handle-SamePort}
use eapol_operator.TrafficControl.Tc.{allow_traffic_from_mac, deny_traffic_from_mac}
use eapol_operator.TrafficControl.Tc.Port.{pf-allow, pf-deny}
use eapol_operator.Hostap.Monitor.{Monitor, Method, deauthenticate}
use eapol_operator.Hostap.Clients.{
  add_client, remove_client, with_pf, handle_authenticate_event, handle_de_authenticate_event,
  request_all, cancel_all, on_oper_state, handle_pf_event_for_op_state_change,
  handle_pf_event_for_vf_vlan_change, handle_if_event, drop_client, timeout_loop,
  handle_requests_timeout_round, timestamp, request_timeout,
}

abbrev pub has_clients : Dict Str (Unit {0}) → Bool
has_clients [] = false
has_clients (_ ∷ _) = true

pub record IsSound (m : Monitor) : Type 0 where
  pub port : m.pf.authenticated ≡ has_clients m.pf.authenticated_addrs
  pub pending :
      (a : Str)
      → Dict.lookup a m.deauth_requests ≢ none
      → Dict.lookup a m.pf.authenticated_addrs ≢ none

module _ (addr : Str) (auth : Bool) where
  insert_opens :
      (m : Dict Str (Unit {0}))
      → auth ≡ has_clients m
      → (if length (Dict.insert addr tt m) == 1 then true else auth)
        ≡ has_clients (Dict.insert addr tt m)
  unfolding Dict.insert
  insert_opens [] p = ground arith
  insert_opens ((k, _) ∷ m) p = ground arith

  last_shuts :
      (m : Dict Str (Unit {0}))
      → auth ≡ true
      → (if length m == 0 then false else auth) ≡ has_clients m
  last_shuts [] p = ground arith
  last_shuts (_ ∷ m) p = ground arith

  erase_shuts :
      (m : Dict Str (Unit {0}))
      → auth ≡ has_clients m
      → (if length (Dict.erase addr m) == 0 then false else auth) ≡ has_clients (Dict.erase addr m)
  unfolding Dict.erase
  erase_shuts [] p = ground arith
  erase_shuts ((k, v) ∷ m) p = last_shuts (Dict.erase addr ((k, v) ∷ m)) p

module _ (h : Host) (addr : Str) (m : Monitor) (t : Trace) (s : IsSound m) where
  -- A client that has authenticated opens the port.
  pub authenticate-IsSound : IsSound (handle_authenticate_event h addr m t).1
  unfolding handle_authenticate_event
  authenticate-IsSound =
      let pf' = (add_client h addr m).pf in
      let addrs = m.pf.authenticated_addrs in
      record {
        port = rw pf-allow (ground (arith, insert_opens addr m.pf.authenticated addrs s.port));
        pending = λ a p. rw pf-allow (
            ground (
              arith,
              Dict.lookup-insert a addr tt addrs,
              Dict.lookup-erase a addr m.deauth_requests,
              s.pending a,
            ));
      }

  -- The last client that leaves shuts it.
  pub de_authenticate-IsSound : IsSound (handle_de_authenticate_event h addr m t).1
  unfolding handle_de_authenticate_event
  de_authenticate-IsSound =
      let addrs = m.pf.authenticated_addrs in
      record {
        port = rw pf-deny (ground (arith, erase_shuts addr m.pf.authenticated addrs s.port));
        pending = λ a p. rw pf-deny (
            ground (
              arith,
              Dict.lookup-erase a addr addrs,
              Dict.lookup-erase a addr m.deauth_requests,
              s.pending a,
            ));
      }

module _ (h : Host) where
  pub SamePort-IsSound :
      (m : Monitor) (pf : PfInfo) → SamePort m.pf pf → IsSound m → IsSound (record m { pf = pf })
  SamePort-IsSound m pf same s = record {
    port = same.1 ∙ s.port ∙ ap has_clients (sym same.2);
    pending = λ a p. rw same.2 (s.pending a p);
  }

  pub vlan_change-IsSound :
      (m : Monitor) (t : Trace) → IsSound m → IsSound (handle_pf_event_for_vf_vlan_change h m t).0
  unfolding handle_pf_event_for_vf_vlan_change
  vlan_change-IsSound m t s =
      SamePort-IsSound m (handle_pf_event_for_vlan_change h m.pf t).1 (handle-SamePort h m.pf t) s

  drop-IsSound :
      (addr : Str) (m : Monitor) (t : Trace) → IsSound m → IsSound (drop_client h addr m t).0
  unfolding drop_client
  drop-IsSound addr m t s =
      let addrs = m.pf.authenticated_addrs in
      record {
        port = rw pf-deny (ground (arith, erase_shuts addr m.pf.authenticated addrs s.port));
        pending = λ a p. rw pf-deny (
            ground (
              arith,
              Dict.lookup-erase a addr addrs,
              Dict.lookup-erase a addr m.deauth_requests,
              s.pending a,
            ));
      }

  timeout_loop-IsSound :
      (now : ℕ) (addrs : List Str) (m : Monitor) (t : Trace)
      → IsSound m
      → IsSound (timeout_loop h now addrs m t).0
  unfolding timeout_loop
  timeout_loop-IsSound now [] m t s = s
  timeout_loop-IsSound now (addr ∷ addrs) m t s =
      elim (Bool-cases
        (ltb (now - timestamp h (Dict.lookup addr m.deauth_requests)) request_timeout)) [
          | inl early ↦ rw (early, timeout_loop) s
          | inr late ↦
              rw (late, timeout_loop)
                (timeout_loop-IsSound now addrs (drop_client h addr m t).0
                  (drop_client h addr m t).1 (drop-IsSound addr m t s))
        ]

  -- Clients whose time is over leave a sound monitor.
  pub timeout-IsSound :
      (m : Monitor) (t : Trace) → IsSound m → IsSound (handle_requests_timeout_round h m t).0
  unfolding handle_requests_timeout_round
  timeout-IsSound m t s = timeout_loop-IsSound _ _ m t s

  -- Who has a request after the loop.
  request_all_lem :
      (addrs : List Str) (requests : Dict Str ℕ) (t : Trace) (a : Str)
      → Dict.lookup a (request_all h addrs requests t).0 ≢ none
      → In a addrs ⊎ (Dict.lookup a requests ≢ none)
  unfolding request_all
  request_all_lem [] requests t a p = inr p
  request_all_lem (addr ∷ addrs) requests t a p =
      let t' = (deauthenticate h addr t).1 in
      let later = request_all_lem addrs (Dict.insert addr (h.now t') requests) t' a p in
      ground (arith, later, Dict.lookup-insert a addr (h.now t') requests)

  request_all-kept :
      (addrs : List Str) (requests : Dict Str ℕ) (t : Trace) (a : Str)
      → Dict.lookup a requests ≢ none
      → Dict.lookup a (request_all h addrs requests t).0 ≢ none
  unfolding request_all
  request_all-kept [] requests t a p = p
  request_all-kept (addr ∷ addrs) requests t a p =
      let t' = (deauthenticate h addr t).1 in
      request_all-kept addrs (Dict.insert addr (h.now t') requests) t' a
        (ground (arith, Dict.lookup-insert a addr (h.now t') requests))

  request_all-made :
      (addrs : List Str) (requests : Dict Str ℕ) (t : Trace) (a : Str)
      → In a addrs
      → Dict.lookup a (request_all h addrs requests t).0 ≢ none
  unfolding request_all
  request_all-made [] requests t a i = absurd i
  request_all-made (addr ∷ addrs) requests t a (inl p) =
      let t' = (deauthenticate h addr t).1 in
      request_all-kept addrs (Dict.insert addr (h.now t') requests) t' a
        (ground (arith, Dict.lookup-insert a addr (h.now t') requests))
  request_all-made (addr ∷ addrs) requests t a (inr i) =
      let t' = (deauthenticate h addr t).1 in
      request_all-made addrs (Dict.insert addr (h.now t') requests) t' a i

  -- A request that is left was there, and was not cancelled.
  cancel_all_lem :
      (addrs : List Str) (requests : Dict Str ℕ) (a : Str)
      → Dict.lookup a (cancel_all h addrs requests) ≢ none
      → (Dict.lookup a requests ≢ none) × (In a addrs → ⊥)
  unfolding cancel_all
  cancel_all_lem [] requests a p = (p, λ i. i)
  cancel_all_lem (addr ∷ addrs) requests a p = ground (
    arith,
    cancel_all_lem addrs (Dict.erase addr requests) a p,
    Dict.lookup-erase a addr requests,
  )
