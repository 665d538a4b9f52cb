-- ===== src/Examples/Clients.antt =====
-- The theorems on link states and timeouts, applied to the example.
use eapol_operator.Base.{bytes, ℕ, ◌-◌, ◌≤◌, ◌<◌, [], ◌∷◌, Str, some, ◌≡◌, refl, arith, bytes_eq}
use eapol_operator.Base.Dict
use eapol_operator.Host.{oper_down}
use eapol_operator.Hostap.Monitor.{Monitor}
use eapol_operator.Hostap.Clients.{
  handle_pf_event_for_op_state_change, handle_requests_timeout_round, request_timeout,
}
use eapol_operator.Hostap.Clients.Invariant.{IsSound}
use eapol_operator.Base.{false, length, zero, suc, ◌*◌}
use eapol_operator.Host.{Host, Trace, conn_close, done}
use eapol_operator.Host.Views.{IsFaithful}
use eapol_operator.Hostap.Monitor.{deauthenticate, write_command}
use eapol_operator.Hostap.Clients.{handle_if_event}
use eapol_operator.Hostap.Clients.Invariant.{has_clients}
use eapol_operator.Base.{nat_eq}
use eapol_operator.Examples.{obliging}
use eapol_operator.TrafficControl.Sriov.{configure_vlan_state_for_vfs}
use eapol_operator.TrafficControl.Sriov.Kernel.{
  IsIndexed, AllConfigured, configure-AllConfigured, configure_all_ok,
}
use eapol_operator.TrafficControl.Tc.{deny_traffic_from_mac}
use eapol_operator.Hostap.Clients.{begin_stop, handle_de_authenticate_event}
use eapol_operator.Hostap.Clients.LateLeave.{IsShut, stop_late, stop_late_shuts}
use eapol_operator.Hostap.Dispatch.LinkDown.{Waits, not_yet, others, pings, link_down_shuts}
use eapol_operator.Hostap.Clients.Timeouts.{request, client, round_keeps}
use eapol_operator.Examples.{eth0, mac, other_mac, machine, faithful, link_of, leaving}

leaving-IsSound : IsSound leaving
unfolding Dict.lookup
leaving-IsSound = record { port = refl; pending = λ a p. ground arith }

asked_at : (b : Str) (since : ℕ) → request leaving b ≡ some since → since ≤ 0
unfolding Dict.lookup
asked_at b since p = ground arith

-- One request has timed out and one has not.
abbrev two_asked : Monitor
two_asked = record leaving { deauth_requests = (other_mac, 9999999999) ∷ (mac, 0) ∷ [] }

recent :
    (since : ℕ) → request two_asked other_mac ≡ some since → 10000000000 - since < request_timeout
unfolding Dict.lookup bytes_eq
recent since p = ground arith

round_keeps_example :
    client (handle_requests_timeout_round machine two_asked []).0 other_mac
    ≡ client two_asked other_mac
round_keeps_example = round_keeps machine faithful two_asked [] other_mac recent

-- A machine on which each call takes a tenth of a second.
abbrev clocked : Host
clocked = record machine { now = λ t. length t * 100000 }

clocked-IsFaithful : IsFaithful clocked
clocked-IsFaithful = record {
  link_name = faithful.link_name;
  visits = faithful.visits;
  visits_texts = faithful.visits_texts;
  retries = faithful.retries;
}

abbrev pause : ℕ → Trace
pause zero = []
pause (suc n) = done conn_close ∷ pause n

abbrev down_now : Monitor
down_now = (handle_if_event clocked (link_of oper_down eth0) leaving []).0

asked_early : (b : Str) (since : ℕ) → request down_now b ≡ some since → since ≤ 1000000
unfolding Dict.lookup Dict.insert Dict.keys bytes_eq handle_if_event
    handle_pf_event_for_op_state_change deauthenticate write_command
asked_early b since p = ground arith

-- Time passes, and a ping is sent.
abbrev pinged : Trace
pinged = (write_command clocked (bytes "PING") (pause 50)).1

pinged-Waits :
    Waits clocked down_now
      (handle_if_event clocked (link_of oper_down eth0) leaving []).1
      down_now
      pinged
pinged-Waits = pings (others not_yet (pause 50))

pinged_late : clocked.now pinged ≡ 5100000
unfolding write_command
pinged_late = refl

link_down_shuts_example :
    (has_clients (handle_requests_timeout_round clocked down_now pinged).0.pf.authenticated_addrs
      ≡ false)
    × ((handle_requests_timeout_round clocked down_now pinged).0.pf.authenticated ≡ false)
link_down_shuts_example =
    link_down_shuts clocked clocked-IsFaithful (link_of oper_down eth0) leaving down_now [] pinged
      leaving-IsSound (λ p. cc) refl pinged-Waits (omega (arith, pinged_late))
      (λ b since p. omega (arith, asked_early b since p, pinged_late))

-- The VFs of the PF of `leaving`, given back.
abbrev opened_calls : Trace
opened_calls = (configure_vlan_state_for_vfs machine leaving.pf []).1

leaving-IsIndexed : IsIndexed leaving.pf
unfolding Dict.lookup nat_eq
leaving-IsIndexed = record { index_at = λ i vf p. ground arith }

leaving-AllConfigured : AllConfigured leaving.pf opened_calls
leaving-AllConfigured =
    configure-AllConfigured machine faithful leaving.pf leaving-IsIndexed []
      (configure_all_ok machine obliging leaving.pf [])

stop_late_shuts_example :
    IsShut
      (stop_late machine mac leaving opened_calls).0.pf
      (record { index = 1; vlan = 200 })
      (stop_late machine mac leaving opened_calls).1
stop_late_shuts_example =
    stop_late_shuts machine faithful obliging mac leaving opened_calls leaving-AllConfigured refl 1
      (record { index = 1; vlan = 200 })
      (unfold begin_stop handle_de_authenticate_event deny_traffic_from_mac bytes_eq nat_eq
          Dict.erase Dict.lookup in
        refl)
