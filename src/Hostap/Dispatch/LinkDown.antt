-- ===== src/Hostap/Dispatch/LinkDown.antt =====
-- A link that goes down and stays so.
use eapol_operator.Base.{ℕ, ◌-◌, ◌≤◌, Str, bytes, false, some, ◌≡◌, ◌≢◌, refl, ◌∙◌}
use eapol_operator.Host.{Host, Link, Trace, oper_down}
use eapol_operator.Host.Views.{IsFaithful}
use eapol_operator.Hostap.Monitor.{Monitor, write_command}
use eapol_operator.Hostap.Clients.{handle_if_event, handle_requests_timeout_round, request_timeout}
use eapol_operator.Hostap.Clients.Invariant.{IsSound, has_clients, timeout-IsSound}
use eapol_operator.Hostap.Clients.Invariant.LinkState.{if_event-IsSound}
use eapol_operator.Hostap.Clients.Timeouts.{AllAsked, request, round_asked, leave_asked}
use eapol_operator.Hostap.Clients.LinkDown.{asked_by_event, round_empties}
use eapol_operator.Hostap.Dispatch.{
  EventKey, sta_connected, eap_success, sta_disconnected, eap_failure, other, on_event, on_reply,
  finish,
}
use eapol_operator.Hostap.Dispatch.Safety.{
  on_event-IsSound, reply-IsSound, reply-pf, reply-requests,
}
use eapol_operator.Hostap.Stats

module _ (h : Host) where
  -- The monitor goes on without a link event, and nobody connects: hostapd reports other events and
  -- replies, it is pinged, requests time out, and other monitors make whatever calls.
  pub data Waits (m : Monitor) (t : Trace) : Monitor → Trace → Type 0 where
    not_yet : Waits m t m t
    others : {n : Monitor} {u : Trace} → Waits m t n u → (v : Trace) → Waits m t n v
    hears :
        {n : Monitor} {u : Trace} (k : EventKey) (addr : Str)
        → k ≢ sta_connected
        → Waits m t n u
        → Waits m t (finish h (on_event h k addr n u)).1 (finish h (on_event h k addr n u)).2
    is_answered :
        {n : Monitor} {u : Trace} (event : Str)
        → Waits m t n u
        → Waits m t (on_reply h event n u).1 (on_reply h event n u).2
    round_passes :
        {n : Monitor} {u : Trace}
        → Waits m t n u
        → Waits m t (handle_requests_timeout_round h n u).0 (handle_requests_timeout_round h n u).1
    pings :
        {n : Monitor} {u : Trace} → Waits m t n u → Waits m t n (write_command h (bytes "PING") u).1

  event_asked :
      (k : EventKey) (addr : Str) (n : Monitor) (u : Trace)
      → k ≢ sta_connected
      → AllAsked n
      → AllAsked (on_event h k addr n u).1
  unfolding on_event
  event_asked sta_connected addr n u p asked = absurd (p refl)
  event_asked eap_success addr n u p asked = asked
  event_asked sta_disconnected addr n u p asked =
      leave_asked h addr (record n { stats = Stats.de_authenticated n.if_name n.stats }) _ asked
  event_asked eap_failure addr n u p asked = asked
  event_asked other addr n u p asked = asked

  Waits-kept :
      {m : Monitor} {t : Trace} {n : Monitor} {u : Trace}
      → Waits m t n u
      → IsSound m × AllAsked m
      → IsSound n × AllAsked n
  unfolding finish
  Waits-kept not_yet k = k
  Waits-kept (others w v) k = Waits-kept w k
  Waits-kept (hears {n = n} {u = u} event addr p w) k =
      let (sound, asked) = Waits-kept w k in
      (on_event-IsSound h event addr n u sound, event_asked event addr n u p asked)
  Waits-kept (is_answered {n = n} {u = u} event w) k =
      let (sound, asked) = Waits-kept w k in
      (reply-IsSound h event n u sound, λ a. rw (reply-pf, reply-requests) (asked a))
  Waits-kept (round_passes {n = n} {u = u} w) k =
      let (sound, asked) = Waits-kept w k in (timeout-IsSound h n u sound, round_asked h n u asked)
  Waits-kept (pings w) k = Waits-kept w k

  -- A link event finds the link of a sound monitor newly down; then, in any order, hostapd may report
  -- events other than that a client connects, and reply, pings be sent, rounds of the timeouts pass
  -- and others make whatever calls; and at last comes a round of the timeouts when every request to
  -- leave that is then pending is old enough: after it there is no client any more and the port is
  -- shut, whether or not hostapd has reported that any of the clients has left.
  pub link_down_shuts :
      (faithful : IsFaithful h) (link : Link) (m n : Monitor) (t u : Trace)
      → IsSound m
      → m.oper_state ≢ oper_down
      → link.oper_state ≡ oper_down
      → Waits (handle_if_event h link m t).0 (handle_if_event h link m t).1 n u
      → request_timeout ≤ h.now u
      → ((b : Str) (since : ℕ) → request n b ≡ some since → request_timeout ≤ h.now u - since)
      → (has_clients (handle_requests_timeout_round h n u).0.pf.authenticated_addrs ≡ false)
        × ((handle_requests_timeout_round h n u).0.pf.authenticated ≡ false)
  link_down_shuts faithful link m n t u s up down waits late old =
      let (sound, asked) = Waits-kept waits (
        if_event-IsSound h faithful link m t s,
        λ a. asked_by_event h faithful link m t a down up,
      ) in
      let gone = round_empties h faithful n u asked late old in
      (gone, (timeout-IsSound h n u sound).port ∙ gone)
