-- ===== src/Hostap/Goroutines.antt =====
-- pkg/hostap/monitor.go: the loops of the four goroutines that `StartMonitor` starts. A run is what
-- wakes them, in the order in which it does; a goroutine that has ended is not woken any more.
use eapol_operator.Base.{
  List, [], ◌∷◌, Str, bytes, Bool, true, false, Result, ok, err, if◌then◌else◌,
}
use eapol_operator.Host.{Host, Link, Trace}
use eapol_operator.Hostap.Monitor.{Monitor, write_command}
use eapol_operator.Hostap.Clients.{handle_if_event, handle_requests_timeout_round}
use eapol_operator.Hostap.Dispatch.{handle_hostapd_event}
use eapol_operator.Hostap.Dispatch.Safety.{
  message, link_event, timeout_round, keep_alive, Reach, here, next,
}

pub data Goroutine : Type 0 where
  hostapd_reply if_events send_keep_alive requests_timeout : Goroutine

-- What a goroutine meets in one round of its loop.
pub data Wakeup : Type 0 where
  -- `<-m.stop`
  stopped : Goroutine → Wakeup
  -- what reading the socket gives
  read_timeout read_failed : Wakeup
  received : Str → Wakeup
  link_update : Link → Wakeup
  ping_due round_due : Wakeup

-- Which goroutines still run, with the monitor and the calls.
pub record Running : Type 0 where
  pub replies : Bool
  pub events : Bool
  pub pings : Bool
  pub rounds : Bool
  pub monitor : Monitor
  pub calls : Trace

ended : Goroutine → Running → Running
ended hostapd_reply r = record r { replies = false }
ended if_events r = record r { events = false }
ended send_keep_alive r = record r { pings = false }
ended requests_timeout r = record r { rounds = false }

module _ (h : Host) where
  -- `handleHostapdReply`: an error of the handler is logged, and an empty message is dropped.
  on_message : Str → Running → Running
  on_message [] r = r
  on_message (c ∷ text) r =
      let (_, m, t) = handle_hostapd_event h (c ∷ text) r.monitor r.calls in
      record r { monitor = m; calls = t }

  -- `handleIfEvents`
  on_update : Link → Running → Running
  on_update link r =
      let (m, t) = handle_if_event h link r.monitor r.calls in record r { monitor = m; calls = t }

  -- `sendKeepAlive`: it ends at an error that is no timeout.
  after_ping : Result (Unit {0}) → Running → Running
  after_ping (ok _) r = r
  after_ping (err e) r = if h.is_timeout e then r else ended send_keep_alive r

  on_ping : Running → Running
  unfolding after_ping
  on_ping r =
      let (a, t) = write_command h (bytes "PING") r.calls in after_ping a (record r { calls = t })

  -- `handleRequestsTimeout`
  on_round : Running → Running
  on_round r =
      let (m, t) = handle_requests_timeout_round h r.monitor r.calls in
      record r { monitor = m; calls = t }

  wake : Wakeup → Running → Running
  unfolding ended on_message on_update on_ping on_round
  wake (stopped g) r = ended g r
  wake read_timeout r = r
  wake read_failed r = ended hostapd_reply r
  wake (received text) r = if r.replies then on_message text r else r
  wake (link_update link) r = if r.events then on_update link r else r
  wake ping_due r = if r.pings then on_ping r else r
  wake round_due r = if r.rounds then on_round r else r

  unfoldable pub run : List Wakeup → Running → Running
  unfolding wake
  run [] r = r
  run (w ∷ ws) r = run ws (wake w r)

  record Reaches (r s : Running) : Type 0 where
    reach :
        {m : Monitor} {t : Trace} → Reach h m t r.monitor r.calls → Reach h m t s.monitor s.calls

  Reaches-if :
      (b : Bool) (r s u : Running) → Reaches r s → Reaches r u → Reaches r (if b then s else u)
  Reaches-if true r s u p q = p
  Reaches-if false r s u p q = q

  Reaches-refl : (r : Running) → Reaches r r
  Reaches-refl r = record { reach = λ x. x }

  ended-Reaches : (g : Goroutine) (r : Running) → Reaches r (ended g r)
  unfolding ended
  ended-Reaches hostapd_reply r = record { reach = λ x. x }
  ended-Reaches if_events r = record { reach = λ x. x }
  ended-Reaches send_keep_alive r = record { reach = λ x. x }
  ended-Reaches requests_timeout r = record { reach = λ x. x }

  message-Reaches : (text : Str) (r : Running) → Reaches r (on_message text r)
  unfolding on_message
  message-Reaches [] r = record { reach = λ x. x }
  message-Reaches (c ∷ text) r = record { reach = λ x. next x (message (c ∷ text)) }

  after_ping-Reaches : (a : Result (Unit {0})) (r : Running) → Reaches r (after_ping a r)
  unfolding after_ping
  after_ping-Reaches (ok _) r = record { reach = λ x. x }
  after_ping-Reaches (err e) r =
      Reaches-if (h.is_timeout e) r r (ended send_keep_alive r) (Reaches-refl r)
        (ended-Reaches send_keep_alive r)

  ping-Reaches : (r : Running) → Reaches r (on_ping r)
  unfolding on_ping
  ping-Reaches r = record {
    reach = λ x.
        (after_ping-Reaches (write_command h (bytes "PING") r.calls).0
            (record r { calls = (write_command h (bytes "PING") r.calls).1 })).reach
          (next x keep_alive);
  }

  wake-Reaches : (w : Wakeup) (r : Running) → Reaches r (wake w r)
  unfolding wake on_update on_round
  wake-Reaches (stopped g) r = ended-Reaches g r
  wake-Reaches read_timeout r = record { reach = λ x. x }
  wake-Reaches read_failed r = ended-Reaches hostapd_reply r
  wake-Reaches (received text) r =
      Reaches-if r.replies r (on_message text r) r (message-Reaches text r) (Reaches-refl r)
  wake-Reaches (link_update link) r =
      Reaches-if r.events r (on_update link r) r (record { reach = λ x. next x (link_event link) })
        (Reaches-refl r)
  wake-Reaches ping_due r = Reaches-if r.pings r (on_ping r) r (ping-Reaches r) (Reaches-refl r)
  wake-Reaches round_due r =
      Reaches-if r.rounds r (on_round r) r (record { reach = λ x. next x timeout_round })
        (Reaches-refl r)

  run-Reaches : (ws : List Wakeup) (r : Running) → Reaches r (run ws r)
  unfolding run
  run-Reaches [] r = record { reach = λ x. x }
  run-Reaches (w ∷ ws) r = record {
    reach = λ x. (run-Reaches ws (wake w r)).reach ((wake-Reaches w r).reach x);
  }

  -- What the woken goroutines leave is left by a run of single steps.
  run-Reach :
      (ws : List Wakeup) (r : Running)
      → Reach h r.monitor r.calls (run ws r).monitor (run ws r).calls
  run-Reach ws r = (run-Reaches ws r).reach here
