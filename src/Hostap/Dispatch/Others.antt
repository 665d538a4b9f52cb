-- ===== src/Hostap/Dispatch/Others.antt =====
-- A running monitor leaves the VFs of other PFs alone.
use eapol_operator.Base.{List, [], ◌∷◌, Str, bytes, refl, bytes_eq}
use eapol_operator.Host.{Host, Trace}
use eapol_operator.Host.Views.{IsFaithful}
use eapol_operator.Hostap.Stats
use eapol_operator.Hostap.Monitor.{Monitor}
use eapol_operator.Hostap.Status.Quiet.{status-IsQuiet}
use eapol_operator.Hostap.Clients.Guarded.{log_event_quiet, write_command-IsQuiet}
use eapol_operator.Hostap.Clients.Others.{
  IsContained, IsContained-refl, IsContained-trans, quiet-IsContained, authenticate-IsContained,
  de_authenticate-IsContained, timeout-IsContained, if_event-IsContained,
}
use eapol_operator.Hostap.Dispatch.{
  EventKey, sta_connected, eap_success, sta_disconnected, eap_failure, other, on_event, on_words,
  on_reply, finish, handle_hostapd_event, key_of, event_key,
}
use eapol_operator.Hostap.Dispatch.Safety.{
  Step, message, link_event, timeout_round, keep_alive, reply-pf, reply_quiet,
}

module _ (h : Host) (faithful : IsFaithful h) where
  on_event-IsContained :
      (k : EventKey) (addr : Str) (m : Monitor) (t : Trace)
      → IsContained m t (on_event h k addr m t).1 (on_event h k addr m t).2
  unfolding on_event
  on_event-IsContained sta_connected addr m t = authenticate-IsContained h faithful addr m t
  on_event-IsContained sta_disconnected addr m t =
      let left : Monitor = record m { stats = Stats.de_authenticated m.if_name m.stats } in
      IsContained-trans (quiet-IsContained m left refl (log_event_quiet h m.has_client _ t))
        (de_authenticate-IsContained h faithful addr left _)
  on_event-IsContained eap_success addr m t =
      quiet-IsContained m _ refl (log_event_quiet h m.has_client _ t)
  on_event-IsContained eap_failure addr m t =
      quiet-IsContained m _ refl (log_event_quiet h m.has_client _ t)
  on_event-IsContained other addr m t = IsContained-refl m t

  reply-IsContained :
      (event : Str) (m : Monitor) (t : Trace)
      → IsContained m t (on_reply h event m t).1 (on_reply h event m t).2
  reply-IsContained event m t =
      quiet-IsContained m _ (reply-pf h event m t) (reply_quiet h faithful event m t)

  words-IsContained :
      (event : Str) (words : List Str) (m : Monitor) (t : Trace)
      → IsContained m t (on_words h event words m t).1 (on_words h event words m t).2
  unfolding on_words finish
  words-IsContained event [] m t = reply-IsContained event m t
  words-IsContained event (w ∷ []) m t = reply-IsContained event m t
  words-IsContained event (key ∷ addr ∷ _) m t =
      let (_, m', t') = on_event h (key_of (event_key key)) addr m t in
      IsContained-trans (on_event-IsContained (key_of (event_key key)) addr m t)
        (quiet-IsContained m' m' refl ((status-IsQuiet h faithful m').at t'))

  message-IsContained :
      (event : Str) (m : Monitor) (t : Trace)
      → IsContained m t (handle_hostapd_event h event m t).1 (handle_hostapd_event h event m t).2
  unfolding handle_hostapd_event
  message-IsContained event m t = words-IsContained event _ m t

  pub Step-IsContained :
      {m : Monitor} {t : Trace} {n : Monitor} {u : Trace} → Step h m t n u → IsContained m t n u
  Step-IsContained {m} {t} (message event) = message-IsContained event m t
  Step-IsContained {m} {t} (link_event link) = if_event-IsContained h faithful link m t
  Step-IsContained {m} {t} timeout_round = timeout-IsContained h faithful m t
  Step-IsContained {m} {t} keep_alive =
      quiet-IsContained m m refl ((write_command-IsQuiet h (bytes "PING")).at t)
