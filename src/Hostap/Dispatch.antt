-- ===== src/Hostap/Dispatch.antt =====
-- pkg/hostap/monitor.go: the messages of hostapd.
pub mod Messages
pub mod State
pub mod Safety
pub mod Lifecycle
pub mod LinkDown
pub mod Others
use eapol_operator.Base.{
  ℕ, suc, ◌+◌, List, [], ◌∷◌, ◌++◌, Str, bytes, String, Bool, true, false, ◌||◌, Option, none, some,
  Result, ok, err, if◌then◌else◌, ◌==◌, bytes_eq, nat_eq,
}
use eapol_operator.Base.Dict
use eapol_operator.Base.Dict.{Dict}
use eapol_operator.Base.Text.{split, contains, index, drop}
use eapol_operator.Api.{
  IfState, uninitialized, disabled, country_update, acs, ht_scan, dfs, enabled, unknown,
}
use eapol_operator.Host.{Host, Trace, Act}
use eapol_operator.Host.Actions.{pure, ◌>>=◌, ◌>>◌}
use eapol_operator.Hostap.Stats
use eapol_operator.Hostap.Monitor.{Monitor, Method, log_event}
use eapol_operator.Hostap.Status.{update_interface_status}
use eapol_operator.Hostap.Clients.{handle_authenticate_event, handle_de_authenticate_event}

abbrev pub newline : ℕ
newline = 10

abbrev pub status_reply : Str
status_reply = bytes "state="

-- `isSolicitedEvent`, over "PONG\n", "OK\n" and the status reply
unfoldable pub is_solicited_event : Str → Bool
is_solicited_event event =
    contains event (bytes "PONG" ++ newline ∷ [])
    || (contains event (bytes "OK" ++ newline ∷ []) || contains event status_reply)

-- A line `key=value`, or a key alone, is noted; a line with more parts is not.
note_part : List Str → Dict Str Str → Dict Str Str
note_part (key ∷ []) statuses = Dict.insert key [] statuses
note_part (key ∷ value ∷ []) statuses = Dict.insert key value statuses
note_part _ statuses = statuses

unfoldable pub collect_statuses : List Str → Dict Str Str → Dict Str Str
unfolding note_part
collect_statuses [] statuses = statuses
collect_statuses (line ∷ rest) statuses =
    collect_statuses rest (note_part (split b'=' line) statuses)

abbrev pub value_or_empty : Option Str → Str
value_or_empty none = []
value_or_empty (some v) = v

unfoldable pub state_named : Str → IfState
unfolding bytes_eq
state_named state =
    if state == bytes "UNINITIALIZED"
    then uninitialized
    else if state == bytes "DISABLED"
    then disabled
    else if state == bytes "COUNTRY_UPDATE"
    then country_update
    else if state == bytes "ACS"
    then acs
    else if state == bytes "HT_SCAN"
    then ht_scan
    else if state == bytes "DFS"
    then dfs
    else if state == bytes "ENABLED"
    then enabled
    else unknown

unfoldable pub get_if_state : Str → IfState
unfolding collect_statuses state_named split
get_if_state event =
    state_named
      (value_or_empty (Dict.lookup (bytes "state") (collect_statuses (split newline event) [])))

-- `s[strings.Index(s, ">")+1:]`
unfoldable pub event_key : Str → Str
unfolding index drop
event_key word = elim (index word b'>') [ none ↦ word | some i ↦ drop (suc i) word ]

pub data EventKey : Type 0 where
  sta_connected eap_success sta_disconnected eap_failure other : EventKey

-- The cases of the `switch`.
unfoldable pub key_of : Str → EventKey
unfolding bytes_eq
key_of key =
    if key == bytes "AP-STA-CONNECTED"
    then sta_connected
    else if key == bytes "CTRL-EVENT-EAP-SUCCESS"
    then eap_success
    else if key == bytes "AP-STA-DISCONNECTED"
    then sta_disconnected
    else if key == bytes "CTRL-EVENT-EAP-FAILURE"
    then eap_failure
    else other

module _ (h : Host) where
  pub on_event : EventKey → Str → Method
  on_event sta_connected addr m t = handle_authenticate_event h addr m t
  on_event eap_success addr m t = (
    ok tt,
    record m { stats = Stats.authenticated m.if_name m.stats },
    log_event h m.has_client (bytes "authenticated supplicant " ++ addr) t,
  )
  on_event sta_disconnected addr m t =
      handle_de_authenticate_event h addr
        (record m { stats = Stats.de_authenticated m.if_name m.stats })
        (log_event h m.has_client (bytes "deauthenticated supplicant " ++ addr) t)
  on_event eap_failure addr m t = (
    ok tt,
    record m { stats = Stats.auth_failed m.if_name m.stats },
    log_event h m.has_client (bytes "authentication failure for supplicant " ++ addr) t,
  )
  on_event other addr m t = (ok tt, m, t)

  -- The deferred `updateInterfaceStatus`; its error is logged.
  pub finish : Result (Unit {0}) × Monitor × Trace → Result (Unit {0}) × Monitor × Trace
  finish (r, m, t) = (r, m, (update_interface_status h m t).1)

  pub on_reply : Str → Method
  on_reply event m t =
      if is_solicited_event event
      then (if contains event status_reply
          then (let m' : Monitor = record m { if_eap_state = get_if_state event } in
              (ok tt, m', (update_interface_status h m' t).1))
          else (ok tt, m, t))
      else (ok tt, m, t)

  on_words : Str → List Str → Method
  unfolding on_event finish on_reply
  on_words event (key ∷ addr ∷ _) m t = finish (on_event (key_of (event_key key)) addr m t)
  on_words event _ m t = on_reply event m t

  unfoldable pub handle_hostapd_event : Str → Method
  unfolding on_words
  handle_hostapd_event event m t = on_words event (split 32 event) m t
