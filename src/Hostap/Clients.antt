-- ===== src/Hostap/Clients.antt =====
-- pkg/hostap/monitor.go: what authentication, link events and the passing of time do to the clients
-- of an interface.
pub mod Invariant
pub mod Timeouts
pub mod Guarded
pub mod Stopped
pub mod LinkDown
pub mod LateLeave
pub mod Others
use eapol_operator.Base.{
  ℕ, ◌+◌, ◌-◌, List, [], ◌∷◌, ◌++◌, Str, bytes, String, Bool, true, false, not, Option, none, some,
  Result, ok, err, if◌then◌else◌, ◌==◌, bytes_eq, ltb,
}
use eapol_operator.Base.Dict
use eapol_operator.Base.Dict.{Dict}
use eapol_operator.Host.{Host, Link, conn_close, OperState, oper_down, oper_up, Trace, Act}
use eapol_operator.Host.Actions.{pure, ◌>>=◌, ◌>>◌, perform}
use eapol_operator.TrafficControl.Sriov.{
  PfInfo, configure_vlan_state_for_vfs, handle_pf_event_for_vlan_change,
}
use eapol_operator.TrafficControl.Tc.{allow_traffic_from_mac, deny_traffic_from_mac}
use eapol_operator.Hostap.Monitor.{Monitor, Method, write_command, deauthenticate, log_event}

-- `int(2 * time.Second / time.Microsecond)`
abbrev pub request_timeout : ℕ
request_timeout = 2000000

pub OperState-discrete : Discrete OperState
OperState-discrete = hlevel

abbrev pub same_state : OperState → OperState → Bool
same_state a b = elim (OperState-discrete a b) [ yes _ ↦ true | no _ ↦ false ]

module _ (h : Host) where
  -- `m.PfInfo.AuthenticatedAddrs[addr] = nil; delete(m.deauthRequests, addr)`
  add_client : Str → Monitor → Monitor
  add_client addr m = record m {
    pf = record m.pf { authenticated_addrs = Dict.insert addr tt m.pf.authenticated_addrs };
    deauth_requests = Dict.erase addr m.deauth_requests;
  }

  -- `delete(m.PfInfo.AuthenticatedAddrs, addr); delete(m.deauthRequests, addr)`
  remove_client : Str → Monitor → Monitor
  remove_client addr m = record m {
    pf = record m.pf { authenticated_addrs = Dict.erase addr m.pf.authenticated_addrs };
    deauth_requests = Dict.erase addr m.deauth_requests;
  }

  with_pf : Monitor → Result (Unit {0}) × PfInfo × Trace → Result (Unit {0}) × Monitor × Trace
  with_pf m (r, pf, t) = (r, record m { pf = pf }, t)

  unfoldable pub handle_authenticate_event : Str → Method
  unfolding add_client with_pf
  handle_authenticate_event addr m t =
      let m' = add_client addr m in with_pf m' (allow_traffic_from_mac h m'.pf addr t)

  unfoldable pub handle_de_authenticate_event : Str → Method
  unfolding remove_client with_pf
  handle_de_authenticate_event addr m t =
      let m' = remove_client addr m in with_pf m' (deny_traffic_from_mac h m'.pf addr t)

  -- The loop for an interface that is down: each client is asked to leave, and its request noted.
  request_all : List Str → Dict Str ℕ → Trace → Dict Str ℕ × Trace
  request_all [] requests t = (requests, t)
  request_all (addr ∷ rest) requests t =
      let t' = (deauthenticate h addr t).1 in
      request_all rest (Dict.insert addr (h.now t') requests) t'

  -- The loop for an interface that is up.
  cancel_all : List Str → Dict Str ℕ → Dict Str ℕ
  cancel_all [] requests = requests
  cancel_all (addr ∷ rest) requests = cancel_all rest (Dict.erase addr requests)

  on_oper_state : OperState → Monitor → Trace → Monitor × Trace
  unfolding request_all cancel_all
  on_oper_state oper_down m t =
      let (requests, t') =
        request_all (h.range_texts t (Dict.keys m.pf.authenticated_addrs)) m.deauth_requests t in
      (
        record m { deauth_requests = requests },
        log_event h m.has_client (bytes "interface is down") t',
      )
  on_oper_state oper_up m t = (
    record m {
      deauth_requests =
          cancel_all (h.range_texts t (Dict.keys m.pf.authenticated_addrs)) m.deauth_requests;
    },
    log_event h m.has_client (bytes "interface is up") t,
  )
  on_oper_state _ m t = (m, t)

  unfoldable pub handle_pf_event_for_op_state_change : Link → Monitor → Trace → Monitor × Trace
  unfolding on_oper_state
  handle_pf_event_for_op_state_change link m t =
      let (m', t') = on_oper_state link.oper_state (record m { oper_state = link.oper_state }) t in
      (m', (write_command h (bytes "STATUS") t').1)

  -- An error is logged.
  unfoldable pub handle_pf_event_for_vf_vlan_change : Monitor → Trace → Monitor × Trace
  handle_pf_event_for_vf_vlan_change m t =
      let (_, pf, t') = handle_pf_event_for_vlan_change h m.pf t in (record m { pf = pf }, t')

  -- One round of `handleIfEvents`.
  unfoldable pub handle_if_event : Link → Monitor → Trace → Monitor × Trace
  unfolding handle_pf_event_for_op_state_change handle_pf_event_for_vf_vlan_change
  handle_if_event link m t =
      let (m', t') =
        if not (same_state link.oper_state m.oper_state)
        then handle_pf_event_for_op_state_change link m t
        else (m, t) in
      handle_pf_event_for_vf_vlan_change m' t'

  -- A request that has timed out: the client is gone, whatever `Deny` returns.
  drop_client : Str → Monitor → Trace → Monitor × Trace
  unfolding with_pf
  drop_client addr m t =
      let pf : PfInfo = record m.pf {
        authenticated_addrs = Dict.erase addr m.pf.authenticated_addrs;
      } in
      let (_, pf', t') = deny_traffic_from_mac h pf addr t in
      (record m { pf = pf'; deauth_requests = Dict.erase addr m.deauth_requests }, t')

  abbrev timestamp : Option ℕ → ℕ
  timestamp none = 0
  timestamp (some n) = n

  -- The loop over the requests; it ends at the first that has not timed out.
  timeout_loop : ℕ → List Str → Monitor → Trace → Monitor × Trace
  unfolding drop_client
  timeout_loop now [] m t = (m, t)
  timeout_loop now (addr ∷ rest) m t =
      let (m', t') = drop_client addr m t in
      let next = timeout_loop now rest m' t' in
      if ltb (now - timestamp (Dict.lookup addr m.deauth_requests)) request_timeout
      then (m, t)
      else next

  -- One round of `handleRequestsTimeout`.
  unfoldable pub handle_requests_timeout_round : Monitor → Trace → Monitor × Trace
  unfolding timeout_loop
  handle_requests_timeout_round m t =
      timeout_loop (h.now t) (h.range_texts t (Dict.keys m.deauth_requests)) m t

  restore : Monitor → Trace → Monitor × Trace
  restore m t =
      let pf : PfInfo = record m.pf { authenticated = true } in
      (record m { pf = pf }, (configure_vlan_state_for_vfs h pf t).1)

  -- `StopMonitor` up to `close(m.stop)`.
  unfoldable pub begin_stop : Monitor → Trace → Monitor × Trace
  unfolding restore
  begin_stop m t = if not m.pf.authenticated then restore m t else (m, t)

  -- `StopMonitor` where no goroutine takes a step in between; the link events are stopped by
  -- `Unsubscribe`, which the link handler models.
  unfoldable pub stop_monitor : Monitor → Trace → Monitor × Trace
  unfolding begin_stop
  stop_monitor m t = let (m', t') = begin_stop m t in (m', (perform conn_close h.close t').1)
