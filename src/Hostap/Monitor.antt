-- ===== src/Hostap/Monitor.antt =====
-- pkg/hostap/monitor.go: the state of an `InterfaceMonitor` and what it says to hostapd and to the
-- API server. The handlers hold `addrMutex` while they change the state, so each is one step.
use eapol_operator.Base.{ℕ, [], ◌∷◌, ◌++◌, Str, bytes, Bool, true, false, Result, ok, err}
use eapol_operator.Base.Dict.{Dict}
use eapol_operator.Api.{Authenticator, IfState, unset}
use eapol_operator.Host.{
  Host, conn_write, get_auth_object, record_event, OperState, oper_unknown, Trace, Act,
}
use eapol_operator.Host.Actions.{pure, perform}
use eapol_operator.TrafficControl.Sriov.{PfInfo}
use eapol_operator.Hostap.Stats.{Stats}

-- `operState`, `ifEAPState` and `deauthRequests` are the source's; `has_client` is `Client != nil`.
pub record Monitor : Type 0 where
  pub if_name : Str
  pub has_client : Bool
  pub pf : PfInfo
  pub deauth_requests : Dict Str ℕ
  pub oper_state : OperState
  pub if_eap_state : IfState
  pub stats : Stats

-- `NewInterfaceMonitor` with the options that `main` gives. `PfInfo` is nil until `StartMonitor` and
-- not read before, so a PF without VFs stands for it; of the vectors of stats.go, a monitor reads and
-- writes the entry of its own interface only.
unfoldable pub new_interface_monitor : Str → Monitor
new_interface_monitor if_name = record {
  if_name = if_name;
  has_client = true;
  pf = record { name = if_name; authenticated = false; authenticated_addrs = []; vfs = [] };
  deauth_requests = [];
  oper_state = oper_unknown;
  if_eap_state = unset;
  stats = record { auth_success = []; auth_failed = [] };
}

-- A method: what it returns, and the monitor and the calls it leaves.
abbrev pub Method : Type 0
Method = Monitor → Trace → Result (Unit {0}) × Monitor × Trace

abbrev pub present : Result Authenticator → Bool
present (ok _) = true
present (err _) = false

module _ (h : Host) where
  unfoldable pub write_command : Str → Act (Unit {0})
  write_command command = perform (conn_write command) (h.write command)

  unfoldable pub deauthenticate : Str → Act (Unit {0})
  deauthenticate [] = pure tt
  deauthenticate (c ∷ addr) =
      perform (conn_write (bytes "DEAUTHENTICATE " ++ (c ∷ addr)))
        (h.write (bytes "DEAUTHENTICATE " ++ (c ∷ addr)))

  unfoldable pub get_auth : Act Authenticator
  get_auth = perform get_auth_object h.auth_object

  -- An event is recorded even if the resource could not be read.
  unfoldable pub log_event : Bool → Str → Trace → Trace
  unfolding get_auth
  log_event false message t = t
  log_event true message t =
      let (r, t') = get_auth t in
      (perform {A = Unit {0}} (record_event (present r) message) (λ _. ok tt) t').1
