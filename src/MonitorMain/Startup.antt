-- ===== src/MonitorMain/Startup.antt =====
-- monitor/main.go: `main` up to the start of the monitors. The flags have the values of the
-- environment.
pub mod Refused
use eapol_operator.Base.{ℕ, List, [], ◌∷◌, Str, Option, some, Result, ok, err}
use eapol_operator.Base.Decimal.{ℤ}
use eapol_operator.Host.{Host, Trace}
use eapol_operator.K8s.Clients.{ClientGo, get_client, event_recorder}
use eapol_operator.K8s.{Outcome, returned, panicked}
use eapol_operator.MonitorMain.{parse_strings_args, parse_int_args, init_interfaces}

pub record Environment : Type 0 where
  pub interfaces : Str
  pub unprotected_tcp_ports : Str
  pub unprotected_udp_ports : Str
  -- what `GetAuthNamespacedName` does
  pub auth_key : Outcome
  pub clients : ClientGo

-- The program has exited, or goes on to its monitors for these interfaces.
pub data Startup : Type 0 where
  exited : Startup
  prepared : List Str → Startup

prepare : List Str → Result (Unit {0}) × Trace → Startup × Trace
prepare ifaces (ok _, t) = (prepared ifaces, t)
prepare ifaces (err e, t) = (exited, t)

module _ (h : Host) (env : Environment) where
  with_clients :
      List Str
      → List ℤ
      → List ℤ
      → Outcome
      → Result (Unit {0})
      → Result (Unit {0})
      → Trace
      → Startup × Trace
  unfolding prepare init_interfaces
  with_clients ifaces tcp udp (returned (ok key)) (ok _) (ok _) t =
      prepare ifaces (init_interfaces h ifaces tcp udp t)
  with_clients ifaces tcp udp auth client recorder t = (exited, t)

  with_ports : Result (List ℤ) → Result (List ℤ) → Trace → Startup × Trace
  unfolding with_clients get_client event_recorder
  with_ports (ok tcp) (ok udp) t =
      with_clients (parse_strings_args (some env.interfaces)) tcp udp env.auth_key
        (get_client env.clients) (event_recorder env.clients) t
  with_ports tcp udp t = (exited, t)

  with_interfaces : Str → Trace → Startup × Trace
  unfolding with_ports
  with_interfaces [] t = (exited, t)
  with_interfaces (c ∷ s) t =
      with_ports (parse_int_args (some env.unprotected_tcp_ports))
        (parse_int_args (some env.unprotected_udp_ports)) t

  unfoldable pub startup : Trace → Startup × Trace
  unfolding with_interfaces
  startup t = with_interfaces env.interfaces t
