-- ===== src/MonitorMain/Startup/Refused.antt =====
-- When the monitor's program exits at its start, and what it has done when it goes on.
use eapol_operator.Base.{
  List, [], ◌∷◌, Str, bytes, some, Result, ok, err, ◌≡◌, ◌≢◌, refl, sym, ap, arith,
}
use eapol_operator.Base.Decimal.{ℤ}
use eapol_operator.Api.{Ports, AuthenticatorSpec}
use eapol_operator.Host.{Host, Trace}
use eapol_operator.Configgen.{monitor_container}
use eapol_operator.Configgen.Handover.{getenv, ports_lost}
use eapol_operator.K8s.Clients.{get_client, event_recorder}
use eapol_operator.K8s.{Outcome, returned, panicked}
use eapol_operator.MonitorMain.{parse_strings_args, parse_int_args, init_interfaces}
use eapol_operator.MonitorMain.Startup.{
  Environment, exited, prepared, prepare, with_clients, with_ports, with_interfaces, startup,
}

exited-ne-prepared : {ifaces : List Str} → exited ≢ prepared ifaces
exited-ne-prepared p = cc

module _ (h : Host) (env : Environment) (t : Trace) where
  ports_exit :
      (tcp udp : Result (List ℤ))
      → ((ports : List ℤ) → tcp ≢ ok ports)
      → with_ports h env tcp udp t ≡ (exited, t)
  unfolding with_ports
  ports_exit (ok tcp) udp lost = absurd (lost tcp refl)
  ports_exit (err e) udp lost = refl

  interfaces_exit :
      (s : Str)
      → ((ports : List ℤ) → parse_int_args (some env.unprotected_tcp_ports) ≢ ok ports)
      → with_interfaces h env s t ≡ (exited, t)
  unfolding with_interfaces
  interfaces_exit [] lost = refl
  interfaces_exit (c ∷ s) lost = ports_exit _ _ lost

  -- A monitor that the operator gives the text of two or more unprotected TCP ports exits at its
  -- start, before it has called anything: its interfaces are not prepared and no monitor starts.
  pub startup_exits :
      (spec : AuthenticatorSpec) (ports : Ports) (p q : ℤ) (rest : List ℤ)
      → env.unprotected_tcp_ports
        ≡ getenv (bytes "UNPROTECTED_TCP_PORTS") (monitor_container spec).env
      → spec.traffic_control ≡ some (record { unprotected_ports = some ports })
      → ports.tcp ≡ p ∷ q ∷ rest
      → startup h env t ≡ (exited, t)
  unfolding startup
  startup_exits spec ports p q rest same given two =
      interfaces_exit env.interfaces
        (λ read. rw same (ports_lost spec ports p q rest read given two))

  -- What a start that has succeeded has done.
  abbrev Prepared : List Str → Trace → Type 0
  Prepared ifaces u =
      (tcp : List ℤ) × (udp : List ℤ) × (parse_int_args (some env.unprotected_tcp_ports) ≡ ok tcp)
      × (parse_int_args (some env.unprotected_udp_ports) ≡ ok udp)
      × (parse_strings_args (some env.interfaces) ≡ ifaces)
      × (init_interfaces h ifaces tcp udp t ≡ (ok tt, u))

  prepared_run :
      (ifaces is : List Str) (run : Result (Unit {0}) × Trace) (u : Trace)
      → prepare is run ≡ (prepared ifaces, u)
      → (is ≡ ifaces) × (run ≡ (ok tt, u))
  unfolding prepare
  prepared_run ifaces is (ok _, v) u p = (ground arith, ground arith)
  prepared_run ifaces is (err e, v) u p = absurd (exited-ne-prepared (ap (λ r. r.0) p))

  clients_run :
      (is ifaces : List Str) (tcp udp : List ℤ) (o : Outcome) (c r : Result (Unit {0})) (u : Trace)
      → with_clients h env is tcp udp o c r t ≡ (prepared ifaces, u)
      → (is ≡ ifaces) × (init_interfaces h is tcp udp t ≡ (ok tt, u))
  unfolding with_clients
  clients_run is ifaces tcp udp (returned (ok key)) (ok _) (ok _) u p =
      prepared_run ifaces is (init_interfaces h is tcp udp t) u p
  clients_run is ifaces tcp udp (returned (ok key)) (ok _) (err e) u p =
      absurd (exited-ne-prepared (ap (λ r. r.0) p))
  clients_run is ifaces tcp udp (returned (ok key)) (err e) r u p =
      absurd (exited-ne-prepared (ap (λ r. r.0) p))
  clients_run is ifaces tcp udp (returned (err e)) c r u p =
      absurd (exited-ne-prepared (ap (λ r. r.0) p))
  clients_run is ifaces tcp udp panicked c r u p = absurd (exited-ne-prepared (ap (λ r. r.0) p))

  ports_run :
      (a b : Result (List ℤ)) (ifaces : List Str) (u : Trace)
      → parse_int_args (some env.unprotected_tcp_ports) ≡ a
      → parse_int_args (some env.unprotected_udp_ports) ≡ b
      → with_ports h env a b t ≡ (prepared ifaces, u)
      → Prepared ifaces u
  unfolding with_ports
  ports_run (ok tcp) (ok udp) ifaces u p q e =
      let (same, run) =
        clients_run (parse_strings_args (some env.interfaces)) ifaces tcp udp env.auth_key
          (get_client env.clients) (event_recorder env.clients) u e in
      (tcp, udp, p, q, same, rw (sym same) run)
  ports_run (ok tcp) (err f) ifaces u p q e = absurd (exited-ne-prepared (ap (λ r. r.0) e))
  ports_run (err f) b ifaces u p q e = absurd (exited-ne-prepared (ap (λ r. r.0) e))

  interfaces_run :
      (s : Str) (ifaces : List Str) (u : Trace)
      → with_interfaces h env s t ≡ (prepared ifaces, u)
      → Prepared ifaces u
  unfolding with_interfaces
  interfaces_run [] ifaces u e = absurd (exited-ne-prepared (ap (λ r. r.0) e))
  interfaces_run (c ∷ s) ifaces u e = ports_run _ _ ifaces u refl refl e

  -- The program goes on to its monitors only if both texts of ports could be read, and it has
  -- prepared, with these ports and without an error, the interfaces that it goes on with.
  pub startup_prepared :
      (ifaces : List Str) (u : Trace)
      → startup h env t ≡ (prepared ifaces, u)
      → (tcp : List ℤ) × (udp : List ℤ) × (parse_int_args (some env.unprotected_tcp_ports) ≡ ok tcp)
        × (parse_int_args (some env.unprotected_udp_ports) ≡ ok udp)
        × (parse_strings_args (some env.interfaces) ≡ ifaces)
        × (init_interfaces h ifaces tcp udp t ≡ (ok tt, u))
  unfolding startup
  startup_prepared ifaces u e = interfaces_run env.interfaces ifaces u e
