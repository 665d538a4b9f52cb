-- ===== src/Examples/Operator.antt =====
-- The theorems on what the operator makes of a resource and what the monitor reads, and on the
-- routing of link updates, applied to the example.
use eapol_operator.Base.{
  ℕ, List, [], ◌∷◌, bytes, true, some, ok, ◌≡◌, ◌≢◌, refl, arith, map, All, bytes_eq, nat_eq,
}
use eapol_operator.Base.Text.{is_space}
use eapol_operator.Base.Decimal.{pos}
use eapol_operator.Api.{AuthenticatorSpec, Authenticator}
use eapol_operator.Host.{oper_up}
use eapol_operator.Configgen.{
  monitor_container, daemonset, after_daemonset, disabled_selector, disabled_reason,
}
use eapol_operator.Configgen.Handover.{getenv, interfaces_handover, ports_lost}
use eapol_operator.Configgen.Labels.{selected, daemonset_nodes, enabled_kept}
use eapol_operator.MonitorMain.{parse_strings_args, parse_int_args}
use eapol_operator.MonitorMain.Arguments.{IsWord}
use eapol_operator.K8s.Clients.{get_client, event_recorder}
use eapol_operator.K8s.{returned, get_auth_namespaced_name}
use eapol_operator.K8s.Labels.{label_line}
use eapol_operator.K8s.Handover.{is_label-All, labels_handover}
use eapol_operator.Netlink.{Signal, subscribed, update, stop, handle_signals, start}
use eapol_operator.Netlink.Routing.{handle_signals_lem}
use eapol_operator.Base.{Str}
use eapol_operator.Base.Text.{split, trim_space, trim_left}
use eapol_operator.Base.Decimal.{ℤ, atoi}
use eapol_operator.Host.{Trace}
use eapol_operator.Host.Actions.{for_each, for_all}
use eapol_operator.TrafficControl.Sysfs.{get_associated_interfaces, get_sriov_vfs, is_sriov_pf}
use eapol_operator.TrafficControl.Init.{
  init_interface_for_eap_traffic, unprotect_ports, unprotect_ipv6_ports,
}
use eapol_operator.MonitorMain.{init_interfaces}
use eapol_operator.MonitorMain.Startup.{Environment, startup, prepared, exited}
use eapol_operator.MonitorMain.Startup.Refused.{startup_exits, startup_prepared}
use eapol_operator.Examples.{machine}
use eapol_operator.Examples.{eth0, spec, resource, link_of}

pub spec_words : All IsWord spec.interfaces
unfolding is_space nat_eq
spec_words = (
  ((λ p. cc), omega arith, (refl, (refl, (refl, (refl, tt))))),
  (((λ p. cc), omega arith, (refl, (refl, (refl, (refl, tt))))), tt),
)

interfaces_handover_example :
    parse_strings_args (some (getenv (bytes "IFACES") (monitor_container spec).env))
    ≡ eth0 ∷ bytes "eth1" ∷ []
interfaces_handover_example = interfaces_handover spec spec_words

abbrev two_ports : AuthenticatorSpec
two_ports = record spec {
  traffic_control =
      some (record { unprotected_ports = some (record { tcp = pos 53 ∷ pos 80 ∷ []; udp = [] }) });
}

ports_lost_example :
    parse_int_args (some (getenv (bytes "UNPROTECTED_TCP_PORTS") (monitor_container two_ports).env))
    ≢ ok (pos 53 ∷ pos 80 ∷ [])
ports_lost_example =
    ports_lost two_ports (record { tcp = pos 53 ∷ pos 80 ∷ []; udp = [] }) (pos 53) (pos 80) []
      (pos 53 ∷ pos 80 ∷ []) refl refl

daemonset_nodes_example :
    selected disabled_selector (daemonset resource (bytes "sa")).node_selector
    ≡ some disabled_reason
daemonset_nodes_example = unfold bytes_eq in daemonset_nodes resource (bytes "sa") disabled_selector

abbrev switched_on : Authenticator
switched_on = record resource { spec = record spec { enabled = true } }

enabled_kept_example : after_daemonset switched_on ≡ switched_on
enabled_kept_example = enabled_kept switched_on refl

labels_handover_example :
    get_auth_namespaced_name (ok (map label_line (daemonset resource (bytes "sa")).pod_labels))
    ≡ returned (ok (record { namespace = bytes "default"; name = bytes "auth" }))
labels_handover_example =
    labels_handover resource (bytes "sa")
      (is_label-All (bytes "default") (unfold is_space nat_eq in refl))
      (is_label-All (bytes "auth") (unfold is_space nat_eq in refl)) (λ p. cc) (λ p. cc)

-- Two monitors, whose channels are numbers.
abbrev signals : List (Signal ℕ)
signals =
    subscribed (some 1) (eth0 ∷ [])
    ∷ update (link_of oper_up eth0)
    ∷ subscribed (some 2) (eth0 ∷ [])
    ∷ update (link_of oper_up eth0)
    ∷ stop
    ∷ update (link_of oper_up eth0)
    ∷ []

handle_signals_example :
    (handle_signals signals start).sent ≡ (2, link_of oper_up eth0) ∷ (1, link_of oper_up eth0) ∷ []
handle_signals_example = unfold bytes_eq in handle_signals_lem signals

abbrev pub given : Str → Environment
given tcp = record {
  interfaces = bytes "eth0";
  unprotected_tcp_ports = tcp;
  unprotected_udp_ports = [];
  auth_key = returned (ok (record { namespace = bytes "default"; name = bytes "auth" }));
  clients = record {
    in_cluster_config = ok tt;
    add_to_scheme = ok tt;
    new_client = ok tt;
    new_for_config = ok tt;
  };
}

startup_exits_example :
    startup machine
      (given (getenv (bytes "UNPROTECTED_TCP_PORTS") (monitor_container two_ports).env))
      []
    ≡ (exited, [])
startup_exits_example =
    startup_exits machine
      (given (getenv (bytes "UNPROTECTED_TCP_PORTS") (monitor_container two_ports).env)) []
      two_ports (record { tcp = pos 53 ∷ pos 80 ∷ []; udp = [] }) (pos 53) (pos 80) [] refl refl
      refl

abbrev pub prepared_calls : Trace
prepared_calls = (startup machine (given (bytes "53")) []).1

pub startup-prepared_calls :
    startup machine (given (bytes "53")) [] ≡ (prepared (bytes "eth0" ∷ []), prepared_calls)
startup-prepared_calls =
    unfold startup get_client event_recorder init_interfaces parse_strings_args parse_int_args split
      trim_space trim_left is_space atoi nat_eq get_associated_interfaces get_sriov_vfs is_sriov_pf
      init_interface_for_eap_traffic unprotect_ports unprotect_ipv6_ports for_each for_all in
    refl

startup_prepared_example :
    (tcp : List ℤ) × (udp : List ℤ) × (parse_int_args (some (bytes "53")) ≡ ok tcp)
    × (parse_int_args (some []) ≡ ok udp)
    × (parse_strings_args (some (bytes "eth0")) ≡ bytes "eth0" ∷ [])
    × (init_interfaces machine (bytes "eth0" ∷ []) tcp udp [] ≡ (ok tt, prepared_calls))
startup_prepared_example =
    startup_prepared machine (given (bytes "53")) [] (bytes "eth0" ∷ []) prepared_calls
      startup-prepared_calls
