-- ===== src/Examples/Programs.antt =====
-- The theorems on the whole program of the monitors, applied to the example.
use eapol_operator.Base.{
  List, [], ◌∷◌, Str, bytes, ok, ◌≡◌, ◌≢◌, ◌∙◌, refl, All, map, In, inl, inr, nat_eq, bytes_eq,
}
use eapol_operator.Base.Dict
use eapol_operator.Host.{Trace}
use eapol_operator.Host.Actions.{for_each}
use eapol_operator.TrafficControl.Sriov.{
  get_sriov_pf_info, configure_vlan_state_for_vfs, configure_vlan_state,
}
use eapol_operator.Hostap.Monitor.{Monitor, write_command, new_interface_monitor}
use eapol_operator.Hostap.Start.{set_up}
use eapol_operator.Hostap.Dispatch.{sta_connected, handle_hostapd_event}
use eapol_operator.Hostap.Dispatch.Messages.{message_text}
use eapol_operator.Hostap.Dispatch.Safety.{message}
use eapol_operator.Hostap.Status.{update_interface_status}
use eapol_operator.Hostap.Clients.{stop_monitor}
use eapol_operator.MonitorMain.{reset_interfaces}
use eapol_operator.MonitorMain.Startup
use eapol_operator.Examples.Operator.{given, spec_words, prepared_calls, startup-prepared_calls}
use eapol_operator.MonitorMain.Arguments.{IsWord}
use eapol_operator.MonitorMain.Program.Resource.{resource-IsServed}
use eapol_operator.Configgen.{monitor_container}
use eapol_operator.Api.{Authenticator}
use eapol_operator.Base.{bytes_eq}
use eapol_operator.Base.Text.{join}
use eapol_operator.MonitorMain.Program.{
  waiting, attaching, Program, starting, exited, Runs, begun, goes_on, begins, here, sets_up,
  attaches, reports, while_attaching, starts, handles, is_signalled, stops_one, stops,
  goes_on_stopping, closes, ends, resets, stopped,
}
use eapol_operator.MonitorMain.Program.Kept.{slot_name, AreDistinct}
use eapol_operator.MonitorMain.Program.Promise.{IsServed, IsGivenBack}
use eapol_operator.MonitorMain.Program.Controlled.{program_serves, exit_gives_back}
use eapol_operator.Examples.{eth0, mac, resource, spec, machine, faithful, obliging, fresh}

abbrev eth1 : Str
eth1 = bytes "e"

abbrev ifaces : List Str
ifaces = eth0 ∷ eth1 ∷ []

names_differ : eth0 ≢ eth1
names_differ p = cc

two_names : (o : Str) → In o (eth1 ∷ []) → eth0 ≢ o
two_names o (inl e) p = names_differ (p ∙ e)
two_names o (inr i) p = i

ifaces-AreDistinct : AreDistinct ifaces
ifaces-AreDistinct = (two_names, ((λ o i. absurd i), tt))

-- The monitor of `eth0` is set up, and a client connects while it attaches.
abbrev first : Monitor
first = record fresh {
  oper_state = (new_interface_monitor eth0).oper_state;
  if_eap_state = (new_interface_monitor eth0).if_eap_state;
}

abbrev first_calls : Trace
first_calls = (set_up machine (new_interface_monitor eth0) []).1

abbrev connected : Str
connected = message_text (bytes "<3") sta_connected mac

abbrev in_use : Program
in_use = record {
  phase = starting;
  slots =
      attaching (handle_hostapd_event machine connected first first_calls).1 ∷ waiting eth1 ∷ [];
  calls = (handle_hostapd_event machine connected first first_calls).2;
}

first-set_up : (t : Trace) → (set_up machine (new_interface_monitor eth0) t).0 ≡ ok first
first-set_up t =
    unfold new_interface_monitor set_up get_sriov_pf_info configure_vlan_state_for_vfs
      configure_vlan_state for_each Dict.insert Dict.keys Dict.lookup nat_eq in
    refl

in_use-Runs : Runs machine ifaces (begins machine ifaces []) in_use
in_use-Runs =
    goes_on (goes_on begun (starts (here (sets_up (first-set_up [])))))
      (handles (here (while_attaching (message connected))))

program_serves_example :
    (map slot_name in_use.slots ≡ ifaces) × All (IsServed [] in_use.calls) in_use.slots
program_serves_example =
    program_serves machine faithful obliging ifaces [] ifaces-AreDistinct in_use in_use-Runs

-- One monitor, from its set-up to the exit.
abbrev attach_calls : Trace
attach_calls = (write_command machine (bytes "ATTACH") first_calls).1

abbrev served_calls : Trace
served_calls =
    (update_interface_status machine first
      (write_command machine (bytes "STATUS") attach_calls).1).1

abbrev stop_calls : Trace
stop_calls = (stop_monitor machine first served_calls).1

abbrev gone : Program
gone = record {
  phase = exited;
  slots = stopped (stop_monitor machine first served_calls).0 ∷ [];
  calls = (reset_interfaces machine (eth0 ∷ []) stop_calls).1;
}

attach_ok : (write_command machine (bytes "ATTACH") first_calls).0 ≡ ok tt
attach_ok = unfold write_command in refl

gone-Runs : Runs machine (eth0 ∷ []) (begins machine (eth0 ∷ []) []) gone
unfolding stop_monitor
gone-Runs =
    goes_on
      (goes_on
        (goes_on
          (goes_on
            (goes_on
              (goes_on
                (goes_on (goes_on begun (starts (here (sets_up (first-set_up [])))))
                  (starts (here (attaches attach_ok))))
                (starts (here reports)))
              (is_signalled (tt, tt)))
            (stops_one (here stops)))
          (stops_one (here (goes_on_stopping closes))))
        (stops_one (here (goes_on_stopping ends))))
      (resets (tt, tt))

exit_gives_back_example :
    (map slot_name gone.slots ≡ eth0 ∷ []) × All (IsGivenBack [] gone.calls) gone.slots
exit_gives_back_example =
    exit_gives_back machine faithful obliging (eth0 ∷ []) [] ((λ o i. absurd i), tt) gone gone-Runs
      refl

-- The resource with one interface, and the program in its pod.
abbrev single : Authenticator
single = record resource { spec = record spec { interfaces = eth0 ∷ [] } }

single-IsWord : All IsWord single.spec.interfaces
single-IsWord = (spec_words.0, tt)

abbrev set_up_calls : Trace
set_up_calls = (set_up machine (new_interface_monitor eth0) prepared_calls).1

abbrev set_up_done : Program
set_up_done = record { phase = starting; slots = attaching first ∷ []; calls = set_up_calls }

resource-IsServed_example :
    (map slot_name set_up_done.slots ≡ eth0 ∷ [])
    × All (IsServed prepared_calls set_up_calls) set_up_done.slots
    × (set_up_done.phase ≡ exited → All (IsGivenBack prepared_calls set_up_calls) set_up_done.slots)
resource-IsServed_example =
    resource-IsServed machine (given (bytes "53")) single [] faithful obliging (eth0 ∷ [])
      prepared_calls set_up_done (unfold monitor_container bytes_eq join in refl) single-IsWord
      ((λ o i. absurd i), tt) startup-prepared_calls
      (goes_on begun (starts (here (sets_up (first-set_up prepared_calls)))))
