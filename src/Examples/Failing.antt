-- ===== src/Examples/Failing.antt =====
-- A machine on which the second VF cannot be set.
use eapol_operator.Base.{
  ℕ, [], ◌∷◌, bytes, some, ok, err, outside, ◌≡◌, ◌≢◌, refl, ◌∙◌, ap, In, inl, inr, arith, nat_eq,
  if◌then◌else◌, ◌==◌, sym,
}
use eapol_operator.Base.Dict
use eapol_operator.Host.{Host, Trace, temp_file, dial, done}
use eapol_operator.Host.Actions.{for_each}
use eapol_operator.Host.Views.{IsFaithful, once}
use eapol_operator.TrafficControl.Sriov.{
  VfInfo, get_sriov_pf_info, configure_vlan_state_for_vfs, configure_vlan_state,
}
use eapol_operator.TrafficControl.Sriov.Others.{SameFor-refl}
use eapol_operator.Hostap.Monitor.{Monitor, new_interface_monitor}
use eapol_operator.Hostap.Start.{start_monitor}
use eapol_operator.MonitorMain.Shutdown.{shutdown}
use eapol_operator.MonitorMain.Shutdown.LeftShut.{IsShut, FailsHalfway, start_monitor-IsShut}
use eapol_operator.Examples.{eth0, machine, faithful, fresh, fresh_pf}

abbrev picky : Host
picky = record machine { set_vf_vlan = λ l i v t. if i == 1 then err (outside 1) else ok tt }

picky_faithful : IsFaithful picky
picky_faithful = record {
  link_name = faithful.link_name;
  visits = λ t ks k. ((λ i. i), (λ i. i));
  visits_texts = λ t ks k. ((λ i. i), (λ i. i));
  retries = λ act t. once;
}

abbrev first_vf : VfInfo
first_vf = record { index = 0; vlan = 100 }

abbrev dialled : Trace
dialled = done dial ∷ done temp_file ∷ []

not_again : In {A = ℕ} 0 (1 ∷ []) → ⊥
not_again (inl p) = omega arith
not_again (inr i) = i

halfway : FailsHalfway picky (new_interface_monitor eth0) [] first_vf
unfolding new_interface_monitor get_sriov_pf_info configure_vlan_state_for_vfs configure_vlan_state
    for_each Dict.insert Dict.keys Dict.lookup nat_eq
halfway = record {
  file = bytes "/tmp/c";
  has_file = refl;
  connects = refl;
  pf = fresh_pf;
  found = (get_sriov_pf_info picky eth0 dialled).1;
  finds = refl;
  number = 0;
  others = 1 ∷ [];
  visits = refl;
  visits_once = not_again;
  has_vf = refl;
  sets = refl;
  reason = outside 1;
  left = (configure_vlan_state_for_vfs picky fresh_pf (get_sriov_pf_info picky eth0 dialled).1).1;
  fails = refl;
}

-- The other interface has a monitor.
abbrev idle : Monitor
idle = record fresh { if_name = bytes "e"; pf = record fresh.pf { name = bytes "e"; vfs = [] } }

names_differ : bytes "e" ≢ eth0
names_differ p = cc

only_idle : (k : Monitor) → In k (idle ∷ []) → k.pf.name ≢ eth0
only_idle k (inl e) q = names_differ (sym (ap (λ m. m.pf.name) e) ∙ q)
only_idle k (inr i) q = i

start_monitor-IsShut_example :
    (start_monitor picky 5 (new_interface_monitor eth0) []
      ≡ (some (err (outside 1)), new_interface_monitor eth0, halfway.left))
    × IsShut eth0 first_vf halfway.left
    × IsShut eth0 first_vf (shutdown picky (idle ∷ []) (eth0 ∷ bytes "e" ∷ []) halfway.left)
unfolding new_interface_monitor halfway
start_monitor-IsShut_example =
    start_monitor-IsShut picky picky_faithful (new_interface_monitor eth0) [] first_vf halfway 5
      (idle ∷ []) (eth0 ∷ bytes "e" ∷ []) halfway.left (SameFor-refl halfway.left) only_idle
