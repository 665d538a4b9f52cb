-- ===== src/MonitorMain/Program/Local.antt =====
-- A step for one interface keeps its part of the invariant, and leaves the PFs of the others alone.
use eapol_operator.Base.{bytes, Str, ◌∷◌, ◌≢◌, arith, bytes_eq, nat_eq, refl}
use eapol_operator.Host.Views.{vlan_of, state_of}
use eapol_operator.Host.{
  Host, Event, Trace, done, failed, link_set_vf_vlan, link_set_vf_state, link_by_name, look_path,
  run, stat, glob, read_dir, conn_write, conn_close, get_auth_object, update_status, record_event,
  temp_file, dial,
}
use eapol_operator.Host.Views.{IsFaithful, IsObliging}
use eapol_operator.Host.Quiet.{SameVfs, SameVfs-trans}
use eapol_operator.TrafficControl.Sriov.Kernel.{AllConfigured}
use eapol_operator.TrafficControl.Sriov.Others.{
  SameFor, SameVfs-SameFor, SameFor-refl, SameFor-trans,
}
use eapol_operator.TrafficControl.Tc.Port.{AllConfigured-SameVfs}
use eapol_operator.Hostap.Monitor.{Monitor, write_command, new_interface_monitor}
use eapol_operator.Hostap.Status.Quiet.{status-IsQuiet}
use eapol_operator.Hostap.Status.{update_interface_status}
use eapol_operator.Hostap.Clients.Guarded.{write_command-IsQuiet}
use eapol_operator.Hostap.Clients.Invariant.{IsSound}
use eapol_operator.Hostap.Clients.Stopped.{
  begin-AllConfigured, begin_stop-name, begin_stop-SameFor, conn_close-IsQuiet,
}
use eapol_operator.Hostap.Start.Established.{set_up_ok}
use eapol_operator.Hostap.Start.Others.{set_up-Spares, set_up-FailsQuietly, set_up-name}
use eapol_operator.Hostap.Dispatch.Safety.{Step, Step-IsSound, Step-AllConfigured}
use eapol_operator.Hostap.Dispatch.Others.{Step-IsContained}
use eapol_operator.MonitorMain.Program.{
  Slot, Handles, while_attaching, while_attached, while_running, Closes, closes, ends, Starts,
  sets_up, sets_up_not, attaches_again, attaches, attaches_not, gives_up, reports, Stops, stops,
  goes_on_stopping, meets, meets_late, makes_call, gives_in, attaches_not_alone, stops_not_alone,
  IsOwn,
}
use eapol_operator.MonitorMain.Program.Kept.{IsClosing-SameFor, IsLocal}

-- A call of one monitor leaves the VFs of the PFs of the others alone.
own-SameFor : (i o : Str) (e : Event) (t : Trace) → IsOwn i e → i ≢ o → SameFor o t (e ∷ t)
unfolding vlan_of state_of
own-SameFor i o (failed c) t own p = record { vlans = λ j. refl; states = λ j. refl }
own-SameFor i o (done (link_set_vf_vlan n j v)) t own p = record {
  vlans = λ k. ground (arith, own);
  states = λ k. refl;
}
own-SameFor i o (done (link_set_vf_state n j v)) t own p = record {
  vlans = λ k. refl;
  states = λ k. ground (arith, own);
}
own-SameFor i o (done (link_by_name _)) t own p = record { vlans = λ j. refl; states = λ j. refl }
own-SameFor i o (done (look_path _)) t own p = record { vlans = λ j. refl; states = λ j. refl }
own-SameFor i o (done (run _)) t own p = record { vlans = λ j. refl; states = λ j. refl }
own-SameFor i o (done (stat _)) t own p = record { vlans = λ j. refl; states = λ j. refl }
own-SameFor i o (done (glob _)) t own p = record { vlans = λ j. refl; states = λ j. refl }
own-SameFor i o (done (read_dir _)) t own p = record { vlans = λ j. refl; states = λ j. refl }
own-SameFor i o (done (conn_write _)) t own p = record { vlans = λ j. refl; states = λ j. refl }
own-SameFor i o (done conn_close) t own p = record { vlans = λ j. refl; states = λ j. refl }
own-SameFor i o (done get_auth_object) t own p = record { vlans = λ j. refl; states = λ j. refl }
own-SameFor i o (done (update_status _)) t own p = record { vlans = λ j. refl; states = λ j. refl }
own-SameFor i o (done (record_event _ _)) t own p = record { vlans = λ j. refl; states = λ j. refl }
own-SameFor i o (done temp_file) t own p = record { vlans = λ j. refl; states = λ j. refl }
own-SameFor i o (done dial) t own p = record { vlans = λ j. refl; states = λ j. refl }

module _ (h : Host) (faithful : IsFaithful h) (obliging : IsObliging h) (before : Trace) where
  Step-kept :
      {m : Monitor} {t : Trace} {n : Monitor} {u : Trace}
      → Step h m t n u
      → IsSound m × AllConfigured m.pf t
      → IsSound n × AllConfigured n.pf u
  Step-kept st (s, a) = (Step-IsSound h faithful st s, Step-AllConfigured h faithful obliging st a)

  pub Handles-IsLocal :
      (s : Slot) (t : Trace) (s' : Slot) (u : Trace) → Handles h s t s' u → IsLocal before s t s' u
  Handles-IsLocal _ t _ u (while_attaching st) =
      let c = Step-IsContained h faithful st in
      record { same_name = c.same_name; spares = c.spares; keeps = Step-kept st }
  Handles-IsLocal _ t _ u (while_attached st) =
      let c = Step-IsContained h faithful st in
      record { same_name = c.same_name; spares = c.spares; keeps = Step-kept st }
  Handles-IsLocal _ t _ u (while_running st) =
      let c = Step-IsContained h faithful st in
      record { same_name = c.same_name; spares = c.spares; keeps = Step-kept st }

  Closes-IsLocal :
      (s : Slot) (t : Trace) (s' : Slot) (u : Trace) → Closes h s t s' u → IsLocal before s t s' u
  Closes-IsLocal _ t _ _ (closes {m = m}) =
      let quiet = SameVfs-SameFor ((conn_close-IsQuiet h).at t) in
      record {
        same_name = refl;
        spares = λ o p. SameVfs-SameFor ((conn_close-IsQuiet h).at t);
        keeps = IsClosing-SameFor m quiet;
      }
  Closes-IsLocal _ t _ _ (ends {m = m}) = record {
    same_name = refl;
    spares = λ o p. SameFor-refl t;
    keeps = λ k. k;
  }
  Closes-IsLocal _ t _ _ (meets {m = m}) = record {
    same_name = refl;
    spares = λ o p. SameFor-refl t;
    keeps = λ k. tt;
  }
  Closes-IsLocal _ t _ _ (meets_late {m = m}) = record {
    same_name = refl;
    spares = λ o p. SameFor-refl t;
    keeps = λ k. tt;
  }
  Closes-IsLocal _ t _ _ (makes_call {i = i} e own) = record {
    same_name = refl;
    spares = λ o p. own-SameFor i o e t own p;
    keeps = λ k. tt;
  }
  Closes-IsLocal _ t _ _ gives_in = record {
    same_name = refl;
    spares = λ o p. SameFor-refl t;
    keeps = λ k. tt;
  }

  pub Stops-IsLocal :
      (s : Slot) (t : Trace) (s' : Slot) (u : Trace) → Stops h s t s' u → IsLocal before s t s' u
  Stops-IsLocal _ t _ _ (stops {m = m}) = record {
    same_name = begin_stop-name h m t;
    spares = λ o p. begin_stop-SameFor h faithful o m t p;
    keeps = λ k. begin-AllConfigured h faithful obliging m t k.1;
  }
  Stops-IsLocal _ t _ _ (stops_not_alone {m = m}) = record {
    same_name = refl;
    spares = λ o p. SameFor-refl t;
    keeps = λ k. tt;
  }
  Stops-IsLocal s t s' u (goes_on_stopping c) = Closes-IsLocal s t s' u c

  attach_quiet : (t : Trace) → SameVfs t (write_command h (bytes "ATTACH") t).1
  attach_quiet t = (write_command-IsQuiet h (bytes "ATTACH")).at t

  pub Starts-IsLocal :
      (s : Slot) (t : Trace) (s' : Slot) (u : Trace) → Starts h s t s' u → IsLocal before s t s' u
  unfolding new_interface_monitor
  Starts-IsLocal _ t _ _ (sets_up {i = i} {m = m} e) = record {
    same_name = set_up-name h (new_interface_monitor i) m t e;
    spares = λ o p. (set_up-Spares h faithful o (new_interface_monitor i) p).at t;
    keeps = λ _. let (sound, _, _, all, _) = set_up_ok h faithful _ m t e in (sound, all);
  }
  Starts-IsLocal _ t _ _ (sets_up_not {i = i} e) = record {
    same_name = refl;
    spares = λ o p. (set_up-Spares h faithful o (new_interface_monitor i) p).at t;
    keeps = λ k.
        SameFor-trans k
          (SameVfs-SameFor ((set_up-FailsQuietly h obliging (new_interface_monitor i)).at t _ e));
  }
  Starts-IsLocal _ t _ _ (attaches_again {m = m} e _) = record {
    same_name = refl;
    spares = λ o p. SameVfs-SameFor (attach_quiet t);
    keeps = λ k. (k.0, AllConfigured-SameVfs m.pf (attach_quiet t) k.1);
  }
  Starts-IsLocal _ t _ _ (attaches {m = m} e) = record {
    same_name = refl;
    spares = λ o p. SameVfs-SameFor (attach_quiet t);
    keeps = λ k. (k.0, AllConfigured-SameVfs m.pf (attach_quiet t) k.1);
  }
  Starts-IsLocal _ t _ _ (attaches_not {m = m} e _) =
      let u = (write_command h (bytes "ATTACH") t).1 in
      record {
        same_name = begin_stop-name h m u;
        spares = λ o p.
            SameFor-trans (SameVfs-SameFor (attach_quiet t))
              (begin_stop-SameFor h faithful o m u p);
        keeps = λ k.
            begin-AllConfigured h faithful obliging m u
              (AllConfigured-SameVfs m.pf (attach_quiet t) k.1);
      }
  Starts-IsLocal _ t _ _ (attaches_not_alone {m = m} e _) = record {
    same_name = refl;
    spares = λ o p. SameVfs-SameFor (attach_quiet t);
    keeps = λ k. tt;
  }
  Starts-IsLocal s t s' u (gives_up c) = Closes-IsLocal s t s' u c
  Starts-IsLocal _ t _ _ (reports {m = m}) =
      let quiet : SameVfs t (update_interface_status h m (write_command h (bytes "STATUS") t).1).1 =
        SameVfs-trans ((write_command-IsQuiet h (bytes "STATUS")).at t)
          ((status-IsQuiet h faithful m).at _) in
      record {
        same_name = refl;
        spares = λ o p. SameVfs-SameFor quiet;
        keeps = λ k. (k.0, AllConfigured-SameVfs m.pf quiet k.1);
      }
