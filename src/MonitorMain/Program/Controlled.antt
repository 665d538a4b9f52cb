-- ===== src/MonitorMain/Program/Controlled.antt =====
-- Port-based control by the whole program, from its start to its exit.
use mathlib.Core.Path.{subst}
use eapol_operator.Base.{List, [], ◌∷◌, Str, ◌≡◌, refl, sym, ap, ◌∙◌, All, map, nat_eq}
use eapol_operator.Host.{Host, Trace}
use eapol_operator.Host.Views.{IsFaithful, IsObliging}
use eapol_operator.TrafficControl.Sriov.Kernel.{AllConfigured}
use eapol_operator.TrafficControl.Sriov.Others.{SameFor-refl, SameVfs-SameFor}
use eapol_operator.Hostap.Monitor.{Monitor}
use eapol_operator.Hostap.Clients.Invariant.{IsSound}
use eapol_operator.Hostap.Clients.Stopped.{own_vlan}
use eapol_operator.Hostap.Dispatch.Safety.{IsControlled, port_control}
use eapol_operator.Hostap.Dispatch.Safety
use eapol_operator.MonitorMain.{reset_interfaces}
use eapol_operator.MonitorMain.Shutdown.Released.{reset_all-IsQuiet}
use eapol_operator.MonitorMain.Program.{
  Slot, waiting, attaching, attached, running, closing, ending, stopped, disturbed, abandoned,
  absent, Program, exited, IsOver, Anything, Somewhere, here, there, Handles, while_attaching,
  while_attached, while_running, Move, handles, starts, is_signalled, stops_one, resets, begins,
  Runs, begun, goes_on,
}
use eapol_operator.MonitorMain.Program.Promise.{IsInControl, AreReleased, IsServed, IsGivenBack}
use eapol_operator.MonitorMain.Program.Kept.{
  slot_name, AreDistinct, IsClosing, IsKept, IsKept-SameFor, Somewhere-names, Somewhere-keeps,
}
use eapol_operator.MonitorMain.Program.Local.{Handles-IsLocal, Starts-IsLocal, Stops-IsLocal}

record IsValid (before : Trace) (ifaces : List Str) (p : Program) : Type 0 where
  names : map slot_name p.slots ≡ ifaces
  kept : All (IsKept before p.calls) p.slots
  over : p.phase ≡ exited → All IsOver p.slots

waiting_names : (ifaces : List Str) → map slot_name (map waiting ifaces) ≡ ifaces
waiting_names [] = refl
waiting_names (i ∷ is) = ap (◌∷◌ i) (waiting_names is)

waiting_kept : (ifaces : List Str) (t : Trace) → All (IsKept t t) (map waiting ifaces)
waiting_kept [] t = tt
waiting_kept (i ∷ is) t = (SameFor-refl t, waiting_kept is t)

module _ (h : Host) (faithful : IsFaithful h) (obliging : IsObliging h) (ifaces : List Str)
    (before : Trace) where
  over-Handles : {s s' : Slot} {t u : Trace} → Handles h s t s' u → IsOver s → ⊥
  over-Handles (while_attaching _) o = o
  over-Handles (while_attached _) o = o
  over-Handles (while_running _) o = o

  none-Handles :
      {slots slots' : List Slot} {t u : Trace}
      → Somewhere Anything (Handles h) slots t slots' u
      → All IsOver slots
      → ⊥
  none-Handles (here c) (o, _) = over-Handles c o
  none-Handles (there _ w) (_, os) = none-Handles w os

  reset_kept :
      (slots : List Slot) (t : Trace)
      → All (IsKept before t) slots
      → All (IsKept before (reset_interfaces h ifaces t).1) slots
  reset_kept [] t k = tt
  reset_kept (s ∷ slots) t (k, ks) = (
    IsKept-SameFor before s (SameVfs-SameFor ((reset_all-IsQuiet h ifaces).at t)) k,
    reset_kept slots t ks,
  )

  module _ (distinct : AreDistinct ifaces) where
    apart : (slots : List Slot) → map slot_name slots ≡ ifaces → AreDistinct (map slot_name slots)
    apart slots p = subst AreDistinct (sym p) distinct

    Move-IsValid :
        (p q : Program) → Move h ifaces p q → IsValid before ifaces p → IsValid before ifaces q
    Move-IsValid p q (handles {slots = slots} w) v = record {
      names = Somewhere-names before (Handles-IsLocal h faithful obliging before) w ∙ v.names;
      kept =
          Somewhere-keeps before (Handles-IsLocal h faithful obliging before) (apart slots v.names)
            w v.kept;
      over = λ e. absurd (none-Handles w (v.over e));
    }
    Move-IsValid _ _ (starts {slots = slots} w) v = record {
      names = Somewhere-names before (Starts-IsLocal h faithful obliging before) w ∙ v.names;
      kept =
          Somewhere-keeps before (Starts-IsLocal h faithful obliging before) (apart slots v.names) w
            v.kept;
      over = λ e. absurd cc;
    }
    Move-IsValid _ _ (is_signalled _) v = record {
      names = v.names;
      kept = v.kept;
      over = λ e. absurd cc;
    }
    Move-IsValid _ _ (stops_one {slots = slots} w) v = record {
      names = Somewhere-names before (Stops-IsLocal h faithful obliging before) w ∙ v.names;
      kept =
          Somewhere-keeps before (Stops-IsLocal h faithful obliging before) (apart slots v.names) w
            v.kept;
      over = λ e. absurd cc;
    }
    Move-IsValid _ _ (resets {slots = slots} {t = t} o) v = record {
      names = v.names;
      kept = reset_kept slots t v.kept;
      over = λ e. o;
    }

    Runs-IsValid :
        {p : Program} → Runs h ifaces (begins h ifaces before) p → IsValid before ifaces p
    Runs-IsValid begun = record {
      names = waiting_names ifaces;
      kept = waiting_kept ifaces before;
      over = λ e. absurd cc;
    }
    Runs-IsValid (goes_on {q = q} {r = r} runs move) = Move-IsValid q r move (Runs-IsValid runs)

  served-IsInControl :
      (m : Monitor) (t : Trace) → IsSound m × AllConfigured m.pf t → IsInControl m t
  served-IsInControl m t (s, a) =
      (s, λ i vf p. port_control h faithful obliging s a Safety.here i vf p)

  IsClosing-AreReleased : (m : Monitor) (t : Trace) → IsClosing m t → AreReleased m t
  IsClosing-AreReleased m t (a, r) i vf p =
      own_vlan h faithful obliging m.pf vf t r (a.configured i vf p)

  IsKept-IsServed : (s : Slot) (t : Trace) → IsKept before t s → IsServed before t s
  IsKept-IsServed (waiting i) t k = k
  IsKept-IsServed (attaching m) t k = served-IsInControl m t k
  IsKept-IsServed (attached m) t k = served-IsInControl m t k
  IsKept-IsServed (running m) t k = served-IsInControl m t k
  IsKept-IsServed (closing m) t k = IsClosing-AreReleased m t k
  IsKept-IsServed (ending m) t k = IsClosing-AreReleased m t k
  IsKept-IsServed (stopped m) t k = IsClosing-AreReleased m t k
  IsKept-IsServed (disturbed i) t k = k
  IsKept-IsServed (abandoned i) t k = k
  IsKept-IsServed (absent i) t k = k

  all-IsServed :
      (slots : List Slot) (t : Trace) → All (IsKept before t) slots → All (IsServed before t) slots
  all-IsServed [] t k = tt
  all-IsServed (s ∷ slots) t (k, ks) = (IsKept-IsServed s t k, all-IsServed slots t ks)

  over-IsGivenBack : (s : Slot) (t : Trace) → IsOver s → IsKept before t s → IsGivenBack before t s
  over-IsGivenBack (stopped m) t o k = IsClosing-AreReleased m t k
  over-IsGivenBack (disturbed i) t o k = o
  over-IsGivenBack (abandoned i) t o k = k
  over-IsGivenBack (absent i) t o k = k
  over-IsGivenBack (waiting i) t o k = o
  over-IsGivenBack (attaching m) t o k = o
  over-IsGivenBack (attached m) t o k = o
  over-IsGivenBack (running m) t o k = o
  over-IsGivenBack (closing m) t o k = o
  over-IsGivenBack (ending m) t o k = o

  all-IsGivenBack :
      (slots : List Slot) (t : Trace)
      → All IsOver slots
      → All (IsKept before t) slots
      → All (IsGivenBack before t) slots
  all-IsGivenBack [] t o k = tt
  all-IsGivenBack (s ∷ slots) t (o, os) (k, ks) =
      (over-IsGivenBack s t o k, all-IsGivenBack slots t os ks)

  -- For different interfaces, with a kernel that finds each link by its name and takes every VLAN
  -- and link state that it is given, and with the goroutines of all monitors, the start of further
  -- ones and the shutdown in any order that `Move` allows, whatever fails of the rest: until
  -- `StopMonitor` is called for a monitor, its port is open just when it has clients, and every VF of
  -- its PF has its own VLAN and follows its link if a client is authenticated and is on the reserved
  -- VLAN and disabled if none is; when `StopMonitor` has given the VFs back, every one has its own
  -- VLAN and follows the link of the PF, unless a handler of that monitor works during `StopMonitor`,
  -- of which nothing is said here; an interface that was not set up has its VFs as before.
  pub program_serves :
      (distinct : AreDistinct ifaces) (p : Program)
      → Runs h ifaces (begins h ifaces before) p
      → (map slot_name p.slots ≡ ifaces) × All (IsServed before p.calls) p.slots
  program_serves distinct p r =
      let v = Runs-IsValid distinct r in (v.names, all-IsServed p.slots p.calls v.kept)

  -- For different interfaces, with a kernel that finds each link by its name and takes every VLAN
  -- and link state that it is given, in whatever order that `Move` allows the goroutines of all
  -- monitors and `main` have run, and whatever has failed of the rest: when the program has exited,
  -- the monitor of each interface has been stopped, or it was not set up and has its VFs as before.
  -- Every VF of a stopped monitor has its own VLAN and follows the link of the PF, unless a handler
  -- of that monitor worked during its `StopMonitor`, of which nothing is said here.
  pub exit_gives_back :
      (distinct : AreDistinct ifaces) (p : Program)
      → Runs h ifaces (begins h ifaces before) p
      → p.phase ≡ exited
      → (map slot_name p.slots ≡ ifaces) × All (IsGivenBack before p.calls) p.slots
  exit_gives_back distinct p r e =
      let v = Runs-IsValid distinct r in
      (v.names, all-IsGivenBack p.slots p.calls (v.over e) v.kept)
