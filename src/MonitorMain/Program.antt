-- ===== src/MonitorMain/Program.antt =====
-- monitor/main.go: the whole program from the start of the first monitor to its exit, with what the
-- goroutines of every monitor do meanwhile. A handler, a set-up and a call of a loop of `main` are one
-- step each; `StartMonitor` and `StopMonitor` are several, with handlers of all monitors in between.
pub mod Kept
pub mod Local
pub mod Promise
pub mod Controlled
pub mod Chain
pub mod Loops
pub mod Main
pub mod Resource
use eapol_operator.Base.{
  List, [], ◌∷◌, Str, bytes, Bool, true, false, Result, ok, err, ◌≡◌, All, map,
}
use eapol_operator.Host.{Host, Event, done, conn_close, link_set_vf_vlan, link_set_vf_state, Trace}
use eapol_operator.Host.Actions.{perform}
use eapol_operator.Hostap.Monitor.{Monitor, new_interface_monitor, write_command}
use eapol_operator.Hostap.Status.{update_interface_status}
use eapol_operator.Hostap.Clients.{begin_stop}
use eapol_operator.Hostap.Start.{set_up}
use eapol_operator.Hostap.Dispatch.Safety.{Step}
use eapol_operator.MonitorMain.{reset_interfaces}

-- How far an interface has come. The goroutines of a monitor run from its set-up on.
pub data Slot : Type 0 where
  -- its turn in the loop of `main` has not come
  waiting : Str → Slot
  -- in `attachHostapd`
  attaching : Monitor → Slot
  -- attached; `StartMonitor` has not returned
  attached : Monitor → Slot
  running : Monitor → Slot
  -- in `StopMonitor`, after a failed attach or at the end: its VFs have been given back
  closing : Monitor → Slot
  -- the connection to hostapd is closed, and the goroutines are waited for
  ending : Monitor → Slot
  -- `StopMonitor` has returned
  stopped : Monitor → Slot
  -- in `StopMonitor`, which holds no lock, while a handler of the same monitor works too
  disturbed : Str → Slot
  -- `StopMonitor` has returned after that
  abandoned : Str → Slot
  -- its set-up has failed
  absent : Str → Slot

-- What `main` does.
pub data Phase : Type 0 where
  starting stopping exited : Phase

pub record Program : Type 0 where
  pub phase : Phase
  pub slots : List Slot
  pub calls : Trace

-- `main` is done with the start of this interface.
abbrev pub IsSettled : Slot → Type 0
IsSettled (running m) = Unit
IsSettled (stopped m) = Unit
IsSettled (abandoned i) = Unit
IsSettled (absent i) = Unit
IsSettled _ = ⊥

-- No goroutine of this interface runs any more, or ever did.
abbrev pub IsOver : Slot → Type 0
IsOver (stopped m) = Unit
IsOver (abandoned i) = Unit
IsOver (absent i) = Unit
IsOver _ = ⊥

-- A change of one interface of the list, when all those before it are as `Before` says.
pub data Somewhere (Before : Slot → Type 0) (Change : Slot → Trace → Slot → Trace → Type 0)
    : List Slot → Trace → List Slot → Trace → Type 0 where
  here :
      {s : Slot} {t : Trace} {s' : Slot} {u : Trace} {slots : List Slot}
      → Change s t s' u
      → Somewhere Before Change (s ∷ slots) t (s' ∷ slots) u
  there :
      {s : Slot} {t : Trace} {slots slots' : List Slot} {u : Trace}
      → Before s
      → Somewhere Before Change slots t slots' u
      → Somewhere Before Change (s ∷ slots) t (s ∷ slots') u

abbrev pub Anything : Slot → Type 0
Anything s = Unit

-- A call that the monitor of this interface may make, with any answer: if it sets a VF, then one of
-- this PF.
abbrev pub IsOwn : Str → Event → Type 0
IsOwn i (done (link_set_vf_vlan n _ _)) = n ≡ i
IsOwn i (done (link_set_vf_state n _ _)) = n ≡ i
IsOwn i _ = Unit

module _ (h : Host) where
  -- The rest of `StopMonitor`. Once it has met a handler of its own monitor, the calls of the two come
  -- in any order, one by one, and nothing is said of them but that they are calls of this monitor.
  pub data Closes : Slot → Trace → Slot → Trace → Type 0 where
    closes :
        {m : Monitor} {t : Trace}
        → Closes (closing m) t (ending m) (perform {A = Unit {0}} conn_close h.close t).1
    ends : {m : Monitor} {t : Trace} → Closes (ending m) t (stopped m) t
    meets : {m : Monitor} {t : Trace} → Closes (closing m) t (disturbed m.pf.name) t
    meets_late : {m : Monitor} {t : Trace} → Closes (ending m) t (disturbed m.pf.name) t
    makes_call :
        {i : Str} {t : Trace} (e : Event) → IsOwn i e → Closes (disturbed i) t (disturbed i) (e ∷ t)
    gives_in : {i : Str} {t : Trace} → Closes (disturbed i) t (abandoned i) t

  -- `StartMonitor` of one interface, bit by bit.
  pub data Starts : Slot → Trace → Slot → Trace → Type 0 where
    sets_up :
        {i : Str} {t : Trace} {m : Monitor}
        → (set_up h (new_interface_monitor i) t).0 ≡ ok m
        → Starts (waiting i) t (attaching m) (set_up h (new_interface_monitor i) t).1
    sets_up_not :
        {i : Str} {t : Trace} {e : _}
        → (set_up h (new_interface_monitor i) t).0 ≡ err e
        → Starts (waiting i) t (absent i) (set_up h (new_interface_monitor i) t).1
    -- the write has timed out, and is made again
    attaches_again :
        {m : Monitor} {t : Trace} {e : _}
        → (write_command h (bytes "ATTACH") t).0 ≡ err e
        → h.is_timeout e ≡ true
        → Starts (attaching m) t (attaching m) (write_command h (bytes "ATTACH") t).1
    attaches :
        {m : Monitor} {t : Trace}
        → (write_command h (bytes "ATTACH") t).0 ≡ ok tt
        → Starts (attaching m) t (attached m) (write_command h (bytes "ATTACH") t).1
    attaches_not :
        {m : Monitor} {t : Trace} {e : _}
        → (write_command h (bytes "ATTACH") t).0 ≡ err e
        → h.is_timeout e ≡ false
        → Starts
            (attaching m)
            t
            (closing (begin_stop h m (write_command h (bytes "ATTACH") t).1).0)
            (begin_stop h m (write_command h (bytes "ATTACH") t).1).1
    -- the same, with a handler that comes while the VFs are given back
    attaches_not_alone :
        {m : Monitor} {t : Trace} {e : _}
        → (write_command h (bytes "ATTACH") t).0 ≡ err e
        → h.is_timeout e ≡ false
        → Starts (attaching m) t (disturbed m.pf.name) (write_command h (bytes "ATTACH") t).1
    gives_up : {s : Slot} {t : Trace} {s' : Slot} {u : Trace} → Closes s t s' u → Starts s t s' u
    reports :
        {m : Monitor} {t : Trace}
        → Starts
            (attached m)
            t
            (running m)
            (update_interface_status h m (write_command h (bytes "STATUS") t).1).1

  -- `StopMonitor` of one interface, bit by bit.
  pub data Stops : Slot → Trace → Slot → Trace → Type 0 where
    stops :
        {m : Monitor} {t : Trace}
        → Stops (running m) t (closing (begin_stop h m t).0) (begin_stop h m t).1
    -- a handler comes while the VFs are given back
    stops_not_alone : {m : Monitor} {t : Trace} → Stops (running m) t (disturbed m.pf.name) t
    goes_on_stopping :
        {s : Slot} {t : Trace} {s' : Slot} {u : Trace} → Closes s t s' u → Stops s t s' u

module _ (h : Host) where
  -- A handler of one monitor.
  pub data Handles : Slot → Trace → Slot → Trace → Type 0 where
    while_attaching :
        {m : Monitor} {t : Trace} {n : Monitor} {u : Trace}
        → Step h m t n u
        → Handles (attaching m) t (attaching n) u
    while_attached :
        {m : Monitor} {t : Trace} {n : Monitor} {u : Trace}
        → Step h m t n u
        → Handles (attached m) t (attached n) u
    while_running :
        {m : Monitor} {t : Trace} {n : Monitor} {u : Trace}
        → Step h m t n u
        → Handles (running m) t (running n) u

  -- One step of the program, which was started for these interfaces.
  pub data Move (ifaces : List Str) : Program → Program → Type 0 where
    -- a goroutine of any monitor
    handles :
        {p : Phase} {slots slots' : List Slot} {t u : Trace}
        → Somewhere Anything Handles slots t slots' u
        → Move ifaces
            (record { phase = p; slots = slots; calls = t })
            (record { phase = p; slots = slots'; calls = u })
    -- the loop that starts the monitors, in the order of the interfaces
    starts :
        {slots slots' : List Slot} {t u : Trace}
        → Somewhere IsSettled (Starts h) slots t slots' u
        → Move ifaces
            (record { phase = starting; slots = slots; calls = t })
            (record { phase = starting; slots = slots'; calls = u })
    -- a signal is waited for after the loop
    is_signalled :
        {slots : List Slot} {t : Trace}
        → All IsSettled slots
        → Move ifaces
            (record { phase = starting; slots = slots; calls = t })
            (record { phase = stopping; slots = slots; calls = t })
    -- the loop that stops them
    stops_one :
        {slots slots' : List Slot} {t u : Trace}
        → Somewhere IsOver (Stops h) slots t slots' u
        → Move ifaces
            (record { phase = stopping; slots = slots; calls = t })
            (record { phase = stopping; slots = slots'; calls = u })
    resets :
        {slots : List Slot} {t : Trace}
        → All IsOver slots
        → Move ifaces
            (record { phase = stopping; slots = slots; calls = t })
            (record { phase = exited; slots = slots; calls = (reset_interfaces h ifaces t).1 })

  -- The start of the loop, after these calls.
  abbrev pub begins : List Str → Trace → Program
  begins ifaces t = record { phase = starting; slots = map waiting ifaces; calls = t }

  pub data Runs (ifaces : List Str) (p : Program) : Program → Type 0 where
    begun : Runs ifaces p p
    goes_on : {q r : Program} → Runs ifaces p q → Move ifaces q r → Runs ifaces p r
