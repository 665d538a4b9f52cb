-- ===== src/MonitorMain/Program/Promise.antt =====
-- What the program promises for each interface, while it runs and at its exit.
use eapol_operator.Base.{ℕ, some, ◌≡◌, nat_eq}
use eapol_operator.Base.Dict
use eapol_operator.Host.{Trace}
use eapol_operator.TrafficControl.Sriov.{VfInfo}
use eapol_operator.TrafficControl.Sriov.Others.{SameFor}
use eapol_operator.Hostap.Monitor.{Monitor}
use eapol_operator.Hostap.Clients.Invariant.{IsSound}
use eapol_operator.Hostap.Clients.Stopped.{IsReleased}
use eapol_operator.Hostap.Dispatch.Safety.{IsControlled}
use eapol_operator.MonitorMain.Program.{
  Slot, waiting, attaching, attached, running, closing, ending, stopped, disturbed, abandoned,
  absent,
}

-- The port of a monitor follows its clients, and the VFs of its PF follow the port.
abbrev pub IsInControl : Monitor → Trace → Type 0
IsInControl m t =
    IsSound m × ((i : ℕ) (vf : VfInfo) → Dict.lookup i m.pf.vfs ≡ some vf → IsControlled m vf t)

-- The VFs have been given back.
abbrev pub AreReleased : Monitor → Trace → Type 0
AreReleased m t = (i : ℕ) (vf : VfInfo) → Dict.lookup i m.pf.vfs ≡ some vf → IsReleased m.pf vf t

-- What is promised for an interface: its monitor is in control until `StopMonitor` is called; when
-- this has given the VFs back they stay so, and nothing is promised if it meets a handler of its
-- monitor; without a monitor, the VFs are as they were when the program had made the calls `before`.
abbrev pub IsServed : Trace → Trace → Slot → Type 0
IsServed before t (attaching m) = IsInControl m t
IsServed before t (attached m) = IsInControl m t
IsServed before t (running m) = IsInControl m t
IsServed before t (closing m) = AreReleased m t
IsServed before t (ending m) = AreReleased m t
IsServed before t (stopped m) = AreReleased m t
IsServed before t (disturbed i) = Unit
IsServed before t (abandoned i) = Unit
IsServed before t (waiting i) = SameFor i before t
IsServed before t (absent i) = SameFor i before t

-- What is left of an interface at the exit.
abbrev pub IsGivenBack : Trace → Trace → Slot → Type 0
IsGivenBack before t (stopped m) = AreReleased m t
IsGivenBack before t (abandoned i) = Unit
IsGivenBack before t (absent i) = SameFor i before t
IsGivenBack before t _ = ⊥
