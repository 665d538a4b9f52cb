-- ===== src/MonitorMain/Program/Resource.antt =====
-- From the resource to the kernel: the interfaces that the operator hands to the monitor's pod are
-- those that the program of the monitors serves.
use eapol_operator.Base.{List, Str, bytes, some, ◌≡◌, sym, ap, ◌∙◌, All, map}
use mathlib.Core.Path.{subst}
use eapol_operator.Api.{Authenticator}
use eapol_operator.Host.{Host, Trace}
use eapol_operator.Host.Views.{IsFaithful, IsObliging}
use eapol_operator.Configgen.{monitor_container}
use eapol_operator.Configgen.Handover.{getenv, interfaces_handover}
use eapol_operator.MonitorMain.{parse_strings_args}
use eapol_operator.MonitorMain.Arguments.{IsWord}
use eapol_operator.MonitorMain.Startup.{Environment, prepared, startup}
use eapol_operator.MonitorMain.Startup.Refused.{startup_prepared}
use eapol_operator.MonitorMain.Program.{Program, exited, begins, Runs}
use eapol_operator.MonitorMain.Program.Kept.{slot_name, AreDistinct}
use eapol_operator.MonitorMain.Program.Promise.{IsServed, IsGivenBack}
use eapol_operator.MonitorMain.Program.Controlled.{program_serves, exit_gives_back}

module _ (h : Host) (env : Environment) (a : Authenticator) (t : Trace) where
  -- The environment of the program is that of the monitor's container.
  abbrev pub IsOfResource : Type 0
  IsOfResource = env.interfaces ≡ getenv (bytes "IFACES") (monitor_container a.spec).env

  prepared_interfaces :
      (ifaces : List Str) (u : Trace)
      → IsOfResource
      → All IsWord a.spec.interfaces
      → startup h env t ≡ (prepared ifaces, u)
      → a.spec.interfaces ≡ ifaces
  prepared_interfaces ifaces u given words started =
      let (_, _, _, _, read, _) = startup_prepared h env t ifaces u started in
      sym (interfaces_handover a.spec words)
      ∙ ap (λ s. parse_strings_args (some s)) (sym given)
      ∙ read

  module _ (faithful : IsFaithful h) (obliging : IsObliging h) where
    -- The program runs in a pod of the DaemonSet, so its interfaces come from the resource. If their
    -- names are different and have no comma and no white space, and the kernel finds each link by its
    -- name and takes every VLAN and link state that it is given: whenever the program has come through
    -- its start, and in whatever order that `Move` allows `main` and the goroutines have run, exactly
    -- the interfaces of the resource are served. Until `StopMonitor` is called for a monitor, its port
    -- is open just when it has clients and the VFs follow the port; when the VFs have been given back
    -- they have their own VLAN and follow the link of the PF, unless a handler of that monitor works
    -- during `StopMonitor`; those of an interface that was not set up are as they were. And when the
    -- program has exited, no monitor is left that has not been stopped.
    pub resource-IsServed :
        (ifaces : List Str) (u : Trace) (p : Program)
        → env.interfaces ≡ getenv (bytes "IFACES") (monitor_container a.spec).env
        → All IsWord a.spec.interfaces
        → AreDistinct a.spec.interfaces
        → startup h env t ≡ (prepared ifaces, u)
        → Runs h ifaces (begins h ifaces u) p
        → (map slot_name p.slots ≡ a.spec.interfaces)
          × All (IsServed u p.calls) p.slots
          × (p.phase ≡ exited → All (IsGivenBack u p.calls) p.slots)
    resource-IsServed ifaces u p given words distinct started runs =
        let same = prepared_interfaces ifaces u given words started in
        let apart = subst AreDistinct same distinct in
        let (names, served) = program_serves h faithful obliging ifaces u apart p runs in
        (
          names ∙ sym same,
          served,
          λ e. (exit_gives_back h faithful obliging ifaces u apart p runs e).1,
        )
