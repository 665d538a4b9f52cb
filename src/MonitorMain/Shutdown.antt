-- ===== src/MonitorMain/Shutdown.antt =====
-- monitor/main.go: the rest of `main`, the start of the monitors and what follows the signal.
pub mod Released
pub mod LeftShut
use eapol_operator.Base.{ℕ, List, [], ◌∷◌, Str, Option, none, some, Result, ok, err}
use eapol_operator.Host.{Host, Trace}
use eapol_operator.Hostap.Monitor.{Monitor, new_interface_monitor}
use eapol_operator.Hostap.Clients.{stop_monitor}
use eapol_operator.Hostap.Start.{start_monitor}
use eapol_operator.MonitorMain.{reset_interfaces}

-- A monitor that did not start is left out.
unfoldable pub with_started :
    Option (Result (Unit {0})) → Monitor → Option (List Monitor) → Option (List Monitor)
with_started none m rest = none
with_started (some (ok _)) m none = none
with_started (some (ok _)) m (some ms) = some (m ∷ ms)
with_started (some (err e)) m rest = rest

module _ (h : Host) where
  -- The loop over the interfaces; each attaching may write this often, and `none` is left where one
  -- of them has still not ended.
  unfoldable pub start_monitors : ℕ → List Str → Trace → Option (List Monitor) × Trace
  unfolding with_started
  start_monitors n [] t = (some [], t)
  start_monitors n (intf ∷ ifaces) t =
      let (r, m, t') = start_monitor h n (new_interface_monitor intf) t in
      let (rest, u) = start_monitors n ifaces t' in (with_started r m rest, u)

  -- The monitors are stopped one after the other, and then every interface is reset; an error is
  -- logged.
  unfoldable pub shutdown : List Monitor → List Str → Trace → Trace
  shutdown [] ifaces t = (reset_interfaces h ifaces t).1
  shutdown (m ∷ ms) ifaces t = shutdown ms ifaces (stop_monitor h m t).1
