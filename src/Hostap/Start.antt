-- ===== src/Hostap/Start.antt =====
-- `StartMonitor`. The steps of its goroutines are those of Dispatch/Safety; here it runs by itself.
pub mod Attach
pub mod Established
pub mod Others
use eapol_operator.Base.{
  ℕ, zero, suc, [], bytes, Option, none, some, Result, ok, err, if◌then◌else◌,
}
use eapol_operator.Host.{Host, temp_file, dial, Trace, Act}
use eapol_operator.Host.Actions.{pure, ◌>>=◌, ◌>>◌, perform}
use eapol_operator.TrafficControl.Sriov.{get_sriov_pf_info, configure_vlan_state_for_vfs}
use eapol_operator.Hostap.Monitor.{Monitor, write_command}
use eapol_operator.Hostap.Status.{update_interface_status}
use eapol_operator.Hostap.Clients.{stop_monitor}

module _ (h : Host) where
  -- Up to `m.PfInfo = pfInfo`: the socket, the PF, and its VFs shut.
  unfoldable pub set_up : Monitor → Act Monitor
  set_up m = do
    perform temp_file h.temp_name
    perform dial h.connect
    pf ← get_sriov_pf_info h m.if_name
    configure_vlan_state_for_vfs h pf
    pure (record m { pf = pf; deauth_requests = [] })

  unfoldable pub attach_next :
      Result (Unit {0})
      → (Trace → Option (Result (Unit {0})) × Trace)
      → Trace
      → Option (Result (Unit {0})) × Trace
  attach_next (ok _) again t = (some (ok tt), t)
  attach_next (err e) again t = if h.is_timeout e then again t else (some (err e), t)

  -- `attachHostapd`, with at most this many writes; `none` when all of them have timed out.
  unfoldable pub attach_hostapd : ℕ → Trace → Option (Result (Unit {0})) × Trace
  unfolding attach_next
  attach_hostapd zero t = (none, t)
  attach_hostapd (suc n) t =
      let (r, t') = write_command h (bytes "ATTACH") t in attach_next r (attach_hostapd n) t'

  -- What `StartMonitor` does after `attachHostapd`.
  unfoldable pub after_attach :
      Monitor → Option (Result (Unit {0})) × Trace → Option (Result (Unit {0})) × Monitor × Trace
  after_attach m (none, t) = (none, m, t)
  after_attach m (some (err e), t) = let (m', t') = stop_monitor h m t in (some (err e), m', t')
  after_attach m (some (ok _), t) =
      (some (ok tt), m, (update_interface_status h m (write_command h (bytes "STATUS") t).1).1)

  unfoldable pub after_set_up :
      ℕ → Monitor → Result Monitor × Trace → Option (Result (Unit {0})) × Monitor × Trace
  unfolding after_attach attach_hostapd
  after_set_up n m (err e, t) = (some (err e), m, t)
  after_set_up n m (ok m', t) = after_attach m' (attach_hostapd n t)

  unfoldable pub start_monitor : ℕ → Monitor → Trace → Option (Result (Unit {0})) × Monitor × Trace
  unfolding after_set_up set_up
  start_monitor n m t = after_set_up n m (set_up m t)
