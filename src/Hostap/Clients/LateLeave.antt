-- ===== src/Hostap/Clients/LateLeave.antt =====
-- `StopMonitor` gives the VFs back before its goroutines have ended, and without `addrMutex`: here a
-- client leaves in between.
use eapol_operator.Base.{
  ℕ, [], ◌∷◌, Str, false, some, Result, ok, err, ◌≡◌, ◌∙◌, arith, bytes_eq, nat_eq,
}
use eapol_operator.Base.Dict
use eapol_operator.Host.{Host, Trace, state_disable, conn_close}
use eapol_operator.Host.Actions.{note, perform}
use eapol_operator.Host.Views.{IsFaithful, IsObliging, vlan_of, state_of}
use eapol_operator.TrafficControl.Sriov.{VfInfo, PfInfo, reserved_vlan}
use eapol_operator.TrafficControl.Sriov.Kernel.{AllConfigured, IsConfigured}
use eapol_operator.TrafficControl.Tc.Port.{pf-deny}
use eapol_operator.Hostap.Monitor.{Monitor}
use eapol_operator.Hostap.Clients.{restore, begin_stop, handle_de_authenticate_event}
use eapol_operator.Hostap.Clients.Stopped.{begin-AllConfigured}
use eapol_operator.Hostap.Clients.Guarded.{de_authenticate-AllConfigured}

-- The VF is on the reserved VLAN, and its link is disabled.
abbrev pub IsShut : PfInfo → VfInfo → Trace → Type 0
IsShut pf vf t =
    (vlan_of pf.name vf.index t ≡ some reserved_vlan)
    × (state_of pf.name vf.index t ≡ some state_disable)

module _ (h : Host) where
  -- `StopMonitor` with the handling of the message that a client has left, after `close(m.stop)` and
  -- before the socket is closed.
  abbrev pub stop_late : Str → Monitor → Trace → Monitor × Trace
  stop_late addr m t =
      let (n, u) = begin_stop h m t in
      let (_, o, v) = handle_de_authenticate_event h addr n u in
      (o, (perform conn_close h.close v).1)

  begin_keeps :
      (m : Monitor) (t : Trace)
      → (begin_stop h m t).0.pf.authenticated_addrs ≡ m.pf.authenticated_addrs
  unfolding begin_stop restore
  begin_keeps m t = ground arith

  closed_keeps :
      (pf : PfInfo) (vf : VfInfo) (t : Trace) (r : Result (Unit {0}))
      → IsConfigured pf vf t
      → IsConfigured pf vf (note conn_close r ∷ t)
  unfolding vlan_of state_of
  closed_keeps pf vf t (ok _) p = p
  closed_keeps pf vf t (err e) p = p

  left_alone :
      (addr : Str) (m : Monitor) (t : Trace)
      → m.pf.authenticated_addrs ≡ (addr, tt) ∷ []
      → (handle_de_authenticate_event h addr m t).1.pf.authenticated ≡ false
  unfolding handle_de_authenticate_event Dict.erase
  left_alone addr m t p = rw (pf-deny) (ground (arith, p))

  authenticated-IsShut :
      (pf : PfInfo) (vf : VfInfo) (t : Trace)
      → pf.authenticated ≡ false
      → IsConfigured pf vf t
      → IsShut pf vf t
  authenticated-IsShut pf vf t p (v, s) = (v ∙ ground (arith, p), s ∙ ground (arith, p))

  -- The VFs of a monitor with one client are set up, and the kernel takes what it is given. If the
  -- message that this client has left is handled after `StopMonitor` has looked at the port, then
  -- every VF is on the reserved VLAN and disabled when the socket has been closed.
  pub stop_late_shuts :
      (faithful : IsFaithful h) (obliging : IsObliging h) (addr : Str) (m : Monitor) (t : Trace)
      → AllConfigured m.pf t
      → m.pf.authenticated_addrs ≡ (addr, tt) ∷ []
      → (i : ℕ) (vf : VfInfo) → Dict.lookup i (stop_late addr m t).0.pf.vfs ≡ some vf
      → IsShut (stop_late addr m t).0.pf vf (stop_late addr m t).1
  stop_late_shuts faithful obliging addr m t a one i vf p =
      let (n, u) = begin_stop h m t in
      let (_, o, v) = handle_de_authenticate_event h addr n u in
      let all =
        de_authenticate-AllConfigured h faithful obliging addr n u
          (begin-AllConfigured h faithful obliging m t a).0 in
      authenticated-IsShut o.pf vf _ (left_alone addr n u (begin_keeps m t ∙ one))
        (closed_keeps o.pf vf v (h.close v) (all.configured i vf p))
