-- ===== src/Hostap/Dispatch/Lifecycle.antt =====
-- A monitor from its set-up through any run to its end.
use eapol_operator.Base.{ℕ, some, ok, ◌≡◌, nat_eq}
use eapol_operator.Base.Dict
use eapol_operator.Host.{Host, Trace}
use eapol_operator.Host.Views.{IsFaithful, IsObliging}
use eapol_operator.TrafficControl.Sriov.{VfInfo}
use eapol_operator.Hostap.Monitor.{Monitor}
use eapol_operator.Hostap.Clients.{stop_monitor}
use eapol_operator.Hostap.Clients.Stopped.{IsReleased, stop_releases}
use eapol_operator.Hostap.Start.{set_up}
use eapol_operator.Hostap.Start.Established.{set_up_ok}
use eapol_operator.Hostap.Dispatch.Safety.{Reach, Reach-AllConfigured}

-- A monitor is set up, runs in any way, and is stopped; the kernel takes what it is given. Then
-- every VF of its PF has its own VLAN and follows the link of the PF, whether or not a client was
-- authenticated.
stop_restores :
    (h : Host) (faithful : IsFaithful h) (obliging : IsObliging h) (m n : Monitor) (t : Trace)
    {o : Monitor} {v : Trace}
    → (set_up h m t).0 ≡ ok n
    → Reach h n (set_up h m t).1 o v
    → (i : ℕ) (vf : VfInfo) → Dict.lookup i o.pf.vfs ≡ some vf
    → IsReleased o.pf vf (stop_monitor h o v).1
stop_restores h faithful obliging m n t {o} {v} p r i vf q =
    stop_releases h faithful obliging o v
      (Reach-AllConfigured h faithful obliging (set_up_ok h faithful m n t p).3 r) i vf q
