-- ===== src/MonitorMain/Shutdown/Released.antt =====
-- What the shutdown leaves in the kernel.
use mathlib.Core.Path.{subst}
use eapol_operator.Base.{
  ℕ, List, [], ◌∷◌, Str, some, ◌≡◌, ◌≢◌, refl, sym, ap, ◌∙◌, In, inl, inr, nat_eq,
}
use eapol_operator.Base.Dict
use eapol_operator.Host.{Host, Trace}
use eapol_operator.Host.Views.{IsFaithful, IsObliging}
use eapol_operator.Host.Quiet.{IsQuiet, quiet_rules}
use eapol_operator.TrafficControl.Sriov.{PfInfo, VfInfo}
use eapol_operator.TrafficControl.Sriov.Kernel.{AllConfigured}
use eapol_operator.TrafficControl.Sriov.Others.{
  SameFor, SameFor-trans, SameVfs-SameFor, AllConfigured-SameFor,
}
use eapol_operator.TrafficControl.Sysfs.Quiet.{get_associated_interfaces-IsQuiet}
use eapol_operator.TrafficControl.Init.{reset_interface}
use eapol_operator.Hostap.Monitor.{Monitor}
use eapol_operator.Hostap.Clients.{stop_monitor}
use eapol_operator.Hostap.Clients.Stopped.{IsReleased, stop_releases, stop-SameFor}
use eapol_operator.MonitorMain.{reset_interfaces}
use eapol_operator.MonitorMain.Shutdown.{shutdown}

-- The monitors have different PFs.
abbrev pub Apart : List Monitor → Type 0
Apart [] = Unit
Apart (m ∷ ms) = ((k : Monitor) → In k ms → m.pf.name ≢ k.pf.name) × Apart ms

IsReleased-SameFor :
    (pf : PfInfo) (vf : VfInfo) {t u : Trace}
    → SameFor pf.name t u
    → IsReleased pf vf t
    → IsReleased pf vf u
IsReleased-SameFor pf vf s (v, w) = (s.vlans vf.index ∙ v, s.states vf.index ∙ w)

module _ (h : Host) where
  reset-IsQuiet : (n : Str) → IsQuiet (reset_interface h n)
  unfolding reset_interface
  reset-IsQuiet n = search quiet_rules

  pub reset_all-IsQuiet : (ifaces : List Str) → IsQuiet (reset_interfaces h ifaces)
  unfolding reset_interfaces
  reset_all-IsQuiet ifaces = search (quiet_rules, reset-IsQuiet, get_associated_interfaces-IsQuiet)

  module _ (faithful : IsFaithful h) where
    -- A PF of which no monitor is left is not touched any more.
    pub rest-SameFor :
        (ms : List Monitor) (ifaces : List Str) (n : Str) (t : Trace)
        → ((k : Monitor) → In k ms → k.pf.name ≢ n)
        → SameFor n t (shutdown h ms ifaces t)
    unfolding shutdown
    rest-SameFor [] ifaces n t other = SameVfs-SameFor ((reset_all-IsQuiet ifaces).at t)
    rest-SameFor (m ∷ ms) ifaces n t other =
        SameFor-trans (stop-SameFor h faithful n m t (other m (inl refl)))
          (rest-SameFor ms ifaces n (stop_monitor h m t).1 (λ k i. other k (inr i)))

  module _ (faithful : IsFaithful h) (obliging : IsObliging h) where
    -- However the monitors of different PFs have run, if the VFs are as their PFs want them and the
    -- kernel takes what it is given: after the shutdown every VF of every monitor has its own VLAN and
    -- follows the link of its PF, even if hostapd or `tc` fail.
    shutdown_releases :
        (ms : List Monitor) (ifaces : List Str) (t : Trace)
        → Apart ms
        → ((m : Monitor) → In m ms → AllConfigured m.pf t)
        → (m : Monitor) → In m ms
        → (i : ℕ) (vf : VfInfo) → Dict.lookup i m.pf.vfs ≡ some vf
        → IsReleased m.pf vf (shutdown h ms ifaces t)
    unfolding shutdown
    shutdown_releases [] ifaces t apart all k j i vf p = absurd j
    shutdown_releases (m ∷ ms) ifaces t apart all k (inl e) i vf p =
        IsReleased-SameFor k.pf vf
          (rest-SameFor faithful ms ifaces k.pf.name (stop_monitor h m t).1
            (λ o x q. apart.0 o x (sym (q ∙ ap (λ z. z.pf.name) e))))
          (subst (λ z. IsReleased k.pf vf (stop_monitor h z t).1) e
            (stop_releases h faithful obliging k t (all k (inl e)) i vf p))
    shutdown_releases (m ∷ ms) ifaces t apart all k (inr j) i vf p =
        shutdown_releases ms ifaces (stop_monitor h m t).1 apart.1
          (λ o x.
            AllConfigured-SameFor o.pf (stop-SameFor h faithful o.pf.name m t (apart.0 o x))
              (all o (inr x)))
          k j i vf p
