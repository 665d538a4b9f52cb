-- ===== src/Hostap/Start/Others.antt =====
-- What setting up one monitor does to the VFs of other PFs: nothing.
use eapol_operator.Base.{[], Str, Result, ok, err, Error, ◌≡◌, ◌≢◌, refl, sym, ap, ◌∙◌, arith}
use eapol_operator.Host.{Host, temp_file, dial, Trace, Act}
use eapol_operator.Host.Actions.{pure, ◌>>=◌, ◌>>◌, perform, continue, >>=-ok}
use eapol_operator.Host.Views.{IsFaithful, IsObliging}
use eapol_operator.Host.Quiet.{SameVfs, SameVfs-refl, SameVfs-trans, IsQuiet, quiet_rules}
use eapol_operator.TrafficControl.Sriov.{PfInfo, get_sriov_pf_info, configure_vlan_state_for_vfs}
use eapol_operator.TrafficControl.Sriov.Kernel.{configure_all_ok}
use eapol_operator.TrafficControl.Sriov.Discovery.{get_sriov_pf_info-name}
use eapol_operator.TrafficControl.Sriov.Others.{
  SameFor, SameFor-refl, SameFor-trans, SameVfs-SameFor, Spares, Spares-bind, configure-Spares,
}
use eapol_operator.Hostap.Monitor.{Monitor}
use eapol_operator.Hostap.Start.{set_up}

quiet-Spares : {n : Str} {A : Type 0} (m : Act A) → IsQuiet m → Spares n m
quiet-Spares m q = record { at = λ t. SameVfs-SameFor (q.at t) }

module _ {n : Str} {A B : Type 0} where
  continue_found :
      (r : Result A) (f : A → Act B) (t : Trace)
      → ((a : A) → r ≡ ok a → Spares n (f a))
      → SameFor n t (continue r f t).1
  continue_found (ok a) f t q = (q a refl).at t
  continue_found (err e) f t q = SameFor-refl t

  -- The second step may rely on what the first has found.
  bind_found :
      (m : Act A) (f : A → Act B)
      → Spares n m
      → ((a : A) (t : Trace) → (m t).0 ≡ ok a → Spares n (f a))
      → Spares n (m >>= f)
  bind_found m f p q = record {
    at = λ t. SameFor-trans (p.at t) (continue_found (m t).0 f (m t).1 (λ a e. q a t e));
  }

-- A step that sets no VF when it fails.
pub record FailsQuietly {A : Type 0} (m : Act A) : Type 0 where
  pub at : (t : Trace) (e : Error) → (m t).0 ≡ err e → SameVfs t (m t).1

continue_fails :
    {A B : Type 0} (r : Result A) (f : A → Act B) (t : Trace) (e : Error)
    → ((a : A) → FailsQuietly (f a))
    → (continue r f t).0 ≡ err e
    → SameVfs t (continue r f t).1
continue_fails (ok a) f t e q p = (q a).at t e p
continue_fails (err d) f t e q p = SameVfs-refl t

FailsQuietly-bind :
    {A B : Type 0} (m : Act A) (f : A → Act B)
    → IsQuiet m
    → ((a : A) → FailsQuietly (f a))
    → FailsQuietly (m >>= f)
FailsQuietly-bind m f quiet q = record {
  at = λ t e p. SameVfs-trans (quiet.at t) (continue_fails (m t).0 f (m t).1 e q p);
}

fails_not : {A : Type 0} (a : A) (e : Error) → Result.ok a ≢ err e
fails_not a e p = cc

never_fails :
    {A : Type 0} (m : Act (Unit {0})) (a : A) (t : Trace) (e : Error)
    → (m t).0 ≡ ok tt
    → ((m >> pure a) t).0 ≢ err e
never_fails m a t e p q = fails_not a e (rw p at q)

same_monitor : (k n : Monitor) → Result.ok k ≡ ok n → k ≡ n
same_monitor k n p = ground arith

module _ (h : Host) where
  info-IsQuiet : (if_name : Str) → IsQuiet (get_sriov_pf_info h if_name)
  unfolding get_sriov_pf_info
  info-IsQuiet if_name = search quiet_rules

  module _ (faithful : IsFaithful h) (n : Str) (m : Monitor) (other : m.if_name ≢ n) where
    shut-Spares :
        (pf : PfInfo)
        → pf.name ≡ m.if_name
        → Spares n (
            configure_vlan_state_for_vfs h pf
            >> pure {A = Monitor} (record m { pf = pf; deauth_requests = [] }))
    shut-Spares pf p =
        Spares-bind (configure_vlan_state_for_vfs h pf)
          (λ _. pure {A = Monitor} (record m { pf = pf; deauth_requests = [] }))
          (record { at = configure-Spares h faithful n pf (λ q. other (sym p ∙ q)) })
          (λ _. record { at = SameFor-refl })

    pub set_up-Spares : Spares n (set_up h m)
    unfolding set_up
    set_up-Spares =
        Spares-bind (perform temp_file h.temp_name) _ (quiet-Spares _ (search quiet_rules)) (λ _.
          Spares-bind (perform dial h.connect) _ (quiet-Spares _ (search quiet_rules)) (λ _.
            bind_found (get_sriov_pf_info h m.if_name) _ (quiet-Spares _ (info-IsQuiet m.if_name))
              (λ pf t e. shut-Spares pf (get_sriov_pf_info-name h m.if_name t pf e))))

  module _ (obliging : IsObliging h) where
    shut_fails :
        (pf : PfInfo) (n : Monitor) → FailsQuietly (configure_vlan_state_for_vfs h pf >> pure n)
    shut_fails pf n = record {
      at = λ t e p. absurd (
          never_fails (configure_vlan_state_for_vfs h pf) n t e (configure_all_ok h obliging pf t)
            p);
    }

    -- With a kernel that takes what it is given, a set-up that fails has set no VF.
    pub set_up-FailsQuietly : (m : Monitor) → FailsQuietly (set_up h m)
    unfolding set_up
    set_up-FailsQuietly m =
        FailsQuietly-bind (perform temp_file h.temp_name) _ (search quiet_rules) (λ _.
          FailsQuietly-bind (perform dial h.connect) _ (search quiet_rules) (λ _.
            FailsQuietly-bind (get_sriov_pf_info h m.if_name) _ (info-IsQuiet m.if_name)
              (λ pf. shut_fails pf (record m { pf = pf; deauth_requests = [] }))))

  -- A monitor that is set up has the PF of its interface.
  pub set_up-name : (m n : Monitor) (t : Trace) → (set_up h m t).0 ≡ ok n → n.pf.name ≡ m.if_name
  unfolding set_up
  set_up-name m n t e =
      let (_, _, e1, _) = >>=-ok (perform temp_file h.temp_name) _ t n e in
      let (_, _, e2, _) = >>=-ok (perform dial h.connect) _ _ n e1 in
      let (pf, q, e3, _) = >>=-ok (get_sriov_pf_info h m.if_name) _ _ n e2 in
      let (_, _, e4, _) = >>=-ok (configure_vlan_state_for_vfs h pf) _ _ n e3 in
      ap (λ k. k.pf.name) (sym (same_monitor _ n e4)) ∙ get_sriov_pf_info-name h m.if_name _ pf q
