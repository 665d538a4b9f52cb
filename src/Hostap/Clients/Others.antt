-- ===== src/Hostap/Clients/Others.antt =====
-- What the handlers of a monitor do outside its PF: they set no VF of another one.
use eapol_operator.Base.{
  ℕ, ◌-◌, List, [], ◌∷◌, Str, not, ◌≡◌, ◌≢◌, refl, sym, ap, ◌∙◌, arith, Bool-cases, inl, inr, ltb,
  bytes_eq,
}
use eapol_operator.Base.Dict
use eapol_operator.Host.{Host, Link, Trace}
use eapol_operator.Host.Views.{IsFaithful}
use eapol_operator.Host.Quiet.{SameVfs}
use eapol_operator.TrafficControl.Sriov.Others.{
  SameFor, SameFor-refl, SameFor-trans, SameVfs-SameFor,
}
use eapol_operator.TrafficControl.Sriov.VlanChange.{handle-SamePort}
use eapol_operator.TrafficControl.Sriov.VlanChange.Others.{vlan_change-SameFor}
use eapol_operator.TrafficControl.Tc.Port.{pf-allow, pf-deny}
use eapol_operator.TrafficControl.Tc.Others.{allow-SameFor, deny-SameFor}
use eapol_operator.Hostap.Monitor.{Monitor}
use eapol_operator.Hostap.Clients.{
  handle_authenticate_event, handle_de_authenticate_event, same_state,
  handle_pf_event_for_op_state_change, handle_pf_event_for_vf_vlan_change, handle_if_event,
  drop_client, timeout_loop, timestamp, request_timeout, handle_requests_timeout_round,
}
use eapol_operator.Hostap.Clients.Guarded.{op_state_change-pf, op_state_change_quiet}

-- A step of a monitor that stays within its PF: it keeps the PF's name, and leaves the VFs of every
-- other PF alone.
pub record IsContained (m : Monitor) (t : Trace) (n : Monitor) (u : Trace) : Type 0 where
  pub same_name : n.pf.name ≡ m.pf.name
  pub spares : (o : Str) → m.pf.name ≢ o → SameFor o t u

pub IsContained-refl : (m : Monitor) (t : Trace) → IsContained m t m t
IsContained-refl m t = record { same_name = refl; spares = λ o p. SameFor-refl t }

pub IsContained-trans :
    {m : Monitor} {t : Trace} {n : Monitor} {u : Trace} {o : Monitor} {v : Trace}
    → IsContained m t n u
    → IsContained n u o v
    → IsContained m t o v
IsContained-trans a b = record {
  same_name = b.same_name ∙ a.same_name;
  spares = λ o p. SameFor-trans (a.spares o p) (b.spares o (λ q. p (sym a.same_name ∙ q)));
}

-- A step that sets no VF at all, and keeps the PF.
pub quiet-IsContained :
    (m n : Monitor) {t u : Trace} → n.pf ≡ m.pf → SameVfs t u → IsContained m t n u
quiet-IsContained m n p s = record {
  same_name = ap (λ pf. pf.name) p;
  spares = λ o _. SameVfs-SameFor s;
}

module _ (h : Host) (faithful : IsFaithful h) where
  pub authenticate-IsContained :
      (addr : Str) (m : Monitor) (t : Trace)
      → IsContained m t
          (handle_authenticate_event h addr m t).1
          (handle_authenticate_event h addr m t).2
  unfolding handle_authenticate_event
  authenticate-IsContained addr m t = record {
    same_name = rw pf-allow (ground arith);
    spares = λ o p. allow-SameFor h faithful o _ addr t p;
  }

  pub de_authenticate-IsContained :
      (addr : Str) (m : Monitor) (t : Trace)
      → IsContained m t
          (handle_de_authenticate_event h addr m t).1
          (handle_de_authenticate_event h addr m t).2
  unfolding handle_de_authenticate_event
  de_authenticate-IsContained addr m t = record {
    same_name = rw pf-deny (ground arith);
    spares = λ o p. deny-SameFor h faithful o _ addr t p;
  }

  drop-IsContained :
      (addr : Str) (m : Monitor) (t : Trace)
      → IsContained m t (drop_client h addr m t).0 (drop_client h addr m t).1
  unfolding drop_client
  drop-IsContained addr m t = record {
    same_name = rw pf-deny (ground arith);
    spares = λ o p. deny-SameFor h faithful o _ addr t p;
  }

  loop-IsContained :
      (now : ℕ) (addrs : List Str) (m : Monitor) (t : Trace)
      → IsContained m t (timeout_loop h now addrs m t).0 (timeout_loop h now addrs m t).1
  unfolding timeout_loop
  loop-IsContained now [] m t = IsContained-refl m t
  loop-IsContained now (addr ∷ addrs) m t =
      elim (Bool-cases
        (ltb (now - timestamp h (Dict.lookup addr m.deauth_requests)) request_timeout)) [
          | inl early ↦ rw (early, timeout_loop) (IsContained-refl m t)
          | inr late ↦
              rw (late, timeout_loop)
                (IsContained-trans (drop-IsContained addr m t) (
                  loop-IsContained now addrs (drop_client h addr m t).0 (drop_client h addr m t).1))
        ]

  pub timeout-IsContained :
      (m : Monitor) (t : Trace)
      → IsContained m t
          (handle_requests_timeout_round h m t).0
          (handle_requests_timeout_round h m t).1
  unfolding handle_requests_timeout_round
  timeout-IsContained m t = loop-IsContained _ _ m t

  vlan_change-IsContained :
      (m : Monitor) (t : Trace)
      → IsContained m t
          (handle_pf_event_for_vf_vlan_change h m t).0
          (handle_pf_event_for_vf_vlan_change h m t).1
  unfolding handle_pf_event_for_vf_vlan_change
  vlan_change-IsContained m t = record {
    same_name = (handle-SamePort h m.pf t).0;
    spares = λ o p. vlan_change-SameFor h faithful o m.pf t p;
  }

  op_state_change-IsContained :
      (link : Link) (m : Monitor) (t : Trace)
      → IsContained m t
          (handle_pf_event_for_op_state_change h link m t).0
          (handle_pf_event_for_op_state_change h link m t).1
  op_state_change-IsContained link m t =
      quiet-IsContained m _ (op_state_change-pf h link m t) (op_state_change_quiet h link m t)

  pub if_event-IsContained :
      (link : Link) (m : Monitor) (t : Trace)
      → IsContained m t (handle_if_event h link m t).0 (handle_if_event h link m t).1
  unfolding handle_if_event
  if_event-IsContained link m t =
      elim (Bool-cases (not (same_state link.oper_state m.oper_state))) [
        | inl new ↦
            rw (new, handle_if_event)
              (IsContained-trans (op_state_change-IsContained link m t) (
                vlan_change-IsContained (handle_pf_event_for_op_state_change h link m t).0
                  (handle_pf_event_for_op_state_change h link m t).1))
        | inr old ↦ rw (old, handle_if_event) (vlan_change-IsContained m t)
      ]
