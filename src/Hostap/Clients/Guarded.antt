-- ===== src/Hostap/Clients/Guarded.antt =====
-- With a kernel that takes what it is given, every handler leaves the VFs as the PF wants them.
use eapol_operator.Base.{
  ℕ, ◌-◌, List, [], ◌∷◌, Str, Bool, true, false, not, ok, ◌≡◌, refl, Bool-cases, inl, inr, ltb,
  bytes, bytes_eq,
}
use eapol_operator.Base.Dict
use eapol_operator.Base.Dict.{Dict}
use eapol_operator.Host.{Host, Link, Trace, OperState, oper_down, oper_up, record_event}
use eapol_operator.Host.Views.{IsFaithful, IsObliging}
use eapol_operator.Host.Quiet.{
  SameVfs, SameVfs-refl, SameVfs-trans, IsQuiet, IsQuiet-perform, quiet_rules,
}
use eapol_operator.TrafficControl.Sriov.Kernel.{AllConfigured}
use eapol_operator.TrafficControl.Sriov.VlanChange.{handle-AllConfigured, handle_vlan_ok}
use eapol_operator.TrafficControl.Tc.Port.{AllConfigured-SameVfs}
use eapol_operator.TrafficControl.Tc.Obliging.{
  AllConfigured-clients, allow-AllConfigured, deny-AllConfigured,
}
use eapol_operator.Hostap.Monitor.{Monitor, deauthenticate, write_command, log_event, get_auth}
use eapol_operator.Hostap.Clients.{
  handle_authenticate_event, handle_de_authenticate_event, request_all, on_oper_state, same_state,
  handle_pf_event_for_op_state_change, handle_pf_event_for_vf_vlan_change, handle_if_event,
  drop_client, timeout_loop, timestamp, request_timeout, handle_requests_timeout_round,
}

module _ (h : Host) where
  pub write_command-IsQuiet : (c : Str) → IsQuiet (write_command h c)
  unfolding write_command
  write_command-IsQuiet c = search quiet_rules

  deauthenticate-IsQuiet : (addr : Str) → IsQuiet (deauthenticate h addr)
  unfolding deauthenticate
  deauthenticate-IsQuiet [] = search quiet_rules
  deauthenticate-IsQuiet (c ∷ addr) = search quiet_rules

  get_auth-IsQuiet : IsQuiet (get_auth h)
  unfolding get_auth
  get_auth-IsQuiet = search quiet_rules

  pub log_event_quiet : (b : Bool) (message : Str) (t : Trace) → SameVfs t (log_event h b message t)
  unfolding log_event
  log_event_quiet false message t = SameVfs-refl t
  log_event_quiet true message t = SameVfs-trans (get_auth-IsQuiet.at t) (
      (IsQuiet-perform {A = Unit {0}} (record_event _ message) (λ _. ok tt) refl).at
        (get_auth h t).1)

  request_all_quiet :
      (addrs : List Str) (requests : Dict Str ℕ) (t : Trace)
      → SameVfs t (request_all h addrs requests t).1
  unfolding request_all
  request_all_quiet [] requests t = SameVfs-refl t
  request_all_quiet (addr ∷ addrs) requests t =
      SameVfs-trans ((deauthenticate-IsQuiet addr).at t) (request_all_quiet addrs _ _)

  oper_state_quiet : (o : OperState) (m : Monitor) (t : Trace) → SameVfs t (on_oper_state h o m t).1
  unfolding on_oper_state
  oper_state_quiet oper_down m t =
      SameVfs-trans
        (request_all_quiet (h.range_texts t (Dict.keys m.pf.authenticated_addrs)) m.deauth_requests
          t)
        (log_event_quiet m.has_client _ _)
  oper_state_quiet oper_up m t = log_event_quiet m.has_client _ t
  oper_state_quiet _ m t = SameVfs-refl t

  oper_state-pf : (o : OperState) (m : Monitor) (t : Trace) → (on_oper_state h o m t).0.pf ≡ m.pf
  unfolding on_oper_state
  oper_state-pf oper_down m t = refl
  oper_state-pf _ m t = refl

  -- A change of the link's state keeps the PF, and sets up no VF.
  pub op_state_change-pf :
      (link : Link) (m : Monitor) (t : Trace)
      → (handle_pf_event_for_op_state_change h link m t).0.pf ≡ m.pf
  unfolding handle_pf_event_for_op_state_change
  op_state_change-pf link m t = oper_state-pf link.oper_state _ t

  pub op_state_change_quiet :
      (link : Link) (m : Monitor) (t : Trace)
      → SameVfs t (handle_pf_event_for_op_state_change h link m t).1
  unfolding handle_pf_event_for_op_state_change
  op_state_change_quiet link m t =
      SameVfs-trans (oper_state_quiet link.oper_state _ t)
        ((write_command-IsQuiet (bytes "STATUS")).at _)

module _ (h : Host) (faithful : IsFaithful h) (obliging : IsObliging h) where
  pub authenticate-AllConfigured :
      (addr : Str) (m : Monitor) (t : Trace)
      → AllConfigured m.pf t
      → AllConfigured
          (handle_authenticate_event h addr m t).1.pf
          (handle_authenticate_event h addr m t).2
  unfolding handle_authenticate_event
  authenticate-AllConfigured addr m t a =
      allow-AllConfigured h faithful obliging _ addr t (AllConfigured-clients m.pf _ t a)

  pub de_authenticate-AllConfigured :
      (addr : Str) (m : Monitor) (t : Trace)
      → AllConfigured m.pf t
      → AllConfigured
          (handle_de_authenticate_event h addr m t).1.pf
          (handle_de_authenticate_event h addr m t).2
  unfolding handle_de_authenticate_event
  de_authenticate-AllConfigured addr m t a =
      deny-AllConfigured h faithful obliging _ addr t (AllConfigured-clients m.pf _ t a)

  drop-AllConfigured :
      (addr : Str) (m : Monitor) (t : Trace)
      → AllConfigured m.pf t
      → AllConfigured (drop_client h addr m t).0.pf (drop_client h addr m t).1
  unfolding drop_client
  drop-AllConfigured addr m t a =
      deny-AllConfigured h faithful obliging _ addr t (AllConfigured-clients m.pf _ t a)

  loop-AllConfigured :
      (now : ℕ) (addrs : List Str) (m : Monitor) (t : Trace)
      → AllConfigured m.pf t
      → AllConfigured (timeout_loop h now addrs m t).0.pf (timeout_loop h now addrs m t).1
  unfolding timeout_loop
  loop-AllConfigured now [] m t a = a
  loop-AllConfigured now (addr ∷ addrs) m t a =
      elim (Bool-cases
        (ltb (now - timestamp h (Dict.lookup addr m.deauth_requests)) request_timeout)) [
          | inl early ↦ rw (early, timeout_loop) a
          | inr late ↦
              rw (late, timeout_loop)
                (loop-AllConfigured now addrs (drop_client h addr m t).0 (drop_client h addr m t).1
                  (drop-AllConfigured addr m t a))
        ]

  pub timeout-AllConfigured :
      (m : Monitor) (t : Trace)
      → AllConfigured m.pf t
      → AllConfigured
          (handle_requests_timeout_round h m t).0.pf
          (handle_requests_timeout_round h m t).1
  unfolding handle_requests_timeout_round
  timeout-AllConfigured m t a = loop-AllConfigured _ _ m t a

  vlan_change-AllConfigured :
      (m : Monitor) (t : Trace)
      → AllConfigured m.pf t
      → AllConfigured
          (handle_pf_event_for_vf_vlan_change h m t).0.pf
          (handle_pf_event_for_vf_vlan_change h m t).1
  unfolding handle_pf_event_for_vf_vlan_change
  vlan_change-AllConfigured m t a =
      handle-AllConfigured h faithful m.pf t a (handle_vlan_ok h obliging m.pf t)

  op_state_change-AllConfigured :
      (link : Link) (m : Monitor) (t : Trace)
      → AllConfigured m.pf t
      → AllConfigured
          (handle_pf_event_for_op_state_change h link m t).0.pf
          (handle_pf_event_for_op_state_change h link m t).1
  op_state_change-AllConfigured link m t a =
      rw (op_state_change-pf h link m t)
        (AllConfigured-SameVfs m.pf (op_state_change_quiet h link m t) a)

  pub if_event-AllConfigured :
      (link : Link) (m : Monitor) (t : Trace)
      → AllConfigured m.pf t
      → AllConfigured (handle_if_event h link m t).0.pf (handle_if_event h link m t).1
  unfolding handle_if_event
  if_event-AllConfigured link m t a =
      elim (Bool-cases (not (same_state link.oper_state m.oper_state))) [
        | inl new ↦
            rw (new, handle_if_event)
              (vlan_change-AllConfigured (handle_pf_event_for_op_state_change h link m t).0
                (handle_pf_event_for_op_state_change h link m t).1
                (op_state_change-AllConfigured link m t a))
        | inr old ↦ rw (old, handle_if_event) (vlan_change-AllConfigured m t a)
      ]
