-- ===== src/TrafficControl/Init/Plan.antt =====
-- Which commands prepare an interface, and in which order.
use eapol_operator.Base.{
  List, [], ◌∷◌, ◌++◌, Str, bytes, Bool, true, false, ok, ◌≡◌, refl, ◌∙◌, ap, map, append_assoc,
}
use eapol_operator.Base.Decimal.{ℤ}
use eapol_operator.Host.{Host, Trace, Act}
use eapol_operator.Host.Actions.{◌>>=◌, ◌>>◌, >>=-ok, for_all}
use eapol_operator.TrafficControl.Sysfs.{is_sriov_pf}
use eapol_operator.TrafficControl.Tc.{shell_run, find_tc}
use eapol_operator.TrafficControl.Init.{
  del_ingress, del_clsact, add_clsact, drop_all, pass_eapol, pass_port, pass_port_v6, when_any,
  reset_interface, unprotect_ports, unprotect_ipv6_ports, pf_filters, drop_everything, if_pf,
  init_interface_for_eap_traffic,
}
use eapol_operator.TrafficControl.Init.Issued.{
  issued, Issues, Issues-pure, Issues-then, Issues-shell, Issues-tc, Issues-for_all,
  issued-is_sriov_pf,
}

-- First all is reset and all traffic dropped. Only then a PF lets in EAPOL and the ports.
abbrev pub base_plan : Str → List Str
base_plan n = del_ingress n ∷ del_clsact n ∷ add_clsact n ∷ drop_all n ∷ []

abbrev pub pf_plan : Str → List ℤ → List ℤ → List Str
pf_plan n tcp udp =
    pass_eapol n
    ∷ (map (pass_port n (bytes "tcp")) tcp
        ++ (map (pass_port n (bytes "udp")) udp ++ map (pass_port_v6 n) (tcp ++ udp)))

abbrev pub plan : Bool → Str → List ℤ → List ℤ → List Str
plan true n tcp udp = base_plan n ++ pf_plan n tcp udp
plan false n tcp udp = base_plan n

module _ (h : Host) (n : Str) where
  reset-Issues : Issues (reset_interface h n) (del_ingress n ∷ del_clsact n ∷ [])
  unfolding reset_interface
  reset-Issues =
      Issues-then (find_tc h) (shell_run h (del_ingress n) >> shell_run h (del_clsact n)) [] _
        (Issues-tc h)
        (Issues-then (shell_run h (del_ingress n)) (shell_run h (del_clsact n)) _ _
          (Issues-shell h (del_ingress n)) (Issues-shell h (del_clsact n)))

  base-Issues : Issues (drop_everything h n) (base_plan n)
  unfolding drop_everything
  base-Issues =
      Issues-then (reset_interface h n) (shell_run h (add_clsact n) >> shell_run h (drop_all n)) _ _
        reset-Issues
        (Issues-then (shell_run h (add_clsact n)) (shell_run h (drop_all n)) _ _
          (Issues-shell h (add_clsact n)) (Issues-shell h (drop_all n)))

  ports_issue :
      (protocol : Str) (ports : List ℤ)
      → Issues
          (when_any ports (unprotect_ports h n protocol ports))
          (map (pass_port n protocol) ports)
  unfolding unprotect_ports
  ports_issue protocol [] = Issues-pure
  ports_issue protocol (p ∷ ports) =
      Issues-then (find_tc h) (for_all (λ x. shell_run h (pass_port n protocol x)) (p ∷ ports)) [] _
        (Issues-tc h) (Issues-for_all h (pass_port n protocol) (p ∷ ports))

  ipv6_issue :
      (ports : List ℤ)
      → Issues (when_any ports (unprotect_ipv6_ports h n ports)) (map (pass_port_v6 n) ports)
  unfolding unprotect_ipv6_ports
  ipv6_issue [] = Issues-pure
  ipv6_issue (p ∷ ports) =
      Issues-then (find_tc h) (for_all (λ x. shell_run h (pass_port_v6 n x)) (p ∷ ports)) [] _
        (Issues-tc h) (Issues-for_all h (pass_port_v6 n) (p ∷ ports))

  module _ (tcp udp : List ℤ) where
    abbrev tcp_step : Act (Unit {0})
    tcp_step = when_any tcp (unprotect_ports h n (bytes "tcp") tcp)

    abbrev udp_step : Act (Unit {0})
    udp_step = when_any udp (unprotect_ports h n (bytes "udp") udp)

    abbrev v6_step : Act (Unit {0})
    v6_step = when_any (tcp ++ udp) (unprotect_ipv6_ports h n (tcp ++ udp))

    pf-Issues : Issues (pf_filters h n tcp udp) (pf_plan n tcp udp)
    unfolding pf_filters
    pf-Issues =
        Issues-then (shell_run h (pass_eapol n)) (tcp_step >> (udp_step >> v6_step)) _ _
          (Issues-shell h (pass_eapol n))
          (Issues-then tcp_step (udp_step >> v6_step) _ _ (ports_issue (bytes "tcp") tcp) (
            Issues-then udp_step v6_step _ _ (ports_issue (bytes "udp") udp)
              (ipv6_issue (tcp ++ udp))))

    abbrev rest_plan : Bool → List Str
    rest_plan true = pf_plan n tcp udp
    rest_plan false = []

    branch-Issues : (b : Bool) → Issues (if_pf h n tcp udp b) (rest_plan b)
    unfolding if_pf
    branch-Issues true = pf-Issues
    branch-Issues false = Issues-pure

    plan_parts : (b : Bool) → base_plan n ++ rest_plan b ≡ plan b n tcp udp
    plan_parts true = refl
    plan_parts false = refl

    -- When the interface is prepared with no error, the commands given are those of the plan, in
    -- its order, where `b` is whether the interface was seen to be a PF after the first four.
    pub init_interface_plan :
        (t : Trace)
        → (init_interface_for_eap_traffic h n tcp udp t).0 ≡ ok tt
        → (s : Trace) × (b : Bool) × ((is_sriov_pf h n s).0 ≡ ok b)
          × (issued s ≡ issued t ++ base_plan n)
          × (issued (init_interface_for_eap_traffic h n tcp udp t).1 ≡ issued t ++ plan b n tcp udp)
    unfolding init_interface_for_eap_traffic
    init_interface_plan t e =
        let (_, base, rest, e1) =
          >>=-ok (drop_everything h n) (λ _. is_sriov_pf h n >>= if_pf h n tcp udp) t tt e in
        let s = (drop_everything h n t).1 in
        let (b, seen, more, e2) = >>=-ok (is_sriov_pf h n) (if_pf h n tcp udp) s tt rest in
        let prepared : issued s ≡ issued t ++ base_plan n = base-Issues.at t base in
        (
          s,
          b,
          seen,
          prepared,
          rw (e1, e2)
              ((branch-Issues b).at (is_sriov_pf h n s).1 more
                ∙ ap (λ xs. xs ++ rest_plan b) (issued-is_sriov_pf h n s ∙ prepared)
                ∙ append_assoc (issued t) (base_plan n) (rest_plan b)
                ∙ ap (λ xs. issued t ++ xs) (plan_parts b)),
        )
