-- ===== src/Configgen/Handover.antt =====
-- The environment of the monitor's container, and what the monitor reads from it.
use eapol_operator.Base.{
  ℕ, List, [], ◌∷◌, ◌++◌, Str, bytes, some, ok, ◌≡◌, ◌≢◌, refl, ◌∙◌, arith, map, append_assoc, All,
  Lacks, if◌then◌else◌, ◌==◌, bytes_eq, length, ltb,
}
use eapol_operator.Base.Text.{join}
use eapol_operator.Base.Text.Split.{Lacks-append}
use eapol_operator.Base.Text.Trim.{HasSolid, HasSolid-append_left}
use eapol_operator.Base.Decimal.{ℤ, InRange, itoa}
use eapol_operator.Base.Decimal.RoundTrip.{itoa-Lacks, itoa-HasSolid}
use eapol_operator.Api.{Ports, AuthenticatorSpec}
use eapol_operator.Configgen.{EnvVar, value, field_ref, monitor_container, parse_ports, write_ports}
use eapol_operator.MonitorMain.{parse_strings_args, parse_int_args}
use eapol_operator.MonitorMain.Arguments.{
  IsWord, parse_strings_args-join, parse_int_args-join, parse_int_args_blank, HasSolid-ne-nil,
}

-- `os.Getenv`: the value of a variable, and the empty text if there is none.
abbrev pub getenv : Str → List EnvVar → Str
getenv n [] = []
getenv n (value k v ∷ rest) = if k == n then v else getenv n rest
getenv n (field_ref k path ∷ rest) = getenv n rest

-- The interfaces of the resource, when their names have no comma and no white space, are those
-- that the monitor reads from its environment.
pub interfaces_handover :
    (spec : AuthenticatorSpec)
    → All IsWord spec.interfaces
    → parse_strings_args (some (getenv (bytes "IFACES") (monitor_container spec).env))
      ≡ spec.interfaces
unfolding monitor_container bytes_eq
interfaces_handover spec h = parse_strings_args-join spec.interfaces h

append-ne-nil : (u : Str) (c : ℕ) (v : Str) → u ++ c ∷ v ≢ []
append-ne-nil [] c v = cc
append-ne-nil (d ∷ u) c v = cc

append_port :
    (built : Str) (p : ℤ)
    → built ≢ []
    → (if ltb 0 (length built) then built ++ 32 ∷ [] else built) ++ itoa p ≡ built ++ 32 ∷ itoa p
append_port [] p h = absurd (h refl)
append_port (c ∷ s) p h = ground (arith, append_assoc s (32 ∷ []) (itoa p))

join_merge :
    (u v : Str) (ws : List Str) → join (32 ∷ []) ((u ++ 32 ∷ v) ∷ ws) ≡ join (32 ∷ []) (u ∷ v ∷ ws)
unfolding join
join_merge u v [] = refl
join_merge u v (w ∷ ws) = append_assoc u (32 ∷ v) (32 ∷ join (32 ∷ []) (w ∷ ws))

write_behind :
    (ports : List ℤ) (built : Str)
    → built ≢ []
    → write_ports ports built ≡ join (32 ∷ []) (built ∷ map itoa ports)
unfolding write_ports
write_behind [] built h = unfold join in refl
write_behind (p ∷ ps) built h = rw (append_port built p h) (
    write_behind ps (built ++ 32 ∷ itoa p) (append-ne-nil built 32 (itoa p))
    ∙ join_merge built (itoa p) (map itoa ps))

-- The builder holds the numbers with a blank between two of them, and none at an end.
write_ports-join : (ports : List ℤ) → write_ports ports [] ≡ join (32 ∷ []) (map itoa ports)
write_ports-join [] = unfold write_ports join in refl
write_ports-join (p ∷ ps) =
    unfold write_ports in write_behind ps (itoa p) (HasSolid-ne-nil (itoa p) (itoa-HasSolid p))

blank-Lacks : (p : ℤ) (ps : List ℤ) → Lacks 44 (join (32 ∷ []) (map itoa (p ∷ ps)))
unfolding join
blank-Lacks p [] = itoa-Lacks 44 p (omega arith) (λ q. omega arith)
blank-Lacks p (q ∷ ps) =
    Lacks-append 44 (itoa p) _ (itoa-Lacks 44 p (omega arith) (λ r. omega arith))
      ((λ r. omega arith), blank-Lacks q ps)

blank-HasSolid : (p : ℤ) (ps : List ℤ) → HasSolid (join (32 ∷ []) (map itoa (p ∷ ps)))
unfolding join
blank-HasSolid p [] = itoa-HasSolid p
blank-HasSolid p (q ∷ ps) = HasSolid-append_left (itoa p) _ (itoa-HasSolid p)

module _ (spec : AuthenticatorSpec) (ports : Ports) where
  abbrev HasPorts : Type 0
  HasPorts = spec.traffic_control ≡ some (record { unprotected_ports = some ports })

  -- The monitor's text of the TCP ports and of the UDP ports.
  tcp_text :
      HasPorts
      → getenv (bytes "UNPROTECTED_TCP_PORTS") (monitor_container spec).env
        ≡ join (32 ∷ []) (map itoa ports.tcp)
  unfolding monitor_container bytes_eq parse_ports
  tcp_text h = rw h (write_ports-join ports.tcp)

  -- A single unprotected TCP port of the resource is read by the monitor as it was.
  one_port_handover :
      (p : ℤ)
      → spec.traffic_control ≡ some (record { unprotected_ports = some ports })
      → ports.tcp ≡ p ∷ []
      → InRange p
      → parse_int_args (some (getenv (bytes "UNPROTECTED_TCP_PORTS") (monitor_container spec).env))
        ≡ ok (p ∷ [])
  one_port_handover p h e r =
      rw (tcp_text h, e) (unfold join in parse_int_args-join (p ∷ []) (r, tt))

  -- Of two or more unprotected TCP ports the monitor reads none: it reports an error.
  pub ports_lost :
      (p q : ℤ) (rest : List ℤ) (read : List ℤ)
      → spec.traffic_control ≡ some (record { unprotected_ports = some ports })
      → ports.tcp ≡ p ∷ q ∷ rest
      → parse_int_args (some (getenv (bytes "UNPROTECTED_TCP_PORTS") (monitor_container spec).env))
        ≢ ok read
  ports_lost p q rest read h e =
      rw (tcp_text h, e)
        (unfold join in
          parse_int_args_blank (itoa p) (join (32 ∷ []) (map itoa (q ∷ rest))) read
            (itoa-HasSolid p) (blank-HasSolid q rest) (blank-Lacks p (q ∷ rest)))
