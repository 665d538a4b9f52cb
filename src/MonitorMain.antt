-- ===== src/MonitorMain.antt =====
-- monitor/main.go: the arguments of the monitor, and the interfaces at its start and its end.
pub mod Arguments
pub mod Startup
pub mod Shutdown
pub mod Program
use eapol_operator.Base.{
  ℕ, List, [], ◌∷◌, ◌++◌, Str, Option, none, some, Result, ok, err, if◌then◌else◌, ◌==◌, nat_eq,
  map,
}
use eapol_operator.Base.Text.{split, trim_space}
use eapol_operator.Base.Decimal.{ℤ, atoi}
use eapol_operator.Host.{Host, Act}
use eapol_operator.Host.Actions.{◌>>=◌, for_each}
use eapol_operator.TrafficControl.Sysfs.{get_associated_interfaces}
use eapol_operator.TrafficControl.Init.{init_interface_for_eap_traffic, reset_interface}

-- A pointer that may be nil is an `Option`.
unfoldable pub parse_strings_args : Option Str → List Str
parse_strings_args none = []
parse_strings_args (some []) = []
parse_strings_args (some (c ∷ s)) = map trim_space (split 44 (c ∷ s))

-- `append(argSlice, port)` and the rest of the loop, or the error.
with_port : Result ℤ → Result (List ℤ) → Result (List ℤ)
with_port (err e) rest = err e
with_port (ok port) (err e) = err e
with_port (ok port) (ok ports) = ok (port ∷ ports)

unfoldable pub parse_ports_from : List Str → Result (List ℤ)
unfolding with_port
parse_ports_from [] = ok []
parse_ports_from (s ∷ rest) = with_port (atoi s) (parse_ports_from rest)

unfoldable pub parse_int_args : Option Str → Result (List ℤ)
unfolding parse_ports_from parse_strings_args
parse_int_args arg = parse_ports_from (parse_strings_args arg)

module _ (h : Host) where
  unfoldable pub init_interfaces : List Str → List ℤ → List ℤ → Act (Unit {0})
  unfolding for_each
  init_interfaces interfaces tcp udp =
      for_each
        (λ iface.
          get_associated_interfaces h iface
          >>= for_each (λ link_name. init_interface_for_eap_traffic h link_name tcp udp))
        interfaces

  unfoldable pub reset_interfaces : List Str → Act (Unit {0})
  unfolding for_each
  reset_interfaces interfaces =
      for_each (λ iface. get_associated_interfaces h iface >>= for_each (reset_interface h))
        interfaces
