-- ===== src/Examples.antt =====
-- A machine, a resource and a monitor on which the theorems are applied.
pub mod Kernel
pub mod Monitors
pub mod Clients
pub mod Operator
pub mod Reconciler
pub mod Programs
pub mod Conf
pub mod Escaping
pub mod Failing
use eapol_operator.Base.{
  ℕ, List, [], ◌∷◌, Str, bytes, String, Bool, true, false, Option, none, some, Result, ok, err,
  Error, outside, ◌≡◌, refl, arith,
}
use eapol_operator.Base.Decimal.{ℤ, pos}
use eapol_operator.Api.{
  Authenticator, AuthenticatorSpec, AuthenticatorStatus, Auth, Local, SecretKeyRef, Ports,
  TrafficControl, Interface, IfState, unset, enabled,
}
use eapol_operator.Host.{Host, Link, VfAttr, OperState, oper_up, oper_down, Trace, Act}
use eapol_operator.Host.Views.{IsFaithful, IsObliging, once}
use eapol_operator.TrafficControl.Sriov.{PfInfo, VfInfo}
use eapol_operator.Hostap.Stats.{Stats}
use eapol_operator.Hostap.Monitor.{Monitor}

abbrev pub eth0 : Str
eth0 = bytes "eth0"

abbrev pub mac : Str
mac = bytes "02:aa"

abbrev pub other_mac : Str
other_mac = bytes "02:bb"

abbrev pub spec : AuthenticatorSpec
spec = record {
  enabled = false;
  interfaces = eth0 ∷ bytes "eth1" ∷ [];
  authentication = record { local = none; radius = none };
  configuration = none;
  image = [];
  node_selector = some ((bytes "role", bytes "edge") ∷ []);
  traffic_control = some (record {
    unprotected_ports = some (record { tcp = pos 53 ∷ []; udp = pos 53 ∷ pos 80 ∷ [] });
  });
}

abbrev pub resource : Authenticator
resource = record {
  name = bytes "auth";
  namespace = bytes "default";
  uid = bytes "u1";
  spec = spec;
  status = record { interfaces = [] };
}

abbrev pub link_of : OperState → Str → Link
link_of s n = record {
  name = n;
  oper_state = s;
  vfs = record { id = 0; vlan = 100 } ∷ record { id = 1; vlan = 200 } ∷ [];
}

-- Everything succeeds; every path is a directory and no VF has an interface.
abbrev pub machine : Host
machine = record {
  link = λ n t. ok (link_of oper_up n);
  set_vf_vlan = λ l i v t. ok tt;
  set_vf_state = λ l i v t. ok tt;
  find_program = λ p t. ok tt;
  shell = λ c t. ok tt;
  file_info = λ p t. ok true;
  matches = λ p t. ok [];
  entries = λ p t. ok [];
  write = λ c t. ok tt;
  close = λ t. ok tt;
  auth_object = λ t. ok resource;
  put_status = λ a t. ok tt;
  now = λ t. 10000000000;
  temp_name = λ t. ok (bytes "/tmp/c");
  connect = λ t. ok tt;
  is_timeout = λ e. true;
  retry_on_conflict = λ act. act;
  range_numbers = λ t ks. ks;
  range_texts = λ t ks. ks;
}

pub named : (n : Str) (l : Link) → Result.ok (link_of oper_up n) ≡ ok l → l.name ≡ n
named n l p = ground arith

pub faithful : IsFaithful machine
faithful = record {
  link_name = λ n t l p. named n l p;
  visits = λ t ks k. ((λ i. i), (λ i. i));
  visits_texts = λ t ks k. ((λ i. i), (λ i. i));
  retries = λ act t. once;
}

pub obliging : IsObliging machine
obliging = record {
  finds = λ n t. (link_of oper_up n, refl);
  takes_vlan = λ l i v t. refl;
  takes_state = λ l i v t. refl;
}

-- The PF that `GetSriovPFInfo` builds of `eth0`.
abbrev pub fresh_pf : PfInfo
fresh_pf = record {
  name = eth0;
  authenticated = false;
  authenticated_addrs = [];
  vfs = (0, record { index = 0; vlan = 100 }) ∷ (1, record { index = 1; vlan = 200 }) ∷ [];
}

abbrev pub no_stats : Stats
no_stats = record { auth_success = []; auth_failed = [] }

abbrev pub fresh : Monitor
fresh = record {
  if_name = eth0;
  has_client = true;
  pf = fresh_pf;
  deauth_requests = [];
  oper_state = oper_up;
  if_eap_state = enabled;
  stats = no_stats;
}

-- A client is authenticated, and has been asked to leave at time 0.
abbrev pub leaving : Monitor
leaving = record fresh {
  pf = record fresh_pf { authenticated = true; authenticated_addrs = (mac, tt) ∷ [] };
  deauth_requests = (mac, 0) ∷ [];
}
