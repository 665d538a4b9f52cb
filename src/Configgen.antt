-- ===== src/Configgen.antt =====
-- pkg/configgen/configgen.go: the DaemonSet that the operator makes of an `Authenticator`. The
-- fields that are the same constant for every resource and say nothing to the pod's programs (the
-- "defaults to avoid excessive reconciliations") are left out.
pub mod Volumes
pub mod Labels
pub mod Handover
pub mod Template
use eapol_operator.Base.{
  ℕ, List, [], ◌∷◌, ◌++◌, Str, bytes, String, Bool, true, false, not, Option, none, some, length,
  ltb, if◌then◌else◌, ◌==◌, bytes_eq,
}
use eapol_operator.Base.Dict
use eapol_operator.Base.Dict.{Dict}
use eapol_operator.Base.Text.{join}
use eapol_operator.Base.Decimal.{ℤ, itoa}
use eapol_operator.Api.{
  SecretKeyRef, Local, Ports, TrafficControl, AuthenticatorSpec, Authenticator,
}

abbrev pub app_id : Str
app_id = bytes "authenticator.eapol"

abbrev pub auth_namespace : Str
auth_namespace = bytes "authenticator-namespace"

abbrev pub auth_name : Str
auth_name = bytes "authenticator-name"

abbrev pub config_file : Str
config_file = bytes "hostapd.conf"

abbrev pub user_file : Str
user_file = bytes "hostapd.eap_user"

abbrev pub ca_file : Str
ca_file = bytes "1x-ca.pem"

abbrev pub cert_file : Str
cert_file = bytes "1x-hostapd.example.com.pem"

abbrev pub private_key_file : Str
private_key_file = bytes "1x-hostapd.example.com.key"

abbrev pub radius_client_file : Str
radius_client_file = bytes "hostapd.radius_clients"

abbrev pub default_image : Str
default_image = bytes "quay.io/openshift-kni/eapol-authenticator:latest"

abbrev pub disabled_selector : Str
disabled_selector = bytes "no-node"

abbrev pub disabled_reason : Str
disabled_reason = bytes "Disabled_via_config"

-- `corev1.VolumeProjection`, of one item, with the name of the object, the key and the path.
pub data VolumeProjection : Type 0 where
  from_config_map : Str → Str → Str → VolumeProjection
  from_secret : Str → Str → Str → VolumeProjection

-- `corev1.EnvVar`
pub data EnvVar : Type 0 where
  value : Str → Str → EnvVar
  -- the path of a field of the pod
  field_ref : Str → Str → EnvVar

-- `corev1.VolumeMount`
pub record VolumeMount : Type 0 where
  pub name : Str
  pub mount_path : Str

pub record Container : Type 0 where
  pub name : Str
  pub image : Str
  pub volume_mounts : List VolumeMount
  pub capabilities : List Str
  pub command : List Str
  pub env : List EnvVar

pub data Volume : Type 0 where
  projected : Str → List VolumeProjection → Volume
  empty_dir : Str → Volume
  -- the file and the field of the pod
  downward_api : Str → Str → Str → Volume

pub record DaemonSet : Type 0 where
  pub name : Str
  pub namespace : Str
  pub labels : Dict Str Str
  pub match_labels : Dict Str Str
  pub pod_labels : Dict Str Str
  pub node_selector : Option (Dict Str Str)
  pub host_network : Bool
  pub service_account : Str
  pub containers : List Container
  pub volumes : List Volume

or_default : Str → Str → Str
or_default [] d = d
or_default (c ∷ s) d = c ∷ s

-- The projection of a secret, if it is named, to the path under which hostapd looks for it.
secret_at : Option SecretKeyRef → Str → List VolumeProjection
unfolding or_default
secret_at none path = []
secret_at (some ref) path = from_secret ref.name (or_default ref.key path) path ∷ []

append_user_file : Option Local → List VolumeProjection → List VolumeProjection
unfolding secret_at
append_user_file none volumes = volumes
append_user_file (some local) volumes = volumes ++ secret_at local.user_file_secret user_file

append_cert_volume : Option Local → List VolumeProjection → List VolumeProjection
unfolding secret_at
append_cert_volume none volumes = volumes
append_cert_volume (some local) volumes =
    ((volumes ++ secret_at local.ca_cert_secret ca_file)
      ++ secret_at local.server_cert_secret cert_file)
    ++ secret_at local.private_key_secret private_key_file

append_radius_client_volume : Option Local → List VolumeProjection → List VolumeProjection
unfolding secret_at
append_radius_client_volume none volumes = volumes
append_radius_client_volume (some local) volumes =
    volumes ++ secret_at local.radius_client_secret radius_client_file

-- The config map, and the secrets.
unfoldable pub projected_config_volumes : Authenticator → List VolumeProjection
unfolding append_user_file append_cert_volume append_radius_client_volume secret_at or_default
projected_config_volumes a = append_radius_client_volume a.spec.authentication.local (
    append_cert_volume a.spec.authentication.local (
      append_user_file a.spec.authentication.local
        (from_config_map a.name config_file config_file ∷ [])))

-- The loop of `parsePorts` over one list, and what its builder holds.
unfoldable pub write_ports : List ℤ → Str → Str
write_ports [] built = built
write_ports (port ∷ rest) built =
    write_ports rest ((if ltb 0 (length built) then built ++ 32 ∷ [] else built) ++ itoa port)

of_ports : Option Ports → Str × Str
unfolding write_ports
of_ports none = ([], [])
of_ports (some ports) = (write_ports ports.tcp [], write_ports ports.udp [])

unfoldable pub parse_ports : Option TrafficControl → Str × Str
unfolding of_ports
parse_ports none = ([], [])
parse_ports (some traffic) = of_ports traffic.unprotected_ports

-- The node selector of the pods. The map of the resource is written to when it is there.
disable : Option (Dict Str Str) → Dict Str Str
disable none = Dict.insert disabled_selector disabled_reason []
disable (some nodes) = Dict.insert disabled_selector disabled_reason nodes

node_selector_for : AuthenticatorSpec → Option (Dict Str Str)
unfolding disable
node_selector_for spec =
    if not spec.enabled then some (disable spec.node_selector) else spec.node_selector

left_in : Option (Dict Str Str) → Option (Dict Str Str) → Option (Dict Str Str)
left_in none used = none
left_in (some nodes) used = used

unfoldable pub labels_of : Authenticator → Dict Str Str
labels_of a = (bytes "app", app_id) ∷ (auth_namespace, a.namespace) ∷ (auth_name, a.name) ∷ []

container : Str → Str → Str → List EnvVar → Container
container image name command env = record {
  name = name;
  image = image;
  volume_mounts =
      record { name = bytes "config-volume"; mount_path = bytes "/config" }
      ∷ record { name = bytes "sockets-volume"; mount_path = bytes "/var/run/hostapd" }
      ∷ record { name = bytes "authenticator-volume"; mount_path = bytes "/config/auth" }
      ∷ [];
  capabilities = bytes "NET_ADMIN" ∷ bytes "NET_RAW" ∷ [];
  command = command ∷ [];
  env = env;
}

-- The variables that both containers get, before one of their own.
shared_env : AuthenticatorSpec → EnvVar → List EnvVar
shared_env spec own =
    value (bytes "IFACES") (join (bytes ",") spec.interfaces)
    ∷ value (bytes "UNPROTECTED_TCP_PORTS") (parse_ports spec.traffic_control).0
    ∷ value (bytes "UNPROTECTED_UDP_PORTS") (parse_ports spec.traffic_control).1
    ∷ own
    ∷ []

unfoldable pub hostapd_container : AuthenticatorSpec → Container
unfolding container shared_env or_default
hostapd_container spec =
    container (or_default spec.image default_image) (bytes "hostapd")
      (bytes "/bin/hostapd-start.sh")
      (shared_env spec (value (bytes "CONFIG") (bytes "/config/hostapd.conf")))

unfoldable pub monitor_container : AuthenticatorSpec → Container
unfolding container shared_env or_default
monitor_container spec =
    container (or_default spec.image default_image) (bytes "hostapd-monitor")
      (bytes "/bin/hostapd-monitor")
      (shared_env spec (field_ref (bytes "AUTHENTICATOR_HOST") (bytes "status.hostIP")))

unfoldable pub daemonset : Authenticator → Str → DaemonSet
unfolding node_selector_for disable hostapd_container monitor_container labels_of
daemonset a service_account = record {
  name = a.name;
  namespace = a.namespace;
  labels = labels_of a;
  match_labels = labels_of a;
  pod_labels = labels_of a;
  node_selector = node_selector_for a.spec;
  host_network = true;
  service_account = service_account;
  containers = hostapd_container a.spec ∷ monitor_container a.spec ∷ [];
  volumes =
      projected (bytes "config-volume") (projected_config_volumes a)
      ∷ empty_dir (bytes "sockets-volume")
      ∷ downward_api (bytes "authenticator-volume") (bytes "labels") (bytes "metadata.labels")
      ∷ [];
}

-- What `Daemonset` leaves of the resource: the selector's map is shared with the DaemonSet.
unfoldable pub after_daemonset : Authenticator → Authenticator
unfolding node_selector_for left_in disable
after_daemonset a = record a {
  spec = record a.spec { node_selector = left_in a.spec.node_selector (node_selector_for a.spec) };
}
