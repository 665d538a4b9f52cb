-- ===== src/Examples/Conf.antt =====
-- The theorems on hostapd.conf, applied to a resource with a local and a RADIUS server.
use eapol_operator.Base.{
  [], ◌∷◌, ◌++◌, bytes, none, some, ◌≡◌, refl, arith, Lacks, bytes_eq, nat_eq, All,
}
use eapol_operator.Base.Dict
use eapol_operator.Base.Text.{join}
use mathlib.Core.Path.{subst}
use mathlib.Core.Option.{some-injective}
use eapol_operator.Base.Decimal.{pos, itoa}
use eapol_operator.Api.{Local, Radius, Authenticator}
use eapol_operator.Configgen.{
  projected_config_volumes, from_config_map, config_file, user_file, ca_file, cert_file,
  private_key_file, radius_client_file, daemonset, hostapd_container, monitor_container,
}
use eapol_operator.Configgen.Volumes.{found_at}
use eapol_operator.Configgen.Handover.{getenv}
use eapol_operator.Configgen.Template.{hostapd_conf, config_map}
use eapol_operator.Configgen.Template.Reader.{settings}
use eapol_operator.Configgen.Template.OneLine.{IsOneLine}
use eapol_operator.Configgen.Template.Settings.{settings_lem}
use eapol_operator.Configgen.Template.Files.{IsProvided, mount_of, files_handover}
use eapol_operator.Configgen.Template.Secret.{with_auth_secret, auth_secret_lost}
use eapol_operator.Configgen.Template.Escape.{IsPlain}
use eapol_operator.Examples.Escaping.{html_escape, html_escape-IsHtmlEscape}
use eapol_operator.Examples.{eth0, spec, resource}

-- Users and a key, but no certificates and no RADIUS clients.
abbrev users : Local
users = record {
  user_file_secret = some (record { name = bytes "users"; key = [] });
  ca_cert_secret = none;
  server_cert_secret = none;
  private_key_secret = some (record { name = bytes "key"; key = bytes "k" });
  private_key_passphrase = bytes "a+b";
  radius_client_secret = none;
  auth_port = pos 1812;
}

abbrev server : Radius
server = record { auth_server = bytes "1.1.1.1"; auth_port = pos 1645; auth_secret = bytes "s" }

abbrev both : Authenticator
both = record resource {
  spec = record spec { authentication = record { local = some users; radius = some server } };
}

passphrase_line : (l : Local) → some users ≡ some l → Lacks 10 l.private_key_passphrase
passphrase_line l e =
    subst (λ k. Lacks 10 k.private_key_passphrase) (some-injective users l e)
      ((λ p. omega arith), ((λ p. omega arith), ((λ p. omega arith), tt)))

server_line : (r : Radius) → some server ≡ some r → Lacks 10 r.auth_server
server_line r e = subst (λ k. Lacks 10 k.auth_server) (some-injective server r e) (omega arith)

both-IsOneLine : IsOneLine both.spec
both-IsOneLine = record {
  interfaces = omega arith;
  passphrase = passphrase_line;
  server = server_line;
}

both-IsPlain : All IsPlain both.spec.interfaces
both-IsPlain = omega arith

settings_example :
    settings (hostapd_conf html_escape both.spec)
    ≡ (bytes "interface", join (bytes ",") (eth0 ∷ bytes "eth1" ∷ []))
      ∷ (bytes "driver", bytes "wired")
      ∷ (bytes "logger_stdout", bytes "-1")
      ∷ (bytes "logger_stdout_level", bytes "1")
      ∷ (bytes "ctrl_interface", bytes "/var/run/hostapd")
      ∷ (bytes "ieee8021x", bytes "1")
      ∷ (bytes "eap_reauth_period", bytes "3600")
      ∷ (bytes "use_pae_group_addr", bytes "1")
      ∷ (bytes "eap_server", bytes "1")
      ∷ (bytes "eap_user_file", bytes "/config/hostapd.eap_user")
      ∷ (bytes "private_key", bytes "/config/1x-hostapd.example.com.key")
      ∷ (bytes "private_key_passwd", bytes "a&#43;b")
      ∷ (bytes "own_ip_addr", bytes "127.0.0.1")
      ∷ (bytes "nas_identifier", bytes "ap.example.com")
      ∷ (bytes "auth_server_addr", bytes "1.1.1.1")
      ∷ (bytes "auth_server_port", itoa (pos 1645))
      ∷ (bytes "auth_server_shared_secret", bytes "$AUTHSECRET")
      ∷ []
unfolding nat_eq
settings_example = settings_lem html_escape html_escape-IsHtmlEscape both.spec both-IsOneLine

files_handover_example :
    let read = settings (hostapd_conf html_escape both.spec) in
    let volumes = projected_config_volumes both in
    let hostapd = hostapd_container both.spec in
    let monitor = monitor_container both.spec in
    IsProvided read volumes (bytes "eap_user_file") user_file
    × IsProvided read volumes (bytes "ca_cert") ca_file
    × IsProvided read volumes (bytes "server_cert") cert_file
    × IsProvided read volumes (bytes "private_key") private_key_file
    × IsProvided read volumes (bytes "radius_server_clients") radius_client_file
    × (found_at config_file volumes
        ≡ from_config_map (config_map html_escape both).name config_file config_file ∷ [])
    × (Dict.lookup config_file (config_map html_escape both).data_of
        ≡ some (hostapd_conf html_escape both.spec))
    × (getenv (bytes "CONFIG") hostapd.env ≡ bytes "/config/" ++ config_file)
    × (mount_of (bytes "config-volume") hostapd.volume_mounts ≡ some (bytes "/config"))
    × (Dict.lookup (bytes "interface") read ≡ some (getenv (bytes "IFACES") monitor.env))
    × (Dict.lookup (bytes "ctrl_interface") read
        ≡ mount_of (bytes "sockets-volume") hostapd.volume_mounts)
    × (Dict.lookup (bytes "ctrl_interface") read
        ≡ mount_of (bytes "sockets-volume") monitor.volume_mounts)
files_handover_example =
    files_handover html_escape html_escape-IsHtmlEscape both both-IsOneLine both-IsPlain

auth_secret_lost_example :
    (config_map html_escape (with_auth_secret (bytes "t") server both)
      ≡ config_map html_escape both)
    × (daemonset (with_auth_secret (bytes "t") server both) (bytes "sa")
        ≡ daemonset both (bytes "sa"))
    × (Dict.lookup
          (bytes "auth_server_shared_secret")
          (settings (hostapd_conf html_escape both.spec))
        ≡ some (bytes "$AUTHSECRET"))
auth_secret_lost_example =
    auth_secret_lost html_escape html_escape-IsHtmlEscape both server refl (bytes "t") (bytes "sa")
      both-IsOneLine
