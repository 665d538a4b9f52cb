-- ===== src/Configgen/Template/Settings.antt =====
-- The settings that hostapd reads of the generated configuration.
use eapol_operator.Base.{
  List, [], ◌∷◌, ◌++◌, Str, bytes, Option, none, some, ◌≡◌, refl, ap, ◌∙◌, nat_eq, map,
}
use eapol_operator.Base.Text.{join}
use eapol_operator.Base.Decimal.{ℤ, itoa}
use eapol_operator.Api.{SecretKeyRef, Local, Radius, Config, AuthenticatorSpec}
use eapol_operator.Configgen.Template.{
  heading, after_interfaces, common_lines, reauth_period, user_file_lines, ca_cert_lines,
  server_cert_lines, private_key_lines, radius_client_lines, server_heading, alternative,
  local_lines, radius_heading, accounting, radius_lines, conf_lines, hostapd_conf,
}
use eapol_operator.Configgen.Template.Reader.{
  read_line, read_lines, settings, read-append, append-empty_line, settings-lines_text, empty_read,
  no_read,
}
use eapol_operator.Configgen.Template.Escape.{IsHtmlEscape, digits_kept}
use eapol_operator.Configgen.Template.OneLine.{IsOneLine, conf-Lacks}

-- What is set for the file of a secret, if it is there.
abbrev pub if_set : Option SecretKeyRef → List (Str × Str) → List (Str × Str)
if_set none entries = []
if_set (some _) entries = entries

abbrev pub local_settings : (Str → Str) → Option Local → List (Str × Str)
local_settings escape none = []
local_settings escape (some l) =
    (bytes "eap_server", bytes "1")
    ∷ (if_set l.user_file_secret ((bytes "eap_user_file", bytes "/config/hostapd.eap_user") ∷ [])
        ++ (if_set l.ca_cert_secret ((bytes "ca_cert", bytes "/config/1x-ca.pem") ∷ [])
            ++ (if_set l.server_cert_secret
                  ((bytes "server_cert", bytes "/config/1x-hostapd.example.com.pem") ∷ [])
                ++ (if_set l.private_key_secret (
                      (bytes "private_key", bytes "/config/1x-hostapd.example.com.key")
                      ∷ (bytes "private_key_passwd", escape l.private_key_passphrase)
                      ∷ [])
                    ++ if_set l.radius_client_secret (
                        (bytes "radius_server_clients", bytes "/config/hostapd.radius_clients")
                        ∷ (bytes "radius_server_auth_port", itoa l.auth_port)
                        ∷ [])))))

abbrev pub radius_settings : (Str → Str) → Option Radius → List (Str × Str)
radius_settings escape none = []
radius_settings escape (some r) =
    (bytes "own_ip_addr", bytes "127.0.0.1")
    ∷ (bytes "nas_identifier", bytes "ap.example.com")
    ∷ (bytes "auth_server_addr", escape r.auth_server)
    ∷ (bytes "auth_server_port", itoa r.auth_port)
    ∷ (bytes "auth_server_shared_secret", bytes "$AUTHSECRET")
    ∷ []

abbrev pub period_for : Option Config → Str
period_for none = bytes "3600"
period_for (some config) = itoa config.eap_reauth_period

-- The settings of a resource, in the order of the file. The names, the passphrase and the address of
-- the server are as they come out of the escaping.
abbrev pub settings_for : (Str → Str) → AuthenticatorSpec → List (Str × Str)
settings_for escape spec =
    (bytes "interface", join (bytes ",") (map escape spec.interfaces))
    ∷ (bytes "driver", bytes "wired")
    ∷ (bytes "logger_stdout", bytes "-1")
    ∷ (bytes "logger_stdout_level", bytes "1")
    ∷ (bytes "ctrl_interface", bytes "/var/run/hostapd")
    ∷ (bytes "ieee8021x", bytes "1")
    ∷ (bytes "eap_reauth_period", period_for spec.configuration)
    ∷ (bytes "use_pae_group_addr", bytes "1")
    ∷ (local_settings escape spec.authentication.local
        ++ radius_settings escape spec.authentication.radius)

user_file_read :
    (r : Option SecretKeyRef)
    → read_lines (user_file_lines r)
      ≡ if_set r ((bytes "eap_user_file", bytes "/config/hostapd.eap_user") ∷ [])
unfolding read_lines read_line user_file_lines
user_file_read none = refl
user_file_read (some _) = refl

ca_cert_read :
    (r : Option SecretKeyRef)
    → read_lines (ca_cert_lines r) ≡ if_set r ((bytes "ca_cert", bytes "/config/1x-ca.pem") ∷ [])
unfolding read_lines read_line ca_cert_lines
ca_cert_read none = refl
ca_cert_read (some _) = refl

server_cert_read :
    (r : Option SecretKeyRef)
    → read_lines (server_cert_lines r)
      ≡ if_set r ((bytes "server_cert", bytes "/config/1x-hostapd.example.com.pem") ∷ [])
unfolding read_lines read_line server_cert_lines
server_cert_read none = refl
server_cert_read (some _) = refl

server_heading_read : read_lines server_heading ≡ (bytes "eap_server", bytes "1") ∷ []
unfolding read_lines read_line server_heading
server_heading_read = refl

alternative_read : read_lines alternative ≡ []
unfolding read_lines read_line alternative
alternative_read = refl

-- The part that every resource has.
common_settings : Str → Str → List (Str × Str) → List (Str × Str)
common_settings names period rest =
    (bytes "interface", names)
    ∷ (bytes "driver", bytes "wired")
    ∷ (bytes "logger_stdout", bytes "-1")
    ∷ (bytes "logger_stdout_level", bytes "1")
    ∷ (bytes "ctrl_interface", bytes "/var/run/hostapd")
    ∷ (bytes "ieee8021x", bytes "1")
    ∷ (bytes "eap_reauth_period", period)
    ∷ (bytes "use_pae_group_addr", bytes "1")
    ∷ rest

module _ (escape : Str → Str) (html : IsHtmlEscape escape) where
  private_key_read :
      (r : Option SecretKeyRef) (passphrase : Str)
      → read_lines (private_key_lines escape r passphrase)
        ≡ if_set r (
            (bytes "private_key", bytes "/config/1x-hostapd.example.com.key")
            ∷ (bytes "private_key_passwd", escape passphrase)
            ∷ [])
  unfolding read_lines read_line private_key_lines
  private_key_read none passphrase = refl
  private_key_read (some _) passphrase = refl

  radius_client_read :
      (r : Option SecretKeyRef) (port : ℤ)
      → read_lines (radius_client_lines escape r port)
        ≡ if_set r (
            (bytes "radius_server_clients", bytes "/config/hostapd.radius_clients")
            ∷ (bytes "radius_server_auth_port", itoa port)
            ∷ [])
  unfolding read_lines read_line radius_client_lines
  radius_client_read none port = refl
  radius_client_read (some _) port =
      ap
        (λ v.
          (bytes "radius_server_clients", bytes "/config/hostapd.radius_clients")
          ∷ (bytes "radius_server_auth_port", v)
          ∷ [])
        (digits_kept escape html port)

  local_read : (l : Option Local) → read_lines (local_lines escape l) ≡ local_settings escape l
  unfolding local_lines
  local_read none = unfold read_lines in refl
  local_read (some l) = simp (
    read-append, empty_read, server_heading_read, user_file_read, ca_cert_read, server_cert_read,
    private_key_read, radius_client_read, alternative_read, append-empty_line,
  )

  radius_read : (r : Option Radius) → read_lines (radius_lines escape r) ≡ radius_settings escape r
  unfolding radius_lines radius_heading accounting read_lines read_line
  radius_read none = refl
  radius_read (some r) =
      ap
        (λ v.
          (bytes "own_ip_addr", bytes "127.0.0.1")
          ∷ (bytes "nas_identifier", bytes "ap.example.com")
          ∷ (bytes "auth_server_addr", escape r.auth_server)
          ∷ (bytes "auth_server_port", v)
          ∷ (bytes "auth_server_shared_secret", bytes "$AUTHSECRET")
          ∷ [])
        (digits_kept escape html r.auth_port)

  reauth_period_lem : (c : Option Config) → reauth_period escape c ≡ period_for c
  unfolding reauth_period
  reauth_period_lem none = refl
  reauth_period_lem (some c) = digits_kept escape html c.eap_reauth_period

  rest_read :
      (l : Option Local) (r : Option Radius)
      → read_lines (local_lines escape l ++ ([] ∷ [] ∷ (radius_lines escape r ++ ([] ∷ []))))
        ≡ local_settings escape l ++ radius_settings escape r
  rest_read l r =
      simp (read-append, empty_read, local_read, radius_read, append-empty_line, no_read)

  common_read :
      (names : List Str) (period : Str) (ls : List Str)
      → read_lines (common_lines escape names period ls)
        ≡ common_settings (join (bytes ",") (map escape names)) period (read_lines ls)
  unfolding common_lines heading after_interfaces read_lines read_line common_settings
  common_read names period ls = refl

  conf_read :
      (spec : AuthenticatorSpec) → read_lines (conf_lines escape spec) ≡ settings_for escape spec
  unfolding conf_lines
  conf_read spec =
      common_read spec.interfaces (reauth_period escape spec.configuration) _
      ∙ unfold common_settings in
        rw
          (
            rest_read spec.authentication.local spec.authentication.radius,
            reauth_period_lem spec.configuration,
          )
          refl

  -- For an escaping as documented of html/template: if nothing that the resource gives has a line
  -- break, then what hostapd reads of the generated
  -- hostapd.conf is, in this order: the interfaces, the fixed settings, the period of the resource or
  -- else 3600, and if they are configured the settings of the local server, each file only if its
  -- secret is named, and those of the RADIUS server; the names of the interfaces, the passphrase of the
  -- key and the address of the server are written as the escaping leaves them. No line of it is read as anything else.
  pub settings_lem :
      (spec : AuthenticatorSpec)
      → IsOneLine spec
      → settings (hostapd_conf escape spec) ≡ settings_for escape spec
  unfolding hostapd_conf
  settings_lem spec one =
      settings-lines_text (conf_lines escape spec) (conf-Lacks escape html spec one)
      ∙ conf_read spec
