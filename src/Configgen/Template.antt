-- ===== src/Configgen/Template.antt =====
-- pkg/configgen/data/hostapd.conf.tmpl and `ConfigMap` of pkg/configgen/configgen.go: the text that
-- html/template makes of the template, line by line. An action that trims (`{{-`, `-}}`) takes the
-- line break with it, so a part that is left out leaves one empty line. The template has no `<`, so
-- each value that it inserts is escaped as text of HTML: this is the parameter `escape`.
pub mod Escape
pub mod Reader
pub mod OneLine
pub mod Settings
pub mod Files
pub mod Secret
use eapol_operator.Base.{List, [], ◌∷◌, ◌++◌, Str, bytes, String, Option, none, some, map}
use eapol_operator.Base.Dict.{Dict}
use eapol_operator.Base.Text.{join}
use eapol_operator.Base.Decimal.{ℤ, pos, itoa}
use eapol_operator.Api.{SecretKeyRef, Local, Radius, Config, AuthenticatorSpec, Authenticator}
use eapol_operator.Configgen.{config_file}

-- Each line with its line break.
unfoldable pub lines_text : List Str → Str
lines_text [] = []
lines_text (l ∷ ls) = l ++ (10 ∷ lines_text ls)

heading : List Str
heading =
    bytes "##### hostapd configuration file ##############################################"
    ∷ bytes "# Empty lines and lines starting with # are ignored"
    ∷ []
    ∷ bytes "# Example configuration file for wired authenticator. See hostapd.conf for"
    ∷ bytes "# more details."
    ∷ []
    ∷ []

after_interfaces : List Str
after_interfaces =
    bytes "driver=wired"
    ∷ bytes "logger_stdout=-1"
    ∷ bytes "logger_stdout_level=1"
    ∷ bytes "ctrl_interface=/var/run/hostapd"
    ∷ []
    ∷ bytes "ieee8021x=1"
    ∷ []

-- `{{ with .Configuration -}}`
reauth_period : (Str → Str) → Option Config → Str
reauth_period escape none = bytes "3600"
reauth_period escape (some config) = escape (itoa config.eap_reauth_period)

-- `{{ if .UserFileSecret -}}`
user_file_lines : Option SecretKeyRef → List Str
user_file_lines none = [] ∷ []
user_file_lines (some _) =
    bytes "# Path for EAP server user database"
    ∷ bytes "# If SQLite support is included, this can be set to \"sqlite:/path/to/sqlite.db\""
    ∷ bytes "# to use SQLite database instead of a text file."
    ∷ bytes "eap_user_file=/config/hostapd.eap_user"
    ∷ []

-- `{{ if .CaCertSecret -}}`
ca_cert_lines : Option SecretKeyRef → List Str
ca_cert_lines none = [] ∷ []
ca_cert_lines (some _) =
    bytes "# CA certificate (PEM or DER file) for EAP-TLS/PEAP/TTLS"
    ∷ bytes "ca_cert=/config/1x-ca.pem"
    ∷ []

-- `{{ if .ServerCertSecret -}}`
server_cert_lines : Option SecretKeyRef → List Str
server_cert_lines none = [] ∷ []
server_cert_lines (some _) =
    bytes "# Server certificate (PEM or DER file) for EAP-TLS/PEAP/TTLS"
    ∷ bytes "server_cert=/config/1x-hostapd.example.com.pem"
    ∷ []

-- `{{ if .PrivateKeySecret -}}`
private_key_lines : (Str → Str) → Option SecretKeyRef → Str → List Str
private_key_lines escape none passphrase = [] ∷ []
private_key_lines escape (some _) passphrase =
    bytes "# Private key matching with the server certificate for EAP-TLS/PEAP/TTLS"
    ∷ bytes "# This may point to the same file as server_cert if both certificate and key"
    ∷ bytes "# are included in a single file. PKCS#12 (PFX) file (.p12/.pfx) can also be"
    ∷ bytes "# used by commenting out server_cert and specifying the PFX file as the"
    ∷ bytes "# private_key."
    ∷ bytes "private_key=/config/1x-hostapd.example.com.key"
    ∷ []
    ∷ bytes "# Passphrase for private key"
    ∷ (bytes "private_key_passwd=" ++ escape passphrase)
    ∷ []

-- `{{ if .RadiusClientSecret -}}`
radius_client_lines : (Str → Str) → Option SecretKeyRef → ℤ → List Str
radius_client_lines escape none port = [] ∷ []
radius_client_lines escape (some _) port =
    bytes "# Local Radius server configuration"
    ∷ bytes "radius_server_clients=/config/hostapd.radius_clients"
    ∷ (bytes "radius_server_auth_port=" ++ escape (itoa port))
    ∷ []

server_heading : List Str
server_heading =
    bytes "##### Integrated EAP server ###################################################"
    ∷ []
    ∷ bytes "# Use integrated EAP server instead of external RADIUS authentication"
    ∷ bytes "# server. This is also needed if hostapd is configured to act as a RADIUS"
    ∷ bytes "# authentication server."
    ∷ bytes "eap_server=1"
    ∷ []
    ∷ []

alternative : List Str
alternative =
    bytes "# An alternative server certificate and private key can be configured with the"
    ∷ bytes "# following parameters (with values just like the parameters above without the"
    ∷ bytes "# '2' suffix). The ca_cert file (in PEM encoding) is used to add the trust roots"
    ∷ bytes "# for both server certificates and/or client certificates)."
    ∷ bytes "#"
    ∷ bytes "# The main use case for this alternative server certificate configuration is to"
    ∷ bytes "# enable both RSA and ECC public keys. The server will pick which one to use"
    ∷ bytes "# based on the client preferences for the cipher suite (in the TLS ClientHello"
    ∷ bytes "# message). It should be noted that number of deployed EAP peer implementations"
    ∷ bytes "# do not filter out the cipher suite list based on their local configuration and"
    ∷ bytes "# as such, configuration of alternative types of certificates on the server may"
    ∷ bytes "# result in interoperability issues."
    ∷ bytes "#server_cert2=/etc/hostapd.server-ecc.pem"
    ∷ bytes "#private_key2=/etc/hostapd.server-ecc.prv"
    ∷ bytes "#private_key_passwd2=secret passphrase"
    ∷ []
    ∷ bytes "# Server identity"
    ∷ bytes "# EAP methods that provide mechanism for authenticated server identity delivery"
    ∷ bytes "# use this value. If not set, \"hostapd\" is used as a default."
    ∷ bytes "#server_id=server.example.com"
    ∷ []

-- `{{ with .Authentication.Local -}}`
local_lines : (Str → Str) → Option Local → List Str
local_lines escape none = []
local_lines escape (some local) =
    server_heading
    ++ (user_file_lines local.user_file_secret
        ++ ([]
            ∷ (ca_cert_lines local.ca_cert_secret
                ++ ([]
                    ∷ (server_cert_lines local.server_cert_secret
                        ++ ([]
                            ∷ (private_key_lines escape local.private_key_secret
                                  local.private_key_passphrase
                                ++ ([]
                                    ∷ (radius_client_lines escape local.radius_client_secret
                                          local.auth_port
                                        ++ ([] ∷ alternative))))))))))

radius_heading : List Str
radius_heading =
    []
    ∷ bytes "##### RADIUS configuration ####################################################"
    ∷ bytes "# for IEEE 802.1X with external Authentication Server, IEEE 802.11"
    ∷ bytes "# authentication with external ACL for MAC addresses, and accounting"
    ∷ []
    ∷ bytes "# The own IP address of the access point (used as NAS-IP-Address)"
    ∷ bytes "own_ip_addr=127.0.0.1"
    ∷ []
    ∷ bytes "# Optional NAS-Identifier string for RADIUS messages. When used, this should be"
    ∷ bytes "# a unique to the NAS within the scope of the RADIUS server. For example, a"
    ∷ bytes "# fully qualified domain name can be used here."
    ∷ bytes "nas_identifier=ap.example.com"
    ∷ []
    ∷ bytes "# RADIUS authentication server"
    ∷ []

accounting : List Str
accounting =
    bytes "auth_server_shared_secret=$AUTHSECRET"
    ∷ []
    ∷ bytes "# RADIUS accounting server"
    ∷ bytes "#acct_server_addr=127.0.0.1"
    ∷ bytes "#acct_server_port=1813"
    ∷ bytes "#acct_server_shared_secret=radius"
    ∷ []

-- `{{ with .Authentication.Radius }}`
radius_lines : (Str → Str) → Option Radius → List Str
radius_lines escape none = []
radius_lines escape (some radius) =
    radius_heading
    ++ ((bytes "auth_server_addr=" ++ escape radius.auth_server)
        ∷ (bytes "auth_server_port=" ++ escape (itoa radius.auth_port))
        ∷ accounting)

-- What every resource gets, before what depends on its authentication. The range over the interfaces
-- writes a comma before each but the first.
common_lines : (Str → Str) → List Str → Str → List Str → List Str
common_lines escape interfaces period rest =
    heading
    ++ ((bytes "interface=" ++ join (bytes ",") (map escape interfaces))
        ∷ (after_interfaces
            ++ ((bytes "eap_reauth_period=" ++ period)
                ∷ []
                ∷ bytes "use_pae_group_addr=1"
                ∷ []
                ∷ rest)))

pub conf_lines : (Str → Str) → AuthenticatorSpec → List Str
unfolding common_lines
conf_lines escape spec =
    common_lines escape spec.interfaces (reauth_period escape spec.configuration) (
      local_lines escape spec.authentication.local
      ++ ([] ∷ [] ∷ (radius_lines escape spec.authentication.radius ++ ([] ∷ []))))

pub hostapd_conf : (Str → Str) → AuthenticatorSpec → Str
unfolding conf_lines
hostapd_conf escape spec = lines_text (conf_lines escape spec)

pub record ConfigMap : Type 0 where
  pub name : Str
  pub namespace : Str
  pub data_of : Dict Str Str

-- The template is a constant that can be parsed, and names fields that are there, so neither of the
-- two error paths is taken.
unfoldable pub config_map : (Str → Str) → Authenticator → ConfigMap
config_map escape a = record {
  name = a.name;
  namespace = a.namespace;
  data_of = (config_file, hostapd_conf escape a.spec) ∷ [];
}
