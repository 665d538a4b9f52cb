-- ===== src/Configgen/Template/Secret.antt =====
-- The shared secret of the RADIUS server.
use eapol_operator.Base.{Str, bytes, Option, none, some, ◌≡◌, refl, ap, ◌∙◌, bytes_eq}
use eapol_operator.Base.Dict
use eapol_operator.Api.{Local, Radius, Authenticator}
use eapol_operator.Configgen.{
  daemonset, projected_config_volumes, hostapd_container, monitor_container,
}
use eapol_operator.Configgen.Template.{radius_lines, hostapd_conf, config_map}
use eapol_operator.Configgen.Template.Reader.{settings}
use eapol_operator.Configgen.Template.Escape.{IsHtmlEscape}
use eapol_operator.Configgen.Template.OneLine.{IsOneLine}
use eapol_operator.Configgen.Template.Files.{value_of, value_behind, skipped, last_skip}
use eapol_operator.Configgen.Template.Settings.{local_settings, radius_settings, settings_lem}

-- The resource with this name of the secret.
abbrev pub with_auth_secret : Str → Radius → Authenticator → Authenticator
with_auth_secret s r a = record a {
  spec = record a.spec {
    authentication = record a.spec.authentication { radius = some (record r { auth_secret = s }) };
  };
}

module _ (escape : Str → Str) (html : IsHtmlEscape escape) (a : Authenticator) (r : Radius)
    (given : a.spec.authentication.radius ≡ some r) where
  same_lines :
      (s : Str)
      → radius_lines escape (some (record r { auth_secret = s })) ≡ radius_lines escape (some r)
  unfolding radius_lines
  same_lines s = refl

  same_conf :
      (s : Str) → hostapd_conf escape (with_auth_secret s r a).spec ≡ hostapd_conf escape a.spec
  unfolding hostapd_conf
  same_conf s = rw given (rw (same_lines s) refl)

  no_secret :
      (l : Option Local)
      → value_of (bytes "auth_server_shared_secret") (local_settings escape l) ≡ none
  unfolding Dict.lookup bytes_eq
  no_secret none = refl
  no_secret (some l) = search (skipped, last_skip) depth 12

  read_secret :
      IsOneLine a.spec
      → value_of (bytes "auth_server_shared_secret") (settings (hostapd_conf escape a.spec))
        ≡ some (bytes "$AUTHSECRET")
  unfolding Dict.lookup bytes_eq
  read_secret one =
      ap (value_of (bytes "auth_server_shared_secret")) (settings_lem escape html a.spec one)
      ∙ value_behind (bytes "auth_server_shared_secret")
          (local_settings escape a.spec.authentication.local)
          (radius_settings escape a.spec.authentication.radius)
          (no_secret a.spec.authentication.local)
      ∙ rw given refl

  -- For an escaping as documented of html/template, with a RADIUS server: neither the ConfigMap nor the DaemonSet depends on the secret that the
  -- resource names, and if nothing that the resource gives has a line break, then the secret that
  -- hostapd reads is the text `$AUTHSECRET`.
  pub auth_secret_lost :
      (s account : Str)
      → IsOneLine a.spec
      → (config_map escape (with_auth_secret s r a) ≡ config_map escape a)
        × (daemonset (with_auth_secret s r a) account ≡ daemonset a account)
        × (Dict.lookup (bytes "auth_server_shared_secret") (settings (hostapd_conf escape a.spec))
            ≡ some (bytes "$AUTHSECRET"))
  unfolding config_map daemonset projected_config_volumes hostapd_container monitor_container
  auth_secret_lost s account one = (rw (same_conf s) refl, refl, read_secret one)
