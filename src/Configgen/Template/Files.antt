-- ===== src/Configgen/Template/Files.antt =====
-- The configuration of hostapd and the pod that it runs in: the files, the sockets, the interfaces.
use eapol_operator.Base.{
  List, [], ◌∷◌, ◌++◌, Str, bytes, Option, none, some, ◌≡◌, refl, ap, ◌∙◌, arith, inl, inr, ◌⊎◌,
  if◌then◌else◌, ◌==◌, bytes_eq, All,
}
use eapol_operator.Base.Text.{join}
use eapol_operator.Configgen.Template.Escape.{IsPlain, IsHtmlEscape, names_kept}
use eapol_operator.Base.Dict
use eapol_operator.Api.{SecretKeyRef, Local, Radius, Authenticator}
use eapol_operator.Configgen.{
  VolumeProjection, from_config_map, VolumeMount, hostapd_container, monitor_container,
  projected_config_volumes, user_file, ca_file, cert_file, private_key_file, radius_client_file,
  config_file,
}
use eapol_operator.Configgen.Volumes.{found_at, wanted, secret_of, projected_files}
use eapol_operator.Configgen.Handover.{getenv}
use eapol_operator.Configgen.Template.{hostapd_conf, config_map}
use eapol_operator.Configgen.Template.Reader.{settings}
use eapol_operator.Configgen.Template.OneLine.{IsOneLine}
use eapol_operator.Configgen.Template.Settings.{
  if_set, local_settings, radius_settings, settings_for, settings_lem,
}

abbrev pub value_of : Str → List (Str × Str) → Option Str
value_of key es = Dict.lookup key es

-- The value of a setting for the file of a secret.
abbrev file_for : Str → Option SecretKeyRef → Option Str
file_for path none = none
file_for path (some ref) = some path

module _ (key : Str) where
  pub value_behind :
      (es rest : List (Str × Str))
      → value_of key es ≡ none
      → value_of key (es ++ rest) ≡ value_of key rest
  unfolding Dict.lookup
  value_behind [] rest h = refl
  value_behind ((k, v) ∷ es) rest h = ground (arith, value_behind es rest)

  value_before :
      (es rest : List (Str × Str))
      → value_of key rest ≡ none
      → value_of key (es ++ rest) ≡ value_of key es
  unfolding Dict.lookup
  value_before [] rest h = h
  value_before ((k, v) ∷ es) rest h = ground (arith, value_before es rest)

  -- A part without the key.
  pub skipped :
      (es : List (Str × Str)) (r : Option SecretKeyRef) (rest : List (Str × Str)) (v : Option Str)
      → value_of key es ≡ none
      → value_of key rest ≡ v
      → value_of key (if_set r es ++ rest) ≡ v
  skipped es none rest v h p = p
  skipped es (some ref) rest v h p = value_behind es rest h ∙ p

  -- The part that has it, with nothing of it behind.
  reached :
      (path : Str) (es : List (Str × Str)) (r : Option SecretKeyRef) (rest : List (Str × Str))
      → value_of key es ≡ some path
      → value_of key rest ≡ none
      → value_of key (if_set r es ++ rest) ≡ file_for path r
  reached path es none rest h n = n
  reached path es (some ref) rest h n = value_before es rest n ∙ h

  last_reached :
      (path : Str) (es : List (Str × Str)) (r : Option SecretKeyRef)
      → value_of key es ≡ some path
      → value_of key (if_set r es) ≡ file_for path r
  unfolding Dict.lookup
  last_reached path es none h = refl
  last_reached path es (some ref) h = h

  pub last_skip :
      (es : List (Str × Str)) (r : Option SecretKeyRef)
      → value_of key es ≡ none
      → value_of key (if_set r es) ≡ none
  unfolding Dict.lookup
  last_skip es none h = refl
  last_skip es (some ref) h = h

module _ (escape : Str → Str) (l : Local) where
  local_user_file :
      value_of (bytes "eap_user_file") (local_settings escape (some l))
      ≡ file_for (bytes "/config/hostapd.eap_user") l.user_file_secret
  unfolding Dict.lookup bytes_eq
  local_user_file = search (reached, skipped, last_skip) depth 12

  local_ca_cert :
      value_of (bytes "ca_cert") (local_settings escape (some l))
      ≡ file_for (bytes "/config/1x-ca.pem") l.ca_cert_secret
  unfolding Dict.lookup bytes_eq
  local_ca_cert = search (reached, skipped, last_skip) depth 12

  local_server_cert :
      value_of (bytes "server_cert") (local_settings escape (some l))
      ≡ file_for (bytes "/config/1x-hostapd.example.com.pem") l.server_cert_secret
  unfolding Dict.lookup bytes_eq
  local_server_cert = search (reached, skipped, last_skip) depth 12

  local_private_key :
      value_of (bytes "private_key") (local_settings escape (some l))
      ≡ file_for (bytes "/config/1x-hostapd.example.com.key") l.private_key_secret
  unfolding Dict.lookup bytes_eq
  local_private_key = search (reached, skipped, last_skip) depth 12

  local_radius_client :
      value_of (bytes "radius_server_clients") (local_settings escape (some l))
      ≡ file_for (bytes "/config/hostapd.radius_clients") l.radius_client_secret
  unfolding Dict.lookup bytes_eq
  local_radius_client = search (skipped, last_reached) depth 12

module _ (escape : Str → Str) (key : Str) where
  radius_none :
      (r : Option Radius)
      → ((k : Radius) → value_of key (radius_settings escape (some k)) ≡ none)
      → value_of key (radius_settings escape r) ≡ none
  unfolding Dict.lookup
  radius_none none h = refl
  radius_none (some k) h = h k

  of_local :
      (field : Local → Option SecretKeyRef) (path : Str) (local : Option Local)
      → ((l : Local) → value_of key (local_settings escape (some l)) ≡ file_for path (field l))
      → value_of key (local_settings escape local) ≡ file_for path (secret_of field local)
  unfolding Dict.lookup
  of_local field path none h = refl
  of_local field path (some l) h = h l

-- A setting names a file, and the pod gets one file there, or neither is so.
abbrev pub IsProvided : List (Str × Str) → List VolumeProjection → Str → Str → Type 0
IsProvided es volumes key file =
    ((Dict.lookup key es ≡ none) × (found_at file volumes ≡ []))
    ⊎ ((v : VolumeProjection) × (Dict.lookup key es ≡ some (bytes "/config/" ++ file))
        × (found_at file volumes ≡ v ∷ []))

provided :
    (es : List (Str × Str)) (volumes : List VolumeProjection) (key file : Str)
    (r : Option SecretKeyRef)
    → value_of key es ≡ file_for (bytes "/config/" ++ file) r
    → found_at file volumes ≡ wanted r file
    → IsProvided es volumes key file
provided es volumes key file none p q = inl (p, q)
provided es volumes key file (some ref) p q = inr (_, p, q)

-- Where a volume is mounted.
abbrev pub mount_of : Str → List VolumeMount → Option Str
mount_of n [] = none
mount_of n (m ∷ ms) = if m.name == n then some m.mount_path else mount_of n ms

module _ (escape : Str → Str) (html : IsHtmlEscape escape) (a : Authenticator)
    (one : IsOneLine a.spec) where
  abbrev read : List (Str × Str)
  read = settings (hostapd_conf escape a.spec)

  abbrev mounts : List VolumeMount
  mounts = (hostapd_container a.spec).volume_mounts

  file-IsProvided :
      (key file : Str) (field : Local → Option SecretKeyRef)
      → value_of key (settings_for escape a.spec)
        ≡ value_of key (
            local_settings escape a.spec.authentication.local
            ++ radius_settings escape a.spec.authentication.radius)
      → ((k : Radius) → value_of key (radius_settings escape (some k)) ≡ none)
      → ((l : Local)
          → value_of key (local_settings escape (some l))
            ≡ file_for (bytes "/config/" ++ file) (field l))
      → found_at file (projected_config_volumes a)
        ≡ wanted (secret_of field a.spec.authentication.local) file
      → IsProvided read (projected_config_volumes a) key file
  file-IsProvided key file field common radius local found =
      provided read (projected_config_volumes a) key file
        (secret_of field a.spec.authentication.local)
        (ap (value_of key) (settings_lem escape html a.spec one)
          ∙ common
          ∙ value_before key _ _ (radius_none escape key a.spec.authentication.radius radius)
          ∙ of_local escape key field _ a.spec.authentication.local local)
        found

  -- For an escaping as documented of html/template, if nothing that the resource gives has a line
  -- break and no name of an interface a byte that is escaped: hostapd is started with the file that the
  -- ConfigMap holds, and each file that this names, for its users, its certificates, its key and its
  -- RADIUS clients, is projected to that path, while nothing is where it names none; the interfaces
  -- that it names are those of the monitor; and its sockets are in the directory that the two
  -- containers share.
  pub files_handover :
      All IsPlain a.spec.interfaces
      → let volumes = projected_config_volumes a in
        IsProvided read volumes (bytes "eap_user_file") user_file
        × IsProvided read volumes (bytes "ca_cert") ca_file
        × IsProvided read volumes (bytes "server_cert") cert_file
        × IsProvided read volumes (bytes "private_key") private_key_file
        × IsProvided read volumes (bytes "radius_server_clients") radius_client_file
        × (found_at config_file volumes
            ≡ from_config_map (config_map escape a).name config_file config_file ∷ [])
        × (Dict.lookup config_file (config_map escape a).data_of
            ≡ some (hostapd_conf escape a.spec))
        × (getenv (bytes "CONFIG") (hostapd_container a.spec).env ≡ bytes "/config/" ++ config_file)
        × (mount_of (bytes "config-volume") mounts ≡ some (bytes "/config"))
        × (Dict.lookup (bytes "interface") read
            ≡ some (getenv (bytes "IFACES") (monitor_container a.spec).env))
        × (Dict.lookup (bytes "ctrl_interface") read ≡ mount_of (bytes "sockets-volume") mounts)
        × (Dict.lookup (bytes "ctrl_interface") read
            ≡ mount_of (bytes "sockets-volume") (monitor_container a.spec).volume_mounts)
  unfolding Dict.lookup bytes_eq hostapd_container monitor_container config_map
  files_handover plain =
      let (conf, user, ca, cert, key, client) = projected_files a in
      (
        file-IsProvided (bytes "eap_user_file") user_file (λ l. l.user_file_secret) refl (λ k. refl)
            (local_user_file escape) user,
        file-IsProvided (bytes "ca_cert") ca_file (λ l. l.ca_cert_secret) refl (λ k. refl)
            (local_ca_cert escape) ca,
        file-IsProvided (bytes "server_cert") cert_file (λ l. l.server_cert_secret) refl (λ k. refl)
            (local_server_cert escape) cert,
        file-IsProvided (bytes "private_key") private_key_file (λ l. l.private_key_secret) refl
            (λ k. refl) (local_private_key escape) key,
        file-IsProvided (bytes "radius_server_clients") radius_client_file
            (λ l. l.radius_client_secret) refl (λ k. refl) (local_radius_client escape) client,
        conf,
        refl,
        refl,
        refl,
        ap (value_of (bytes "interface")) (settings_lem escape html a.spec one)
            ∙ ap (λ n. some (join (bytes ",") n)) (names_kept escape html a.spec.interfaces plain),
        ap (value_of (bytes "ctrl_interface")) (settings_lem escape html a.spec one),
        ap (value_of (bytes "ctrl_interface")) (settings_lem escape html a.spec one),
      )
