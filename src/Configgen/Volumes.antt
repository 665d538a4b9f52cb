-- ===== src/Configgen/Volumes.antt =====
-- The files that the pod of hostapd is given.
use eapol_operator.Base.{
  ℕ, zero, suc, append-nil, List, [], ◌∷◌, ◌++◌, Str, Bool, true, false, Option, none, some, ◌≡◌,
  refl, ap, ◌∙◌, arith, if◌then◌else◌, ◌==◌, bytes_eq,
}
use eapol_operator.Api.{SecretKeyRef, Local, Authenticator}
use eapol_operator.Configgen.{
  VolumeProjection, from_config_map, from_secret, projected_config_volumes, secret_at, or_default,
  append_user_file, append_cert_volume, append_radius_client_volume, config_file, user_file,
  ca_file, cert_file, private_key_file, radius_client_file,
}

abbrev pub path_of : VolumeProjection → Str
path_of (from_config_map name key path) = path
path_of (from_secret name key path) = path

-- All that a list of projections puts at a path.
abbrev pub found_at : Str → List VolumeProjection → List VolumeProjection
found_at p [] = []
found_at p (v ∷ vs) = if path_of v == p then v ∷ found_at p vs else found_at p vs

-- The key that a reference stands for: its own, or else the name of the file.
abbrev pub key_for : Str → Str → Str
key_for [] path = path
key_for (c ∷ s) path = c ∷ s

-- What is wanted at a path.
abbrev pub wanted : Option SecretKeyRef → Str → List VolumeProjection
wanted none path = []
wanted (some ref) path = from_secret ref.name (key_for ref.key path) path ∷ []

abbrev pub secret_of : (Local → Option SecretKeyRef) → Option Local → Option SecretKeyRef
secret_of field none = none
secret_of field (some local) = field local

found-append :
    (p : Str) (us vs : List VolumeProjection)
    → found_at p (us ++ vs) ≡ found_at p us ++ found_at p vs
found-append p [] vs = refl
found-append p (u ∷ us) vs = ground (arith, found-append p us vs)

key_for_lem : (k p : Str) → or_default k p ≡ key_for k p
unfolding or_default
key_for_lem [] p = refl
key_for_lem (c ∷ k) p = refl

found_secret :
    (p path : Str) (ref : Option SecretKeyRef)
    → found_at p (secret_at ref path) ≡ (if path == p then wanted ref path else [])
unfolding secret_at
found_secret p path none = ground arith
found_secret p path (some ref) = ground (arith, key_for_lem ref.key path)

append-empty : (xs : List VolumeProjection) (b : Bool) → xs ≡ xs ++ (if b then [] else [])
append-empty [] true = refl
append-empty [] false = refl
append-empty (x ∷ xs) b = ap (◌∷◌ x) (append-empty xs b)

-- A list with `n` empty ones behind it.
abbrev with_nils : ℕ → List VolumeProjection → List VolumeProjection
with_nils zero xs = xs
with_nils (suc n) xs = with_nils n (xs ++ [])

tail_nils : (n : ℕ) (xs : List VolumeProjection) → with_nils n xs ≡ xs
tail_nils zero xs = refl
tail_nils (suc n) xs = tail_nils n (xs ++ []) ∙ append-nil xs

module _ (p : Str) where
  abbrev part : Option SecretKeyRef → Str → List VolumeProjection
  part ref path = if path == p then wanted ref path else []

  found_part :
      (us : List VolumeProjection) (ref : Option SecretKeyRef) (path : Str)
      → found_at p (us ++ secret_at ref path) ≡ found_at p us ++ part ref path
  found_part us ref path =
      found-append p us (secret_at ref path)
      ∙ ap (λ vs. found_at p us ++ vs) (found_secret p path ref)

  user_part :
      (local : Option Local) (us : List VolumeProjection)
      → found_at p (append_user_file local us)
        ≡ found_at p us ++ part (secret_of (λ l. l.user_file_secret) local) user_file
  unfolding append_user_file
  user_part none us = append-empty (found_at p us) (user_file == p)
  user_part (some l) us = found_part us l.user_file_secret user_file

  cert_parts :
      (local : Option Local) (us : List VolumeProjection)
      → found_at p (append_cert_volume local us)
        ≡ ((found_at p us ++ part (secret_of (λ l. l.ca_cert_secret) local) ca_file)
            ++ part (secret_of (λ l. l.server_cert_secret) local) cert_file)
          ++ part (secret_of (λ l. l.private_key_secret) local) private_key_file
  unfolding append_cert_volume
  cert_parts none us =
      append-empty (found_at p us) (ca_file == p)
      ∙ append-empty _ (cert_file == p)
      ∙ append-empty _ (private_key_file == p)
  cert_parts (some l) us =
      found_part _ l.private_key_secret private_key_file
      ∙ ap (λ vs. vs ++ part l.private_key_secret private_key_file)
          (found_part _ l.server_cert_secret cert_file
            ∙ ap (λ vs. vs ++ part l.server_cert_secret cert_file)
                (found_part us l.ca_cert_secret ca_file))

  radius_part :
      (local : Option Local) (us : List VolumeProjection)
      → found_at p (append_radius_client_volume local us)
        ≡ found_at p us ++ part (secret_of (λ l. l.radius_client_secret) local) radius_client_file
  unfolding append_radius_client_volume
  radius_part none us = append-empty (found_at p us) (radius_client_file == p)
  radius_part (some l) us = found_part us l.radius_client_secret radius_client_file

module _ (a : Authenticator) where
  abbrev secret : (Local → Option SecretKeyRef) → Option SecretKeyRef
  secret field = secret_of field a.spec.authentication.local

  volumes_at :
      (p : Str)
      → found_at p (projected_config_volumes a)
        ≡ ((((found_at p (from_config_map a.name config_file config_file ∷ [])
                  ++ part p (secret (λ l. l.user_file_secret)) user_file)
                ++ part p (secret (λ l. l.ca_cert_secret)) ca_file)
              ++ part p (secret (λ l. l.server_cert_secret)) cert_file)
            ++ part p (secret (λ l. l.private_key_secret)) private_key_file)
          ++ part p (secret (λ l. l.radius_client_secret)) radius_client_file
  unfolding projected_config_volumes
  volumes_at p =
      rw
        (
          radius_part p a.spec.authentication.local,
          cert_parts p a.spec.authentication.local,
          user_part p a.spec.authentication.local,
        )
        refl

  -- At each path under which hostapd looks for a file, the pod gets the one projection of the
  -- secret that the resource names for it, with its key or, if that is empty, the file's name as
  -- the key; it gets nothing there if the resource names none; and the configuration itself comes
  -- once, from the config map.
  pub projected_files :
      (found_at config_file (projected_config_volumes a)
        ≡ from_config_map a.name config_file config_file ∷ [])
      × (found_at user_file (projected_config_volumes a)
          ≡ wanted (secret (λ l. l.user_file_secret)) user_file)
      × (found_at ca_file (projected_config_volumes a)
          ≡ wanted (secret (λ l. l.ca_cert_secret)) ca_file)
      × (found_at cert_file (projected_config_volumes a)
          ≡ wanted (secret (λ l. l.server_cert_secret)) cert_file)
      × (found_at private_key_file (projected_config_volumes a)
          ≡ wanted (secret (λ l. l.private_key_secret)) private_key_file)
      × (found_at radius_client_file (projected_config_volumes a)
          ≡ wanted (secret (λ l. l.radius_client_secret)) radius_client_file)
  unfolding bytes_eq
  projected_files = (
    volumes_at config_file,
    volumes_at user_file ∙ tail_nils 4 _,
    volumes_at ca_file ∙ tail_nils 3 _,
    volumes_at cert_file ∙ tail_nils 2 _,
    volumes_at private_key_file ∙ tail_nils 1 _,
    volumes_at radius_client_file,
  )
