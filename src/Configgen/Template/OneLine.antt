-- ===== src/Configgen/Template/OneLine.antt =====
-- The lines of hostapd.conf hold no line break.
use eapol_operator.Base.{
  List, [], ◌∷◌, ◌++◌, Str, bytes, Bool, true, false, ◌&&◌, Option, none, some, ◌≡◌, refl, ap,
  arith, All, All-append, if◌then◌else◌, ◌==◌, nat_eq, Lacks, map,
}
use eapol_operator.Base.Text.{join}
use eapol_operator.Base.Text.Split.{Lacks-append}
use eapol_operator.Base.Decimal.{ℤ, itoa}
use eapol_operator.Base.Decimal.RoundTrip.{itoa-Lacks}
use eapol_operator.Api.{SecretKeyRef, Local, Radius, Config, AuthenticatorSpec}
use eapol_operator.Configgen.Template.Escape.{IsHtmlEscape, names_one_line}
use eapol_operator.Configgen.Template.{
  heading, after_interfaces, common_lines, reauth_period, user_file_lines, ca_cert_lines,
  server_cert_lines, private_key_lines, radius_client_lines, server_heading, alternative,
  local_lines, radius_heading, accounting, radius_lines, conf_lines,
}

-- A test for lines without a line break.
lacks : Str → Bool
unfolding nat_eq
lacks [] = true
lacks (c ∷ s) = let rest = lacks s in if c == 10 then false else rest

all_lack : List Str → Bool
unfolding lacks
all_lack [] = true
all_lack (l ∷ ls) = lacks l && all_lack ls

lacks-Lacks : (s : Str) → lacks s ≡ true → Lacks 10 s
unfolding lacks
lacks-Lacks [] h = tt
lacks-Lacks (c ∷ s) h = ground (arith, lacks-Lacks s)

Lacks-lacks : (s : Str) → Lacks 10 s → lacks s ≡ true
unfolding lacks
Lacks-lacks [] h = refl
Lacks-lacks (c ∷ s) h = ground (arith, Lacks-lacks s)

all_lack-All : (ls : List Str) → all_lack ls ≡ true → All (Lacks 10) ls
unfolding all_lack
all_lack-All [] h = tt
all_lack-All (l ∷ ls) h = ground (arith, lacks-Lacks l, all_lack-All ls)

-- What the resource gives has no line break.
pub record IsOneLine (spec : AuthenticatorSpec) : Type 0 where
  pub interfaces : All (Lacks 10) spec.interfaces
  pub passphrase :
      (l : Local) → spec.authentication.local ≡ some l → Lacks 10 l.private_key_passphrase
  pub server : (r : Radius) → spec.authentication.radius ≡ some r → Lacks 10 r.auth_server

join-Lacks : (ws : List Str) → All (Lacks 10) ws → Lacks 10 (join (bytes ",") ws)
unfolding join
join-Lacks [] h = tt
join-Lacks (w ∷ []) h = h.0
join-Lacks (w ∷ v ∷ ws) h = Lacks-append 10 w _ h.0 ((λ p. omega arith), join-Lacks (v ∷ ws) h.1)

itoa-one_line : (z : ℤ) → Lacks 10 (itoa z)
itoa-one_line z = itoa-Lacks 10 z (omega arith) (λ q. omega arith)

setting-Lacks : (key v : Str) → lacks key ≡ true → Lacks 10 v → Lacks 10 (key ++ v)
setting-Lacks key v h k = Lacks-append 10 key v (lacks-Lacks key h) k

user_file-Lacks : (r : Option SecretKeyRef) → All (Lacks 10) (user_file_lines r)
unfolding user_file_lines
user_file-Lacks none = (tt, tt)
user_file-Lacks (some ref) = all_lack-All (user_file_lines (some ref)) (unfold all_lack in refl)

ca_cert-Lacks : (r : Option SecretKeyRef) → All (Lacks 10) (ca_cert_lines r)
unfolding ca_cert_lines
ca_cert-Lacks none = (tt, tt)
ca_cert-Lacks (some ref) = all_lack-All (ca_cert_lines (some ref)) (unfold all_lack in refl)

server_cert-Lacks : (r : Option SecretKeyRef) → All (Lacks 10) (server_cert_lines r)
unfolding server_cert_lines
server_cert-Lacks none = (tt, tt)
server_cert-Lacks (some ref) = all_lack-All (server_cert_lines (some ref)) (unfold all_lack in refl)

empty-Lacks : (ls : List Str) → All (Lacks 10) ls → All (Lacks 10) ([] ∷ ls)
empty-Lacks ls h = (tt, h)

module _ (escape : Str → Str) (html : IsHtmlEscape escape) where
  number-Lacks : (z : ℤ) → Lacks 10 (escape (itoa z))
  number-Lacks z = html.one_line (itoa z) (itoa-one_line z)

  private_key-Lacks :
      (r : Option SecretKeyRef) (passphrase : Str)
      → Lacks 10 (escape passphrase)
      → All (Lacks 10) (private_key_lines escape r passphrase)
  unfolding private_key_lines
  private_key-Lacks none passphrase h = (tt, tt)
  private_key-Lacks (some ref) passphrase h =
      all_lack-All (private_key_lines escape (some ref) passphrase)
        (unfold all_lack in ap (λ b. b && true) (Lacks-lacks (escape passphrase) h))

  radius_client-Lacks :
      (r : Option SecretKeyRef) (port : ℤ) → All (Lacks 10) (radius_client_lines escape r port)
  unfolding radius_client_lines
  radius_client-Lacks none port = (tt, tt)
  radius_client-Lacks (some ref) port = all_lack-All (radius_client_lines escape (some ref) port) (
      unfold all_lack in ap (λ b. b && true) (Lacks-lacks (escape (itoa port)) (number-Lacks port)))

  local-Lacks :
      (l : Option Local)
      → ((k : Local) → l ≡ some k → Lacks 10 k.private_key_passphrase)
      → All (Lacks 10) (local_lines escape l)
  unfolding local_lines
  local-Lacks none h = tt
  local-Lacks (some l) h =
      let heading_ = all_lack-All server_heading (unfold server_heading all_lack in refl) in
      let tail = all_lack-All alternative (unfold alternative all_lack in refl) in
      let user = user_file-Lacks l.user_file_secret in
      let ca = ca_cert-Lacks l.ca_cert_secret in
      let cert = server_cert-Lacks l.server_cert_secret in
      let key =
        private_key-Lacks l.private_key_secret l.private_key_passphrase
          (html.one_line l.private_key_passphrase (h l refl)) in
      let client = radius_client-Lacks l.radius_client_secret l.auth_port in
      search (All-append, empty-Lacks) depth 16

  radius-Lacks :
      (r : Option Radius)
      → ((k : Radius) → r ≡ some k → Lacks 10 k.auth_server)
      → All (Lacks 10) (radius_lines escape r)
  unfolding radius_lines lacks
  radius-Lacks none h = tt
  radius-Lacks (some r) h =
      let heading_ = all_lack-All radius_heading (unfold radius_heading all_lack in refl) in
      let tail = all_lack-All accounting (unfold accounting all_lack in refl) in
      let server =
        setting-Lacks (bytes "auth_server_addr=") (escape r.auth_server) refl
          (html.one_line r.auth_server (h r refl)) in
      let port =
        setting-Lacks (bytes "auth_server_port=") (escape (itoa r.auth_port)) refl
          (number-Lacks r.auth_port) in
      All-append (Lacks 10) radius_heading _ heading_ (server, (port, tail))

  period-Lacks : (c : Option Config) → Lacks 10 (reauth_period escape c)
  unfolding reauth_period
  period-Lacks none = lacks-Lacks (bytes "3600") (unfold lacks in refl)
  period-Lacks (some c) = number-Lacks c.eap_reauth_period

  common-Lacks :
      (names : List Str) (period : Str) (ls : List Str)
      → All (Lacks 10) names
      → Lacks 10 period
      → All (Lacks 10) ls
      → All (Lacks 10) (common_lines escape names period ls)
  unfolding common_lines lacks
  common-Lacks names period ls n p h =
      let heading_ = all_lack-All heading (unfold heading all_lack in refl) in
      let after = all_lack-All after_interfaces (unfold after_interfaces all_lack in refl) in
      let group = lacks-Lacks (bytes "use_pae_group_addr=1") refl in
      All-append (Lacks 10) heading _ heading_ (
        setting-Lacks (bytes "interface=") (join (bytes ",") (map escape names)) refl
            (join-Lacks (map escape names) (names_one_line escape html names n)),
        All-append (Lacks 10) after_interfaces _ after
            (setting-Lacks (bytes "eap_reauth_period=") period refl p, (tt, (group, (tt, h)))),
      )

  pub conf-Lacks :
      (spec : AuthenticatorSpec) → IsOneLine spec → All (Lacks 10) (conf_lines escape spec)
  unfolding conf_lines
  conf-Lacks spec one = common-Lacks _ _ _ one.interfaces (period-Lacks spec.configuration) (
      All-append (Lacks 10) (local_lines escape spec.authentication.local) _
        (local-Lacks spec.authentication.local one.passphrase)
        (
          tt,
          (
            tt,
            All-append (Lacks 10) (radius_lines escape spec.authentication.radius) ([] ∷ [])
                (radius-Lacks spec.authentication.radius one.server) (tt, tt),
          ),
        ))
