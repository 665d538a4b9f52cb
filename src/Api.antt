-- ===== src/Api.antt =====
-- api/v1/authenticator_types.go: the custom resource.
use eapol_operator.Base.{List, [], Str, Bool, Option, bytes}
use eapol_operator.Base.Dict.{Dict}
use eapol_operator.Base.Decimal.{ℤ}

-- A pointer that may be nil is an `Option`.
pub data IfState : Type 0 where
  uninitialized disabled country_update acs ht_scan dfs enabled unknown : IfState
  -- the empty text, before the state is known
  unset : IfState

-- The texts of the states.
unfoldable pub text_of : IfState → Str
text_of uninitialized = bytes "Uninitialized"
text_of disabled = bytes "Disabled"
text_of country_update = bytes "CountryUpdate"
text_of acs = bytes "ACS"
text_of ht_scan = bytes "HT Scan"
text_of dfs = bytes "DFS"
text_of enabled = bytes "Enabled"
text_of unknown = bytes "Unknown"
text_of unset = []

pub record SecretKeyRef : Type 0 where
  pub name : Str
  pub key : Str

pub record Local : Type 0 where
  pub user_file_secret : Option SecretKeyRef
  pub ca_cert_secret : Option SecretKeyRef
  pub server_cert_secret : Option SecretKeyRef
  pub private_key_secret : Option SecretKeyRef
  pub private_key_passphrase : Str
  pub radius_client_secret : Option SecretKeyRef
  pub auth_port : ℤ

pub record Radius : Type 0 where
  pub auth_server : Str
  pub auth_port : ℤ
  pub auth_secret : Str

pub record Auth : Type 0 where
  pub local : Option Local
  pub radius : Option Radius

pub record Config : Type 0 where
  pub eap_reauth_period : ℤ

pub record Ports : Type 0 where
  pub tcp : List ℤ
  pub udp : List ℤ

pub record TrafficControl : Type 0 where
  pub unprotected_ports : Option Ports

pub record AuthenticatorSpec : Type 0 where
  pub enabled : Bool
  pub interfaces : List Str
  pub authentication : Auth
  pub configuration : Option Config
  pub image : Str
  pub node_selector : Option (Dict Str Str)
  pub traffic_control : Option TrafficControl

-- The entry of one interface in the status.
pub record Interface : Type 0 where
  pub name : Str
  pub state : IfState
  pub authenticated_clients : List Str

pub record AuthenticatorStatus : Type 0 where
  pub interfaces : List Interface

-- The resource, with the name, the namespace and the UID of its metadata.
pub record Authenticator : Type 0 where
  pub name : Str
  pub namespace : Str
  pub uid : Str
  pub spec : AuthenticatorSpec
  pub status : AuthenticatorStatus
