-- ===== src/Host.antt =====
-- The world outside the program: netlink, `tc`, the file system, the hostapd socket and the API
-- server. Each call is answered by a function of the calls before it, so an answer may change
-- from call to call, and each call is written down with its success, the newest first.
pub mod Actions
pub mod Views
pub mod Quiet
use eapol_operator.Base.{ℕ, List, Str, Bool, Result, Error}
use eapol_operator.Api.{Interface, Authenticator}

-- `netlink.VfInfo`, as far as it is read.
pub record VfAttr : Type 0 where
  pub id : ℕ
  pub vlan : ℕ

-- `netlink.LinkOperState`
pub data OperState : Type 0 where
  oper_unknown oper_not_present oper_down oper_lower_layer_down : OperState
  oper_testing oper_dormant oper_up : OperState

-- `netlink.Link`: its attributes, as far as they are read.
pub record Link : Type 0 where
  pub name : Str
  pub oper_state : OperState
  pub vfs : List VfAttr

-- `netlink.VF_LINK_STATE_AUTO`, `netlink.VF_LINK_STATE_ENABLE` and `netlink.VF_LINK_STATE_DISABLE`
pub data VfState : Type 0 where
  state_auto state_enable state_disable : VfState

pub data Call : Type 0 where
  link_by_name : Str → Call
  link_set_vf_vlan : Str → ℕ → ℕ → Call
  link_set_vf_state : Str → ℕ → VfState → Call
  look_path : Str → Call
  run : Str → Call
  stat : Str → Call
  glob : Str → Call
  read_dir : Str → Call
  conn_write : Str → Call
  conn_close : Call
  get_auth_object : Call
  update_status : List Interface → Call
  -- with the resource or without it, and the text
  record_event : Bool → Str → Call
  temp_file : Call
  dial : Call

pub data Event : Type 0 where
  done : Call → Event
  failed : Call → Event

abbrev pub Trace : Type 0
Trace = List Event

-- A step of the program: its result, and the calls up to its end.
abbrev pub Act : Type 0 → Type 0
Act A = Trace → Result A × Trace

pub record Host : Type 0 where
  pub link : Str → Trace → Result Link
  pub set_vf_vlan : Link → ℕ → ℕ → Trace → Result (Unit {0})
  pub set_vf_state : Link → ℕ → VfState → Trace → Result (Unit {0})
  pub find_program : Str → Trace → Result (Unit {0})
  -- `bash -c` with this text
  pub shell : Str → Trace → Result (Unit {0})
  -- whether the path is a directory
  pub file_info : Str → Trace → Result Bool
  pub matches : Str → Trace → Result (List Str)
  pub entries : Str → Trace → Result (List Str)
  pub write : Str → Trace → Result (Unit {0})
  pub close : Trace → Result (Unit {0})
  pub auth_object : Trace → Result Authenticator
  pub put_status : Authenticator → Trace → Result (Unit {0})
  -- `getCurrentTimestamp`: microseconds
  pub now : Trace → ℕ
  -- the socket of hostapd
  -- a file name for the client's end of the socket
  pub temp_name : Trace → Result Str
  pub connect : Trace → Result (Unit {0})
  -- `opErr.Timeout()`
  pub is_timeout : Error → Bool
  -- `retry.RetryOnConflict` of client-go
  pub retry_on_conflict : Act (Unit {0}) → Act (Unit {0})
  -- Go visits a map in an order of its choice: the numbers and the texts among its keys.
  pub range_numbers : Trace → List ℕ → List ℕ
  pub range_texts : Trace → List Str → List Str
