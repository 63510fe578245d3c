-- ===== src/Broker/Types.antt =====
-- The broker's data: `struct mosquitto`, `mosquitto_msg_data`, `mosquitto_client_msg`,
-- `mosquitto_msg_store` and the configuration, from lib/mosquitto_internal.h and
-- src/mosquitto_broker_internal.h. A record has the fields that the modelled code reads or writes.
use adaptive_mqtt_transmit_p.Common.{ℕ, Bool, Option, List, [], ◌∷◌}
use adaptive_mqtt_transmit_p.Common.Int.{ℤ}
use adaptive_mqtt_transmit_p.Common.Bytes.{Bytes}

-- `enum mosq_err_t`, the codes that the modelled code returns. A literal 1 or 2 in the source is
-- `nomem` or `protocol`.
pub data Rc : Type 0 where
  success nomem protocol inval no_conn not_found conn_lost payload_size errno : Rc
  malformed_utf8 malformed_packet oversize_packet no_subscribers sub_exists acl_denied : Rc

pub data Direction : Type 0 where
  md_in md_out : Direction

pub data TransferMode : Type 0 where
  normal_mode slow_mode : TransferMode

pub data MsgState : Type 0 where
  invalid publish_qos0 publish_qos1 wait_for_puback publish_qos2 wait_for_pubrec : MsgState
  resend_pubrel wait_for_pubrel resend_pubcomp wait_for_pubcomp send_pubrec : MsgState
  queued_state storage_state : MsgState

pub data ClientState : Type 0 where
  new connected disconnecting active connect_pending connect_srv disconnect_ws : ClientState
  disconnected socks5_new socks5_start socks5_request socks5_reply socks5_auth_ok : ClientState
  socks5_userpass_reply socks5_send_userpass expiring duplicate disconnect_with_will : ClientState
  disused authenticating reauthenticating : ClientState

pub data Protocol : Type 0 where
  no_protocol mqtt31 mqtt311 mqtts mqtt5 : Protocol

-- The part of `struct mosquitto_msg_store` that is fixed once the message is stored. `db_id` tells
-- stored messages apart, as the address does in the source.
pub record Stored : Type 0 where
  pub db_id : ℕ
  pub topic : Option Bytes
  pub payloadlen : ℕ
  pub qos : ℕ
  pub retain : Bool
  pub source_id : Bytes
  pub source_mid : ℕ
  pub message_expiry_time : ℕ

-- The part that changes: the reference count and the clients already served.
pub record Entry : Type 0 where
  pub stored : Stored
  pub ref_count : ℤ
  pub dest_ids : List Bytes

-- `struct mosquitto_client_msg`; of `storage_time` the seconds, which alone are read.
pub record ClientMsg : Type 0 where
  pub store : Stored
  pub mid : ℕ
  pub qos : ℕ
  pub retain : Bool
  pub direction : Direction
  pub state : MsgState
  pub dup : Bool
  pub timestamp : ℕ
  pub storage_time : ℕ

-- `struct mosquitto_msg_data`. A doubly linked list is a list, its head first.
pub record MsgData : Type 0 where
  pub inflight : List ClientMsg
  pub queued : List ClientMsg
  pub storage : List ClientMsg
  pub msg_bytes : ℤ
  pub msg_bytes12 : ℤ
  pub msg_count : ℤ
  pub msg_count12 : ℤ
  pub inflight_quota : ℕ
  pub inflight_maximum : ℕ

pub data StartType : Type 0 where
  automatic lazy manual once : StartType

pub record Bridge : Type 0 where
  pub start_type : StartType
  pub clean_start : Bool
  pub clean_start_local : Bool
  pub threshold : ℤ
  pub lazy_reconnect : Bool

-- What the sending side of a client changes.
pub record Link : Type 0 where
  pub out_packet_count : ℤ
  pub send_time_s : ℕ
  pub send_time_ns : ℕ

-- `struct mosquitto`.
pub record Context : Type 0 where
  pub id : Option Bytes
  pub sock_valid : Bool
  pub protocol_version : Protocol
  pub state : ClientState
  pub mode : TransferMode
  pub slow_mode_time : ℕ
  pub threshold_l : ℕ
  pub lat_pre : List ℤ
  pub count_for_lat : ℕ
  pub clean_start : Bool
  pub is_dropping : Bool
  pub max_qos : ℕ
  pub bridge : Option Bridge
  pub msgs_in : MsgData
  pub msgs_out : MsgData
  pub link : Link

-- `struct mosquitto__config`. The parser refuses negative values, so these are numbers.
pub record Config : Type 0 where
  pub max_inflight_bytes : ℕ
  pub max_queued_bytes : ℕ
  pub max_queued_messages : ℕ
  pub queue_qos0_messages : Bool
  pub allow_duplicate_messages : Bool
  pub retain_available : Bool
  pub threshold_s : ℕ
  pub msg_store_timeout : ℕ

-- `struct mosquitto_db`, with the clock that the main loop keeps in it.
pub record Db : Type 0 where
  pub config : Config
  pub msg_store : List Entry
  pub msg_store_count : ℤ
  pub msg_store_bytes : ℤ
  pub last_db_id : ℕ
  pub persistence_changes : ℕ
  pub msgs_dropped : ℕ
  pub now_s : ℕ
  pub now_real_s : ℕ

-- What `clock_gettime(CLOCK_MONOTONIC)` and `gettimeofday` return during one call.
pub record Clock : Type 0 where
  pub mono_s : ℕ
  pub mono_ns : ℕ
  pub wall_s : ℕ

-- The topic by which the policy measures a subscriber's latency.
abbrev pub latency_topic : Bytes
latency_topic = b'l' ∷ b'a' ∷ b't' ∷ b'e' ∷ b'n' ∷ b'c' ∷ b'y' ∷ []
