-- ===== src/Examples.antt =====
-- A broker with one subscriber, for the tests and for the examples of the theorems.
pub mod Policy
pub mod Flow
pub mod Session
pub mod Samples
pub mod Life
pub mod Packets
pub mod Identifiers
pub mod Incoming
pub mod Topics
pub mod Subscriptions
pub mod Exchange
pub mod Publishing
pub mod Retained
use adaptive_mqtt_transmit_p.Common.{ℕ, ◌+◌, Bool, true, false, Option, none, some, List, [], ◌∷◌}
use adaptive_mqtt_transmit_p.Common.Int.{ℤ, pos}
use adaptive_mqtt_transmit_p.Common.Bytes.{Bytes}
use adaptive_mqtt_transmit_p.Broker.Types.{
  Context, Config, Clock, Db, Stored, Entry, ClientMsg, MsgData, MsgState, Link, Rc, success,
  md_out, mqtt311, active, slow_mode, TransferMode, wait_for_puback, queued_state, storage_state,
  latency_topic,
}
use adaptive_mqtt_transmit_p.Broker.Delivery.{Transport}

-- A connection that takes every packet.
abbrev pub open_link : Transport
open_link = record {
  publish = λ c m e. (c.link, success);
  pubrel = λ c mid. (c.link, success);
  pubrec = λ c mid. (c.link, success);
}

abbrev pub config : Config
config = record {
  max_inflight_bytes = 0;
  max_queued_bytes = 0;
  max_queued_messages = 1_000;
  queue_qos0_messages = false;
  allow_duplicate_messages = false;
  retain_available = true;
  threshold_s = 100;
  msg_store_timeout = 20;
}

abbrev pub clock : Clock
clock = record { mono_s = 500; mono_ns = 300_000_000; wall_s = 10_000 }

abbrev pub stored : ℕ → ℕ → Stored
stored i size = record {
  db_id = i;
  topic = some (b't' ∷ []);
  payloadlen = size;
  qos = 1;
  retain = false;
  source_id = b'p' ∷ [];
  source_mid = i;
  message_expiry_time = 0;
}

abbrev pub message : ℕ → ℕ → MsgState → ClientMsg
message i size state = record {
  store = stored i size;
  mid = i;
  qos = 1;
  retain = false;
  direction = md_out;
  state = state;
  dup = false;
  timestamp = 400;
  storage_time = 470 + i;
}

abbrev pub no_messages : MsgData
no_messages = record {
  inflight = [];
  queued = [];
  storage = [];
  msg_bytes = pos 0;
  msg_bytes12 = pos 0;
  msg_count = pos 0;
  msg_count12 = pos 0;
  inflight_quota = 2;
  inflight_maximum = 2;
}

-- Two messages in flight, which is the maximum, and two in the queue.
abbrev pub full_messages : MsgData
full_messages = record {
  inflight = message 1 10 wait_for_puback ∷ message 2 20 wait_for_puback ∷ [];
  queued = message 3 30 queued_state ∷ message 4 40 queued_state ∷ [];
  storage = [];
  msg_bytes = pos 100;
  msg_bytes12 = pos 100;
  msg_count = pos 4;
  msg_count12 = pos 4;
  inflight_quota = 0;
  inflight_maximum = 2;
}

-- Three withheld messages.
abbrev pub withheld_messages : MsgData
withheld_messages = record no_messages {
  storage =
      message 5 100 storage_state ∷ message 6 200 storage_state ∷ message 25 300 storage_state ∷ [];
  msg_bytes = pos 600;
  msg_bytes12 = pos 600;
  msg_count = pos 3;
  msg_count12 = pos 3;
}

abbrev pub subscriber : MsgData → TransferMode → Context
subscriber msgs mode = record {
  id = some (b's' ∷ []);
  sock_valid = true;
  protocol_version = mqtt311;
  state = active;
  mode = mode;
  slow_mode_time = 9_990;
  threshold_l = 400_000;
  lat_pre = pos 1 ∷ pos 2 ∷ pos 3 ∷ pos 4 ∷ pos 5 ∷ [];
  count_for_lat = 3;
  clean_start = true;
  is_dropping = false;
  max_qos = 2;
  bridge = none;
  msgs_in = no_messages;
  msgs_out = msgs;
  link = record { out_packet_count = pos 0; send_time_s = 499; send_time_ns = 900_000_000 };
}

abbrev pub entry : ℕ → ℕ → ℕ → Entry
entry i size refs = record { stored = stored i size; ref_count = pos refs; dest_ids = [] }

abbrev pub database : Db
database = record {
  config = config;
  msg_store = entry 7 700 1 ∷ entry 8 800 0 ∷ entry 9 900 2 ∷ [];
  msg_store_count = pos 3;
  msg_store_bytes = pos 2_400;
  last_db_id = 9;
  persistence_changes = 0;
  msgs_dropped = 0;
  now_s = 500;
  now_real_s = 10_000;
}
