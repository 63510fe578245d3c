-- ===== src/Broker/Insert.antt =====
-- `db__message_insert` of src/database.c: a stored message is handed to one client.
pub mod Cases
pub mod Waits
pub mod Policy
pub mod Recorded
pub mod Once
pub mod Twice
pub mod Keeps
use adaptive_mqtt_transmit_p.Common.{
  ℕ, ◌+◌, ◌-◌, Bool, true, false, not, Option, none, some, List, [], ◌∷◌, ◌++◌, ltb, leb, ◌==◌,
  if◌then◌else◌, ◌&&◌, ◌||◌,
}
use adaptive_mqtt_transmit_p.Common.Bytes.{Bytes, bytes_eq}
use adaptive_mqtt_transmit_p.Common.Int.{ltb_ℤ}
use adaptive_mqtt_transmit_p.Broker.Types.{
  Context, ClientMsg, MsgData, MsgState, Config, Db, Stored, Entry, Clock, Rc, success, nomem,
  protocol, inval, Direction, md_in, md_out, invalid, queued_state, storage_state, wait_for_pubrel,
  Protocol, mqtt5, mqtt31, mqtt311, Bridge, StartType, lazy,
}
use adaptive_mqtt_transmit_p.Broker.Util.{decrement_send_quota}
use adaptive_mqtt_transmit_p.Broker.Flow.{msgs_of, with_msgs, ready_for_flight, ready_for_queue}
use adaptive_mqtt_transmit_p.Broker.Store.{find_entry, update_entry, msg_store_ref_inc}
use adaptive_mqtt_transmit_p.Broker.Queues.{publish_state, count_msg}
use adaptive_mqtt_transmit_p.Broker.Delivery.{
  Transport, Result, and_then, write_inflight_out_latest, write_queued_out,
}
use adaptive_mqtt_transmit_p.Broker.Withhold.{expire_slow_mode, withholds, write_storage_out}

abbrev pub is_out : Direction → Bool
is_out md_out = true
is_out md_in = false

abbrev pub is_mqtt5 : Protocol → Bool
is_mqtt5 mqtt5 = true
is_mqtt5 _ = false

unfoldable pub contains : Bytes → List Bytes → Bool
unfolding bytes_eq
contains i [] = false
contains i (j ∷ js) = if bytes_eq j i then true else contains i js

-- `stored->dest_ids`.
abbrev pub dest_ids_of : Stored → Db → List Bytes
dest_ids_of s db = elim (find_entry s.db_id db.msg_store) [ none ↦ [] | some e ↦ e.dest_ids ]

-- This message has gone to this client before, and duplicates are not wanted.
unfoldable pub already_sent : Context → Bytes → Direction → Bool → Stored → Db → Bool
unfolding contains find_entry
already_sent c i dir retain s db =
    not (is_mqtt5 c.protocol_version)
    && (not db.config.allow_duplicate_messages
        && (is_out dir && (not retain && contains i (dest_ids_of s db))))

is_lazy : StartType → Bool
is_lazy lazy = true
is_lazy _ = false

-- A client without a connection takes no QoS 0 message, unless so configured or a lazy bridge.
refuses_qos0 : Config → Option Bridge → ℕ → Bool
unfolding is_lazy
refuses_qos0 cfg b qos =
    qos == 0
    && not cfg.queue_qos0_messages
    && elim b [ none ↦ true | some br ↦ not (is_lazy br.start_type) ]

is_clean_local : Option Bridge → Bool
is_clean_local none = false
is_clean_local (some br) = br.clean_start_local

unfoldable pub refuses_offline : Config → Context → ℕ → Bool
unfolding refuses_qos0 is_clean_local
refuses_offline cfg c qos =
    not c.sock_valid && (refuses_qos0 cfg c.bridge qos || is_clean_local c.bridge)

-- What becomes of the message: it is taken in a state, with the code that the call then holds; it
-- is refused; or it is dropped because the queue is full.
pub data Decision : Type 0 where
  take_as : MsgState → Rc → Decision
  refuse : Rc → Decision
  drop_full : Decision

unfoldable pub decide_incoming : ℕ → Decision
decide_incoming qos = if qos == 2 then take_as wait_for_pubrel success else refuse nomem

-- The choice of a state, for a client whose time in slow mode has been checked.
unfoldable pub decide : Config → Context → Direction → ℕ → Stored → Decision
unfolding decide_incoming
decide cfg c dir qos s =
    if c.sock_valid
    then (if withholds cfg c s
        then take_as storage_state success
        else if ready_for_flight cfg c dir qos
        then (if is_out dir
            then take_as (publish_state qos invalid) success
            else decide_incoming qos)
        else if not (qos == 0) && ready_for_queue cfg c qos (msgs_of c dir)
        then take_as queued_state protocol
        else drop_full)
    else if ready_for_queue cfg c qos (msgs_of c dir)
    then take_as queued_state success
    else drop_full

-- The new `struct mosquitto_client_msg`. The source sets `storage_time` only for a message that goes
-- to `storage`; the field of another message is not read.
abbrev pub new_msg : Context → Db → Clock → ℕ → Direction → ℕ → Bool → Stored → MsgState → ClientMsg
new_msg c db clk mid dir qos retain s state = record {
  store = s;
  mid = mid;
  qos = if ltb c.max_qos qos then c.max_qos else qos;
  retain = retain;
  direction = dir;
  state = state;
  dup = false;
  timestamp = db.now_s;
  storage_time = clk.mono_s;
}

-- The list that the state names.
unfoldable pub append_msg : ClientMsg → MsgState → MsgData → MsgData
append_msg m queued_state d = record d { queued = d.queued ++ m ∷ [] }
append_msg m storage_state d = record d { storage = d.storage ++ m ∷ [] }
append_msg m _ d = record d { inflight = d.inflight ++ m ∷ [] }

-- The client is remembered as one that has had the message.
abbrev pub record_dest : Bytes → Direction → Bool → Stored → Db → Db
record_dest i dir retain s db =
    if not db.config.allow_duplicate_messages && (is_out dir && not retain)
    then record db {
      msg_store =
          update_entry s.db_id (λ e. record e { dest_ids = e.dest_ids ++ i ∷ [] }) db.msg_store;
    }
    else db

-- A lazy bridge that is down asks to be connected once enough is waiting.
unfoldable pub wake_bridge : Option Bridge → Context → Context
unfolding is_lazy
wake_bridge none c = c
wake_bridge (some br) c =
    if is_lazy br.start_type && (not c.sock_valid && not (ltb_ℤ c.msgs_out.msg_count br.threshold))
    then record c { bridge = some (record br { lazy_reconnect = true }) }
    else c

-- The message on its list, counted and referenced. The quota is taken here for every outgoing
-- message above QoS 0, whatever its state.
unfoldable pub accept :
    Bytes → Context → Db → Clock → ℕ → Direction → ℕ → Bool → Stored → MsgState → Context × Db
unfolding append_msg wake_bridge
accept i c db clk mid dir qos retain s state =
    let m = new_msg c db clk mid dir qos retain s state in
    let d = count_msg qos s.payloadlen (append_msg m state (msgs_of c dir)) in
    let c' = wake_bridge c.bridge (with_msgs c dir d) in
    let db' = record_dest i dir retain s (msg_store_ref_inc s db) in
    ((if is_out dir && ltb 0 m.qos then decrement_send_quota c' else c'), db')

-- `db__message_write_inflight_out_latest`, and if that succeeds the two loops after it.
unfoldable pub write_all_lists : Transport → Config → Clock → Context → Db → Result
unfolding and_then
write_all_lists t cfg clk c db =
    and_then (write_inflight_out_latest t c db)
      λ c'. write_storage_out cfg clk (write_queued_out c')

abbrev pub count_change : MsgState → Db → Db
count_change queued_state db = record db { persistence_changes = db.persistence_changes + 1 }
count_change _ db = db

-- The call once a state has been chosen; `r` is the code that it holds by then.
unfoldable pub insert_taken :
    Transport
    → Bytes
    → Context
    → Db
    → Clock
    → ℕ
    → Direction
    → ℕ
    → Bool
    → Stored
    → Bool
    → MsgState
    → Rc
    → Result
unfolding write_all_lists
insert_taken t i c db clk mid dir qos retain s update state r =
    let (c', db') = accept i c (count_change state db) clk mid dir qos retain s state in
    if is_out dir && update then write_all_lists t db.config clk c' db' else (c', db', r)

-- A message that finds the queue full.
abbrev pub dropped : Context → Db → Result
dropped c db =
    (record c { is_dropping = true }, record db { msgs_dropped = db.msgs_dropped + 1 }, protocol)

-- The call for a client with an identifier, from the choice of a state on.
unfoldable pub insert_decided :
    Transport
    → Bytes
    → Context
    → Db
    → Clock
    → ℕ
    → Direction
    → ℕ
    → Bool
    → Stored
    → Bool
    → Decision
    → Result
insert_decided t i c db clk mid dir qos retain s update (refuse r) = (c, db, r)
insert_decided t i c db clk mid dir qos retain s update drop_full = dropped c db
insert_decided t i c db clk mid dir qos retain s update (take_as state r) =
    insert_taken t i c db clk mid dir qos retain s update state r

-- A client in good standing: the time in slow mode is checked only while it is connected.
abbrev pub checked_mode : Clock → Context → Context
checked_mode clk c = if c.sock_valid then expire_slow_mode clk c else c

unfoldable pub insert_for :
    Transport → Bytes → Context → Db → Clock → ℕ → Direction → ℕ → Bool → Stored → Bool → Result
unfolding insert_decided insert_taken
insert_for t i c db clk mid dir qos retain s update =
    if already_sent c i dir retain s db
    then (c, db, success)
    else if refuses_offline db.config c qos
    then (c, db, protocol)
    else let c' = checked_mode clk c in
      insert_decided t i c' db clk mid dir qos retain s update (decide db.config c' dir qos s)

-- `db__message_insert`
unfoldable pub message_insert :
    Transport → Context → Db → Clock → ℕ → Direction → ℕ → Bool → Stored → Bool → Result
unfolding insert_for
message_insert t c db clk mid dir qos retain s update = elim c.id [
  | none ↦ (c, db, success)
  | some i ↦ insert_for t i c db clk mid dir qos retain s update
]
