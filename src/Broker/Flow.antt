-- ===== src/Broker/Flow.antt =====
-- Admission of a message for a client: `db__ready_for_flight` and `db__ready_for_queue`
-- of src/database.c.
use adaptive_mqtt_transmit_p.Common.{ℕ, Bool, true, false, not, ◌&&◌, ltb, ◌==◌, if◌then◌else◌}
use adaptive_mqtt_transmit_p.Common.Int.{ℤ, pos, ◌-ℤ◌, ltb_ℤ}
use adaptive_mqtt_transmit_p.Broker.Types.{MsgData, Context, Config, Direction, md_in, md_out}

abbrev pub msgs_of : Context → Direction → MsgData
msgs_of c md_out = c.msgs_out
msgs_of c md_in = c.msgs_in

abbrev pub with_msgs : Context → Direction → MsgData → Context
with_msgs c md_out d = record c { msgs_out = d }
with_msgs c md_in d = record c { msgs_in = d }

-- How many messages count against `max_queued_messages` at QoS 0.
abbrev qos0_count : Context → Direction → ℤ
qos0_count c md_out = c.link.out_packet_count
qos0_count c md_in = c.msgs_in.msg_count -ℤ pos c.msgs_in.inflight_maximum

ready_qos0 : Config → Context → Direction → Bool
ready_qos0 cfg c dir =
    let msgs = msgs_of c dir in
    let valid_bytes =
      ltb_ℤ (msgs.msg_bytes -ℤ pos cfg.max_inflight_bytes) (pos cfg.max_queued_bytes) in
    let valid_count = ltb_ℤ (qos0_count c dir) (pos cfg.max_queued_messages) in
    if cfg.max_queued_messages == 0 && cfg.max_inflight_bytes == 0
    then true
    else if cfg.max_queued_messages == 0
    then valid_bytes
    else if cfg.max_queued_bytes == 0
    then valid_count
    else (valid_bytes && valid_count)

ready_qos12 : Config → MsgData → Bool
ready_qos12 cfg msgs =
    let valid_bytes = ltb_ℤ msgs.msg_bytes12 (pos cfg.max_inflight_bytes) in
    let valid_count = ltb 0 msgs.inflight_quota in
    if msgs.inflight_maximum == 0
    then valid_bytes
    else if cfg.max_inflight_bytes == 0
    then valid_count
    else (valid_bytes && valid_count)

unfoldable pub ready_for_flight : Config → Context → Direction → ℕ → Bool
unfolding ready_qos0 ready_qos12
ready_for_flight cfg c dir qos =
    let msgs = msgs_of c dir in
    if msgs.inflight_maximum == 0 && cfg.max_inflight_bytes == 0
    then true
    else if qos == 0
    then ready_qos0 cfg c dir
    else ready_qos12 cfg msgs

unfoldable pub ready_for_queue : Config → Context → ℕ → MsgData → Bool
ready_for_queue cfg c qos msg_data =
    let adjust_bytes = if c.sock_valid then cfg.max_inflight_bytes else 0 in
    let adjust_count = if c.sock_valid then msg_data.inflight_maximum else 0 in
    let valid_bytes = ltb_ℤ (msg_data.msg_bytes12 -ℤ pos adjust_bytes) (pos cfg.max_queued_bytes) in
    let valid_count =
      ltb_ℤ (msg_data.msg_count12 -ℤ pos adjust_count) (pos cfg.max_queued_messages) in
    if cfg.max_queued_messages == 0 && cfg.max_queued_bytes == 0
    then true
    else if qos == 0 && not cfg.queue_qos0_messages
    then false
    else if cfg.max_queued_bytes == 0
    then valid_count
    else if cfg.max_queued_messages == 0
    then valid_bytes
    else (valid_bytes && valid_count)
