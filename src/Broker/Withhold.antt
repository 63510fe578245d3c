-- ===== src/Broker/Withhold.antt =====
-- The transmit policy in src/database.c: which messages `db__message_insert` holds back in
-- `storage`, and when `db__message_write_storage_out` lets them go.
pub mod Release
pub mod Due
pub mod Order
use adaptive_mqtt_transmit_p.Common.{
  ℕ, ◌+◌, ◌-◌, Bool, true, false, not, Option, none, some, List, [], ◌∷◌, ◌++◌, ltb, leb,
  if◌then◌else◌, ◌&&◌, ◌||◌,
}
use adaptive_mqtt_transmit_p.Common.Bytes.{Bytes, bytes_eq}
use adaptive_mqtt_transmit_p.Broker.Types.{
  Context, ClientMsg, MsgData, Config, Stored, Clock, TransferMode, normal_mode, slow_mode,
  latency_topic,
}
use adaptive_mqtt_transmit_p.Broker.Util.{set_mode, is_active, is_slow}
use adaptive_mqtt_transmit_p.Broker.Queues.{
  to_publish, destorage_first, Target, to_queue, to_inflight, quota_used_up,
}

-- How long, in seconds, a client may stay in slow mode.
abbrev pub slow_mode_limit : ℕ
slow_mode_limit = 30

-- A client that has been in slow mode for too long goes back to normal mode.
unfoldable pub expire_slow_mode : Clock → Context → Context
unfolding set_mode
expire_slow_mode clk c =
    if ltb (c.slow_mode_time + slow_mode_limit) clk.wall_s then set_mode c normal_mode else c

-- `strcmp(stored->topic, "latency") != 0`; the source does not expect a missing topic here.
abbrev pub is_latency : Option Bytes → Bool
is_latency none = false
is_latency (some t) = bytes_eq t latency_topic

-- The condition under which a message is held back.
unfoldable pub withholds : Config → Context → Stored → Bool
unfolding bytes_eq
withholds cfg c s = leb cfg.threshold_s s.payloadlen && is_slow c.mode && not (is_latency s.topic)

-- The condition under which `db__message_write_storage_out` lets a message go. The monotonic
-- clock does not run back, so the age is a number.
abbrev pub is_due : Config → Clock → TransferMode → ClientMsg → Bool
is_due cfg clk mode m =
    ltb cfg.msg_store_timeout (clk.mono_s - m.storage_time) || not (is_slow mode)

abbrev pub tail : List ClientMsg → List ClientMsg
tail [] = []
tail (m ∷ ms) = ms

-- The loop of `db__message_write_storage_out`. `storage` is `passed` and then the list walked over;
-- what leaves `storage` is its head, which need not be the message that is due.
unfoldable pub storage_loop :
    Config → Clock → TransferMode → MsgData → List ClientMsg → List ClientMsg → MsgData
unfolding destorage_first
storage_loop cfg clk mode d passed [] = d
storage_loop cfg clk mode d passed (m ∷ rest) =
    let to_queue_first =
      storage_loop cfg clk mode (destorage_first d to_queue) (tail (passed ++ m ∷ [])) rest in
    let published = passed ++ to_publish m ∷ [] in
    let to_inflight_first =
      storage_loop cfg clk mode
        (destorage_first (record d { storage = published ++ rest }) to_inflight) (tail published)
        rest in
    let onward = storage_loop cfg clk mode d (passed ++ m ∷ []) rest in
    if is_due cfg clk mode m
    then (if quota_used_up d then to_queue_first else to_inflight_first)
    else onward

-- `db__message_write_storage_out`; it always returns MOSQ_ERR_SUCCESS.
unfoldable pub write_storage_out : Config → Clock → Context → Context
unfolding storage_loop
write_storage_out cfg clk c =
    if not (is_active c.state)
    then c
    else record c { msgs_out = storage_loop cfg clk c.mode c.msgs_out [] c.msgs_out.storage }
