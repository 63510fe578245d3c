-- ===== src/Broker/Queues.antt =====
-- The moves between the three lists of a `mosquitto_msg_data` in src/database.c.
use adaptive_mqtt_transmit_p.Common.{ℕ, Bool, false, [], ◌∷◌, ◌++◌, ltb, ◌==◌, if◌then◌else◌}
use adaptive_mqtt_transmit_p.Common.Int.{pos, ◌+ℤ◌, ◌-ℤ◌}
use adaptive_mqtt_transmit_p.Broker.Types.{
  MsgData, ClientMsg, MsgState, publish_qos0, publish_qos1, publish_qos2,
}
use adaptive_mqtt_transmit_p.Broker.Util.{decrement_quota}

-- `switch(qos)` to the state in which a message waits to be published. Another QoS leaves the
-- state; a message has QoS 0, 1 or 2.
abbrev pub publish_state : ℕ → MsgState → MsgState
publish_state qos old =
    if qos == 0
    then publish_qos0
    else if qos == 1
    then publish_qos1
    else if qos == 2
    then publish_qos2
    else old

-- The message, its state set for publishing.
abbrev pub to_publish : ClientMsg → ClientMsg
to_publish m = record m { state = publish_state m.qos m.state }

-- `db__message_dequeue_first`: the callers make sure that the list is not empty.
unfoldable pub dequeue_first : MsgData → MsgData
unfolding decrement_quota
dequeue_first d = elim d.queued [
  | [] ↦ d
  | m ∷ rest ↦ decrement_quota (record d { queued = rest; inflight = d.inflight ++ m ∷ [] })
]

-- Where `db__message_destorage_first` puts the message: its argument 0 or 1.
pub data Target : Type 0 where
  to_queue to_inflight : Target

unfoldable pub destorage_first : MsgData → Target → MsgData
unfolding decrement_quota
destorage_first d target = elim d.storage [
  | [] ↦ d
  | m ∷ rest ↦ elim target [
    | to_queue ↦ record d { storage = rest; queued = d.queued ++ m ∷ [] }
    | to_inflight ↦ decrement_quota (record d { storage = rest; inflight = d.inflight ++ m ∷ [] })
  ]
]

-- The counters of `db__message_remove`.
unfoldable pub uncount : ClientMsg → MsgData → MsgData
uncount m d =
    let above_qos0 = ltb 0 m.qos in
    let size = pos m.store.payloadlen in
    record d {
      msg_count = d.msg_count -ℤ pos 1;
      msg_bytes = d.msg_bytes -ℤ size;
      msg_count12 = if above_qos0 then d.msg_count12 -ℤ pos 1 else d.msg_count12;
      msg_bytes12 = if above_qos0 then d.msg_bytes12 -ℤ size else d.msg_bytes12;
    }

-- The counters of `db__message_insert` and of the loops that count a session afresh.
unfoldable pub count_msg : ℕ → ℕ → MsgData → MsgData
count_msg qos payloadlen d =
    let above_qos0 = ltb 0 qos in
    record d {
      msg_count = d.msg_count +ℤ pos 1;
      msg_bytes = d.msg_bytes +ℤ pos payloadlen;
      msg_count12 = if above_qos0 then d.msg_count12 +ℤ pos 1 else d.msg_count12;
      msg_bytes12 = if above_qos0 then d.msg_bytes12 +ℤ pos payloadlen else d.msg_bytes12;
    }

-- The test by which the loops over `queued` and `storage` see that the quota is used up.
abbrev pub quota_used_up : MsgData → Bool
quota_used_up d = if d.inflight_maximum == 0 then false else d.inflight_quota == 0
