-- ===== src/Broker/Ack.antt =====
-- Acknowledgements: `db__message_delete_outgoing` and `db__message_update_outgoing` of
-- src/database.c.
pub mod Find
pub mod Writes
pub mod FlowControl
use adaptive_mqtt_transmit_p.Common.{
  ℕ, ◌+◌, Bool, not, Option, none, some, List, [], ◌∷◌, ◌++◌, leb, ◌==◌, if◌then◌else◌, ◌&&◌,
  length,
}
use adaptive_mqtt_transmit_p.Broker.Types.{
  Context, ClientMsg, MsgData, MsgState, Db, Rc, success, protocol, inval, not_found, invalid,
  publish_qos0, publish_qos1, wait_for_puback, publish_qos2, wait_for_pubrec, resend_pubrel,
  wait_for_pubrel, resend_pubcomp, wait_for_pubcomp, send_pubrec, queued_state, storage_state,
}
use adaptive_mqtt_transmit_p.Broker.Store.{msg_store_ref_dec}
use adaptive_mqtt_transmit_p.Broker.Queues.{to_publish, dequeue_first, uncount}
use adaptive_mqtt_transmit_p.Broker.Delivery.{
  Transport, Result, uncount_out, with_inflight, write_inflight_out_latest,
}

-- The values of the enumeration, by which states are compared.
abbrev pub state_value : MsgState → ℕ
state_value invalid = 0
state_value publish_qos0 = 1
state_value publish_qos1 = 2
state_value wait_for_puback = 3
state_value publish_qos2 = 4
state_value wait_for_pubrec = 5
state_value resend_pubrel = 6
state_value wait_for_pubrel = 7
state_value resend_pubcomp = 8
state_value wait_for_pubcomp = 9
state_value send_pubrec = 10
state_value queued_state = 11
state_value storage_state = 12

-- What the first loop finds: no message with the identifier, one that does not fit the
-- acknowledgement, or one that does, with the messages before and behind it.
pub data Search : Type 0 where
  missing mismatch : Search
  found : List ClientMsg → ClientMsg → List ClientMsg → Search

abbrev pub behind : ClientMsg → Search → Search
behind m missing = missing
behind m mismatch = mismatch
behind m (found before x after) = found (m ∷ before) x after

unfoldable pub find_acked : ℕ → MsgState → ℕ → List ClientMsg → Search
find_acked mid expect qos [] = missing
find_acked mid expect qos (m ∷ ms) =
    let further = behind m (find_acked mid expect qos ms) in
    if m.mid == mid
    then (if not (m.qos == qos)
        then mismatch
        else if qos == 2 && not (state_value m.state == state_value expect)
        then mismatch
        else found [] m ms)
    else further

-- The second loop: queued messages move up while `msg_index` is below the inflight maximum. The
-- list is what is left of `queued`.
unfoldable pub release_loop : ℕ → ℕ → MsgData → List ClientMsg → MsgData
unfolding dequeue_first
release_loop now msg_index d [] = d
release_loop now msg_index d (m ∷ rest) =
    let m' = record (to_publish m) { timestamp = now } in
    let onward =
      release_loop now (msg_index + 1) (dequeue_first (record d { queued = m' ∷ rest })) rest in
    if not (d.inflight_maximum == 0) && leb d.inflight_maximum msg_index then d else onward

-- The second loop on, from a count of messages passed in the first.
unfoldable pub release_and_write : Transport → Context → Db → ℕ → Result
unfolding release_loop
release_and_write t c db msg_index =
    let d = release_loop db.now_s msg_index c.msgs_out c.msgs_out.queued in
    write_inflight_out_latest t (record c { msgs_out = d })
      (record db { persistence_changes = db.persistence_changes + 1 })

-- `db__message_delete_outgoing`
unfoldable pub message_delete_outgoing : Transport → Context → Db → ℕ → MsgState → ℕ → Result
unfolding find_acked release_and_write
message_delete_outgoing t c db mid expect qos =
    elim (find_acked mid expect qos c.msgs_out.inflight) [
      | missing ↦ release_and_write t c db (length c.msgs_out.inflight)
      | mismatch ↦ (c, db, protocol)
      | found before m after ↦
          release_and_write t (uncount_out m (with_inflight c (before ++ after)))
            (msg_store_ref_dec m.store db) (length before)
    ]

-- The loop of `db__message_update_outgoing` with its two early returns; `none` is a mismatch.
unfoldable pub update_loop : ℕ → ℕ → MsgState → ℕ → List ClientMsg → List ClientMsg × Rc
update_loop now mid state qos [] = ([], not_found)
update_loop now mid state qos (m ∷ ms) =
    let (ms', r) = update_loop now mid state qos ms in
    if m.mid == mid
    then (if not (m.qos == qos)
        then (m ∷ ms, protocol)
        else (record m { state = state; timestamp = now } ∷ ms, success))
    else (m ∷ ms', r)

-- `db__message_update_outgoing`
unfoldable pub message_update_outgoing : Context → Db → ℕ → MsgState → ℕ → Context × Rc
unfolding update_loop
message_update_outgoing c db mid state qos =
    let (ms, r) = update_loop db.now_s mid state qos c.msgs_out.inflight in (with_inflight c ms, r)
