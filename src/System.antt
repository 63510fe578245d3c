-- ===== src/System.antt =====
-- A client's life as a sequence of the calls that change it: messages of its subscriptions, its
-- acknowledgements, writes, a receive maximum, and the end, the resumption and the taking over of its
-- session.
pub mod Quota
pub mod Storage
pub mod Order
use adaptive_mqtt_transmit_p.Common.{ℕ, Bool, List, [], ◌∷◌}
use adaptive_mqtt_transmit_p.Broker.Types.{
  Context, Db, MsgData, Clock, Stored, Direction, MsgState, wait_for_pubcomp, wait_for_pubrec,
}
use adaptive_mqtt_transmit_p.Broker.Delivery.{
  Transport, write_inflight_out_all, write_inflight_out_latest, write_queued_out,
}
use adaptive_mqtt_transmit_p.Broker.Insert.{message_insert}
use adaptive_mqtt_transmit_p.Broker.Ack.{message_update_outgoing, message_delete_outgoing}
use adaptive_mqtt_transmit_p.Broker.Session.{message_reconnect_reset, messages_delete}
use adaptive_mqtt_transmit_p.Broker.Session.Limits.{receive_maximum, take_over}
use adaptive_mqtt_transmit_p.Adaptive.{acknowledge}

pub data Event : Type 0 where
  message_for : Clock → ℕ → Direction → ℕ → Bool → Stored → Bool → Event
  acked : Clock → ℕ → ℕ → Event
  received refused : ℕ → Event
  written latest_written queued_written resumed : Event
  deleted : Bool → Event
  limited : ℕ → Event
  took_over : MsgData → MsgData → Event

-- `limited` is the receive maximum of CONNECT, and `took_over` has the messages of the connection
-- found under the client's identifier. `received` is PUBREC, on which handle__pubrec has the message
-- wait for PUBCOMP, or with an error, `refused`, removes it.
unfoldable pub step : Transport → Event → Context × Db → Context × Db
unfolding acknowledge message_update_outgoing message_reconnect_reset write_inflight_out_all
    message_insert write_inflight_out_latest message_delete_outgoing write_queued_out
    messages_delete receive_maximum take_over
step t (message_for clk mid dir qos retain s update) (c, db) =
    let (c', db', r) = message_insert t c db clk mid dir qos retain s update in (c', db')
step t (acked clk mid qos) (c, db) = let (c', db', r) = acknowledge t clk c db mid qos in (c', db')
step t (received mid) (c, db) = ((message_update_outgoing c db mid wait_for_pubcomp 2).0, db)
step t (refused mid) (c, db) =
    let (c', db', r) = message_delete_outgoing t c db mid wait_for_pubrec 2 in (c', db')
step t written (c, db) = let (c', db', r) = write_inflight_out_all t c db in (c', db')
step t latest_written (c, db) = let (c', db', r) = write_inflight_out_latest t c db in (c', db')
step t queued_written (c, db) = (write_queued_out c, db)
step t resumed (c, db) = message_reconnect_reset c db
step t (deleted force_free) (c, db) = messages_delete c db force_free
step t (limited n) (c, db) = ((receive_maximum n c).0, db)
step t (took_over found_in found_out) (c, db) = take_over found_in found_out c db

unfoldable pub run : Transport → List Event → Context × Db → Context × Db
unfolding step
run t [] x = x
run t (e ∷ es) x = run t es (step t e x)
