-- ===== src/Examples/Session.antt =====
-- The examples for the end and the resumption of a session in src/database.c.
use adaptive_mqtt_transmit_p.Common.{◌+◌, ◌≡◌, ◌↔◌, true, []}
use adaptive_mqtt_transmit_p.Common.Int.{pos}
use adaptive_mqtt_transmit_p.Broker.Types.{slow_mode}
use adaptive_mqtt_transmit_p.Broker.Session.{messages_delete, reconnect_reset_outgoing}
use adaptive_mqtt_transmit_p.Broker.Session.Withheld.{
  messages_delete_leaves_storage, reconnect_reset_outgoing_leaves_storage,
}
use adaptive_mqtt_transmit_p.Broker.Counts.{Measure, counter, sum_of, Counted}
use adaptive_mqtt_transmit_p.Examples.{database, subscriber, withheld_messages}

messages_delete_leaves_storage_example :
    let d = (messages_delete (subscriber withheld_messages slow_mode) database true).0.msgs_out in
    (d.inflight ≡ [])
    × (d.queued ≡ [])
    × (d.storage ≡ withheld_messages.storage)
    × (Counted d ↔ (withheld_messages.storage ≡ []))
messages_delete_leaves_storage_example =
    messages_delete_leaves_storage (subscriber withheld_messages slow_mode) database

reconnect_reset_outgoing_leaves_storage_example :
    let d = (reconnect_reset_outgoing (subscriber withheld_messages slow_mode) database).msgs_out in
    (d.storage ≡ withheld_messages.storage)
    × ((k : Measure) → counter k d ≡ pos (sum_of k d.inflight + sum_of k d.queued))
    × (Counted d ↔ (withheld_messages.storage ≡ []))
reconnect_reset_outgoing_leaves_storage_example =
    reconnect_reset_outgoing_leaves_storage (subscriber withheld_messages slow_mode) database
