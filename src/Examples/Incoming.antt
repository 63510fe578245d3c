-- ===== src/Examples/Incoming.antt =====
-- The example for the messages that a client publishes.
use adaptive_mqtt_transmit_p.Common.{◌≡◌, refl, arith, false, [], ◌∷◌}
use adaptive_mqtt_transmit_p.Broker.Types.{md_in, slow_mode, storage_state}
use adaptive_mqtt_transmit_p.Broker.Insert.{message_insert, new_msg}
use adaptive_mqtt_transmit_p.Broker.Incoming.{message_store_find}
use adaptive_mqtt_transmit_p.Broker.Incoming.Lost.{withheld_incoming_is_lost}
use adaptive_mqtt_transmit_p.Examples.{open_link, clock, database, subscriber, stored, no_messages}

withheld_incoming_is_lost_example :
    let c = subscriber no_messages slow_mode in
    let c' = (message_insert open_link c database clock 7 md_in 2 false (stored 7 700) false).0 in
    (c'.msgs_in.storage
      ≡ new_msg c database clock 7 md_in 2 false (stored 7 700) storage_state ∷ [])
    × (message_store_find c' 7 ≡ message_store_find c 7)
withheld_incoming_is_lost_example =
    withheld_incoming_is_lost open_link (subscriber no_messages slow_mode) database clock 7 2 false
      (stored 7 700) false (b's' ∷ []) refl refl (λ e. cc) 7
      (record { large = omega arith; slow = refl; recent = omega arith; ordinary = λ e. cc })
