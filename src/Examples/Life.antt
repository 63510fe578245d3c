-- ===== src/Examples/Life.antt =====
-- The examples for the life of a client, and for a message that comes twice.
use adaptive_mqtt_transmit_p.Common.{
  some, ◌+◌, length, ◌≡◌, ◌⊎◌, refl, arith, false, true, List, [], ◌∷◌,
}
use adaptive_mqtt_transmit_p.Broker.Types.{Clock, Entry, md_out, success, slow_mode}
use adaptive_mqtt_transmit_p.Broker.Store.{find_entry, unlink_entry, msg_store_ref_inc}
use adaptive_mqtt_transmit_p.Broker.Delivery.{write_inflight_out_latest}
use adaptive_mqtt_transmit_p.Broker.Queues.{count_msg}
use adaptive_mqtt_transmit_p.Broker.Util.{decrement_send_quota, decrement_quota}
use adaptive_mqtt_transmit_p.Common.Int.{◌+ℤ◌}
use adaptive_mqtt_transmit_p.Broker.Insert.{
  message_insert, already_sent, contains, accept, decide, refuses_offline,
}
use adaptive_mqtt_transmit_p.Broker.Insert.Twice.{withheld_takes_two}
use adaptive_mqtt_transmit_p.Broker.Withhold.{write_storage_out, expire_slow_mode, withholds}
use adaptive_mqtt_transmit_p.Broker.Insert.Policy.{SameLists}
use adaptive_mqtt_transmit_p.Broker.Insert.Once.{message_insert-once}
use adaptive_mqtt_transmit_p.Broker.Quota.{IsWithin}
use adaptive_mqtt_transmit_p.Broker.Withhold.Release.{IsOldestFirst}
use adaptive_mqtt_transmit_p.System.{
  Event, message_for, acked, received, refused, written, latest_written, queued_written, resumed,
  deleted, limited, took_over, run,
}
use adaptive_mqtt_transmit_p.System.Quota.{run-IsWithin}
use adaptive_mqtt_transmit_p.System.Order.{run-IsOldestFirst}
use adaptive_mqtt_transmit_p.Examples.{
  open_link, config, no_messages, clock, database, subscriber, stored, full_messages, entry,
}

abbrev later : Clock
later = record clock { mono_s = 510 }

abbrev events : List Event
events =
    message_for clock 10 md_out 1 false (stored 7 700) false
    ∷ message_for later 11 md_out 1 false (stored 9 900) true
    ∷ acked later 1 1
    ∷ received 2
    ∷ refused 3
    ∷ queued_written
    ∷ latest_written
    ∷ written
    ∷ resumed
    ∷ limited 3
    ∷ took_over no_messages full_messages
    ∷ deleted false
    ∷ []

run-IsWithin_example :
    IsWithin (run open_link events (subscriber full_messages slow_mode, database)).0.msgs_out
run-IsWithin_example =
    run-IsWithin open_link events (subscriber full_messages slow_mode, database) (omega arith)

run-IsOldestFirst_example :
    IsOldestFirst
      (run open_link events (subscriber full_messages slow_mode, database)).0.msgs_out.storage
run-IsOldestFirst_example =
    run-IsOldestFirst open_link events 400 (subscriber full_messages slow_mode, database)
      (omega arith, (omega arith, ((tt, tt), tt))) refl

-- The entry of the message once the client has it.
abbrev had : Entry
had = record (entry 7 700 2) { dest_ids = (b's' ∷ []) ∷ [] }

had_after :
    find_entry 7
      (message_insert open_link
        (subscriber full_messages slow_mode)
        database
        clock
        10
        md_out
        1
        false
        (stored 7 700)
        true).1.msg_store
    ≡ some had
unfolding find_entry message_insert already_sent refuses_offline decide expire_slow_mode withholds
    write_inflight_out_latest accept decrement_send_quota decrement_quota count_msg
    msg_store_ref_inc ◌+ℤ◌
had_after = refl

message_insert-once_example :
    let c = subscriber full_messages slow_mode in
    let (c', db', r) =
      message_insert open_link c database clock 10 md_out 1 false (stored 7 700) true in
    SameLists c'.msgs_out c.msgs_out
    ⊎ (message_insert open_link c' db' clock 11 md_out 1 false (stored 7 700) true
        ≡ (c', db', success))
unfolding find_entry unlink_entry
message_insert-once_example =
    message_insert-once open_link open_link (subscriber full_messages slow_mode) database clock
      clock 10 11 1 1 true true (stored 7 700) refl refl refl had had_after

-- Once the message has waited for longer than the timeout.
abbrev much_later : Clock
much_later = record clock { mono_s = 600 }

withheld_takes_two_example :
    let c = subscriber no_messages slow_mode in
    let c' = (message_insert open_link c database clock 10 md_out 1 false (stored 7 700) false).0 in
    let d = (write_storage_out config much_later c').msgs_out in
    (d.inflight_quota + 2 ≡ 2) × (length d.inflight ≡ 1)
unfolding already_sent find_entry contains
withheld_takes_two_example =
    withheld_takes_two open_link (subscriber no_messages slow_mode) database clock much_later 10 1
      false (stored 7 700) (b's' ∷ []) refl refl refl refl (omega arith) (omega arith) refl
      (λ e. omega (arith, e)) (omega arith) (omega arith)
      (record { large = omega arith; slow = refl; recent = omega arith; ordinary = λ e. cc })
