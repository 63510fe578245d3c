-- ===== src/Examples/Flow.antt =====
-- The examples for the lists and the counters of src/database.c.
use mathlib.Core.Option.{some-injective}
use adaptive_mqtt_transmit_p.Common.{
  ◌≡◌, ◌<◌, refl, ap, sym, arith, inr, false, true, [], ◌∷◌, length,
}
use adaptive_mqtt_transmit_p.Broker.Types.{
  MsgData, slow_mode, md_out, wait_for_pubcomp, wait_for_puback, Entry,
}
use adaptive_mqtt_transmit_p.Broker.Store.{
  find_entry, msg_store_ref_dec, message_store, msg_store_compact, is_free,
}
use adaptive_mqtt_transmit_p.Broker.Store.Counters.{
  IsCounted, referenced, message_store-IsCounted, msg_store_ref_dec-IsCounted,
  msg_store_compact_lem,
}
use adaptive_mqtt_transmit_p.Broker.Delivery.{write_queued_out}
use adaptive_mqtt_transmit_p.Broker.Delivery.Queued.{move_queued, write_queued_out_lem}
use adaptive_mqtt_transmit_p.Broker.Insert.{message_insert}
use adaptive_mqtt_transmit_p.Broker.Ack.{message_delete_outgoing, find_acked, found}
use adaptive_mqtt_transmit_p.Broker.Ack.Writes.{Accepts}
use adaptive_mqtt_transmit_p.Broker.Ack.FlowControl.{message_delete_outgoing_overfills}
use adaptive_mqtt_transmit_p.Broker.Counts.{messages, bytes, messages12, bytes12, Counted}
use adaptive_mqtt_transmit_p.Broker.Counts.Insert.{message_insert-Counted}
use adaptive_mqtt_transmit_p.Broker.Counts.Ack.{message_delete_outgoing-Counted}
use adaptive_mqtt_transmit_p.Examples.{
  open_link, clock, database, subscriber, stored, full_messages, message, entry,
}

full-Counted : Counted full_messages
full-Counted messages = refl
full-Counted bytes = refl
full-Counted messages12 = refl
full-Counted bytes12 = refl

message_insert-Counted_example :
    Counted
      (message_insert open_link
        (subscriber full_messages slow_mode)
        database
        clock
        10
        md_out
        1
        false
        (stored 7 700)
        true).0.msgs_out
message_insert-Counted_example =
    message_insert-Counted open_link (subscriber full_messages slow_mode) database clock 10 md_out 1
      false (stored 7 700) true (inr (omega arith)) full-Counted

message_delete_outgoing-Counted_example :
    Counted
      (message_delete_outgoing open_link
        (subscriber full_messages slow_mode)
        database
        2
        wait_for_pubcomp
        1).0.msgs_out
message_delete_outgoing-Counted_example =
    message_delete_outgoing-Counted open_link (subscriber full_messages slow_mode) database 2
      wait_for_pubcomp 1 full-Counted

-- One place is free.
abbrev one_free : MsgData
one_free = record full_messages { inflight = message 1 10 wait_for_puback ∷ []; inflight_quota = 1 }

write_queued_out_lem_example :
    (write_queued_out (subscriber one_free slow_mode)).msgs_out ≡ move_queued 1 one_free
write_queued_out_lem_example = write_queued_out_lem (subscriber one_free slow_mode) refl

open_link-Accepts : Accepts open_link
open_link-Accepts = (λ c m e. refl, λ c mid. refl)

acked_first :
    find_acked 1 wait_for_pubcomp 1 full_messages.inflight
    ≡ found [] (message 1 10 wait_for_puback) (message 2 20 wait_for_puback ∷ [])
unfolding find_acked
acked_first = refl

message_delete_outgoing_overfills_example :
    2
    < length
        (message_delete_outgoing open_link
          (subscriber full_messages slow_mode)
          database
          1
          wait_for_pubcomp
          1).0.msgs_out.inflight
message_delete_outgoing_overfills_example =
    message_delete_outgoing_overfills open_link (subscriber full_messages slow_mode) database 1
      wait_for_pubcomp 1 (message 1 10 wait_for_puback) (message 2 20 wait_for_puback ∷ [])
      acked_first open_link-Accepts ((refl, λ e. cc), tt) ((refl, λ e. cc), ((refl, λ e. cc), tt))
      refl (omega arith) (omega arith)

database-IsCounted : IsCounted database
database-IsCounted = record { count = refl; bytes = refl }

message_store-IsCounted_example : IsCounted (message_store (stored 0 50) 60 0 database).1
message_store-IsCounted_example =
    message_store-IsCounted (stored 0 50) 60 0 database database-IsCounted

msg_store_ref_dec-IsCounted_example : IsCounted (msg_store_ref_dec (stored 7 700) database)
unfolding find_entry
msg_store_ref_dec-IsCounted_example =
    msg_store_ref_dec-IsCounted (stored 7 700) database
      (λ e h. ap (λ (x : Entry). x.stored) (sym (some-injective _ _ h))) database-IsCounted

msg_store_compact_lem_example :
    ((msg_store_compact database).msg_store ≡ entry 7 700 1 ∷ entry 9 900 2 ∷ [])
    × IsCounted (msg_store_compact database)
unfolding referenced is_free
msg_store_compact_lem_example =
    msg_store_compact_lem database
      (
        (λ e. omega (arith, e), (λ e. omega (arith, e), tt)),
        ((λ e. omega (arith, e), tt), (tt, tt)),
      )
      database-IsCounted
