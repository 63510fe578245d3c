-- ===== src/Examples/Policy.antt =====
-- The examples for the transmit policy of src/database.c.
use adaptive_mqtt_transmit_p.Common.{◌≡◌, length, refl, arith, false, [], ◌∷◌}
use adaptive_mqtt_transmit_p.Broker.Types.{slow_mode, normal_mode, success, md_out, storage_state}
use adaptive_mqtt_transmit_p.Broker.Withhold.{write_storage_out}
use adaptive_mqtt_transmit_p.Broker.Withhold.Due.{ReleasesDue, write_storage_out-ReleasesDue}
use adaptive_mqtt_transmit_p.Broker.Insert.{message_insert, new_msg, already_sent}
use adaptive_mqtt_transmit_p.Broker.Insert.Policy.{
  SameLists, message_insert_withholds, message_insert_passes,
}
use adaptive_mqtt_transmit_p.Broker.Insert.Waits.{MustWait}
use adaptive_mqtt_transmit_p.Examples.{
  open_link, config, clock, database, subscriber, stored, full_messages, withheld_messages,
}

must_wait : MustWait config clock (subscriber full_messages slow_mode) (stored 7 700)
must_wait = record { large = omega arith; slow = refl; recent = omega arith; ordinary = λ e. cc }

message_insert_withholds_example :
    let c = subscriber full_messages slow_mode in
    let (c', db', r) =
      message_insert open_link c database clock 10 md_out 1 false (stored 7 700) false in
    let m = new_msg c database clock 10 md_out 1 false (stored 7 700) storage_state in
    (r ≡ success) × SameLists c'.msgs_out (record full_messages { storage = m ∷ [] })
unfolding already_sent
message_insert_withholds_example =
    message_insert_withholds open_link (subscriber full_messages slow_mode) database clock 10 1
      false (stored 7 700) (b's' ∷ []) refl refl (λ e. cc) refl must_wait

message_insert_passes_example :
    (message_insert open_link
      (subscriber full_messages normal_mode)
      database
      clock
      10
      md_out
      1
      false
      (stored 7 700)
      false).0.msgs_out.storage
    ≡ []
unfolding already_sent
message_insert_passes_example =
    message_insert_passes open_link (subscriber full_messages normal_mode) database clock 10 1 false
      (stored 7 700) (b's' ∷ []) refl refl (λ e. cc) refl (λ w. let slow = w.slow in cc)

write_storage_out-ReleasesDue_example :
    let c = subscriber withheld_messages slow_mode in
    ReleasesDue config clock c (write_storage_out config clock c)
write_storage_out-ReleasesDue_example =
    write_storage_out-ReleasesDue config clock (subscriber withheld_messages slow_mode) refl
      ((omega arith, (omega arith, tt)), ((omega arith, tt), (tt, tt)))

-- Two of the three messages are due, and both go to the inflight list.
two_due :
    length
      (write_storage_out config clock (subscriber withheld_messages slow_mode)).msgs_out.inflight
    ≡ 2
unfolding write_storage_out
two_due = refl
