-- ===== src/System/Storage.antt =====
-- The operations that leave the list of withheld messages alone.
use adaptive_mqtt_transmit_p.Common.{
  ℕ, ◌+◌, ◌≡◌, refl, ◌∙◌, not, ◌&&◌, List, [], ◌∷◌, ◌++◌, leb, ◌==◌, if_rule, arith,
}
use adaptive_mqtt_transmit_p.Broker.Types.{Context, Db, ClientMsg, MsgData, MsgState}
use adaptive_mqtt_transmit_p.Broker.Util.{is_active}
use adaptive_mqtt_transmit_p.Broker.Queues.{quota_used_up, to_publish, dequeue_first, uncount}
use adaptive_mqtt_transmit_p.Broker.Delivery.{
  Transport, queued_loop, write_queued_out, write_list, with_inflight, uncount_out,
  write_inflight_out_latest, write_inflight_out_all,
}
use adaptive_mqtt_transmit_p.Broker.Delivery.Cases.{latest_cases, all_cases}
use adaptive_mqtt_transmit_p.Broker.Ack.{release_loop, release_and_write, message_delete_outgoing}
use adaptive_mqtt_transmit_p.Broker.Ack.Find.{delete_outgoing_cases}
use adaptive_mqtt_transmit_p.Broker.Counts.{Measure}
use adaptive_mqtt_transmit_p.Broker.Counts.Walk.{write_list-Balance}

storage-dequeue_first : (d : MsgData) → (dequeue_first d).storage ≡ d.storage
unfolding dequeue_first
storage-dequeue_first d = ground arith

storage-queued_loop :
    (todo : List ClientMsg) (d : MsgData) → (queued_loop d todo).storage ≡ d.storage
unfolding queued_loop
storage-queued_loop [] d = refl
storage-queued_loop (m ∷ rest) d =
    let d' = record d { queued = to_publish m ∷ rest } in
    if_rule (λ (x : MsgData). x.storage ≡ d.storage) (quota_used_up d) refl
      (storage-queued_loop rest (dequeue_first d') ∙ storage-dequeue_first d')

storage-release_loop :
    (now : ℕ) (todo : List ClientMsg) (i : ℕ) (d : MsgData)
    → (release_loop now i d todo).storage ≡ d.storage
unfolding release_loop
storage-release_loop now [] i d = refl
storage-release_loop now (m ∷ rest) i d =
    let d' = record d { queued = record (to_publish m) { timestamp = now } ∷ rest } in
    if_rule (λ (x : MsgData). x.storage ≡ d.storage)
      (not (d.inflight_maximum == 0) && leb d.inflight_maximum i) refl
      (storage-release_loop now rest (i + 1) (dequeue_first d') ∙ storage-dequeue_first d')

pub storage-write_queued_out :
    (c : Context) → (write_queued_out c).msgs_out.storage ≡ c.msgs_out.storage
unfolding write_queued_out
storage-write_queued_out c =
    if_rule (λ (c' : Context). c'.msgs_out.storage ≡ c.msgs_out.storage) (not (is_active c.state))
      refl (storage-queued_loop c.msgs_out.queued c.msgs_out)

module _ (t : Transport) where
  storage-write_list :
      (c : Context) (db : Db) (ms : List ClientMsg)
      → (write_list t c db ms).ctx.msgs_out.storage ≡ c.msgs_out.storage
  storage-write_list c db ms = (write_list-Balance Measure.messages t c db ms).same_storage

  pub storage-write_latest :
      (c : Context) (db : Db)
      → (write_inflight_out_latest t c db).0.msgs_out.storage ≡ c.msgs_out.storage
  storage-write_latest c db =
      latest_cases (λ r. r.0.msgs_out.storage ≡ c.msgs_out.storage) t c db refl
        (λ front back e. storage-write_list c db back)

  pub storage-write_all :
      (c : Context) (db : Db)
      → (write_inflight_out_all t c db).0.msgs_out.storage ≡ c.msgs_out.storage
  storage-write_all c db =
      all_cases (λ r. r.0.msgs_out.storage ≡ c.msgs_out.storage) t c db refl
        (storage-write_list c db c.msgs_out.inflight)

  pub storage-message_delete_outgoing :
      (c : Context) (db : Db) (mid : ℕ) (expect : MsgState) (qos : ℕ)
      → (message_delete_outgoing t c db mid expect qos).0.msgs_out.storage ≡ c.msgs_out.storage
  unfolding release_and_write uncount
  storage-message_delete_outgoing c db mid expect qos =
      delete_outgoing_cases (λ r. r.0.msgs_out.storage ≡ c.msgs_out.storage) t c db mid expect qos
        (λ _.
          storage-write_latest _ _ ∙ storage-release_loop db.now_s c.msgs_out.queued _ c.msgs_out)
        refl
        λ before m after _ _.
          storage-write_latest _ _
          ∙ storage-release_loop _ c.msgs_out.queued _
              (uncount_out m (with_inflight c (before ++ after))).msgs_out
