-- ===== src/Broker/Quota.antt =====
-- The send quota stays within the inflight maximum in the operations on the lists and in the writes.
pub mod Calls
use adaptive_mqtt_transmit_p.Common.{
  ℕ, ◌+◌, ◌≤◌, ◌≡◌, refl, Bool, not, ◌&&◌, ◌||◌, inl, inr, List, [], ◌∷◌, ◌++◌, arith, Bool-cases,
  if_rule, ltb, leb, ◌==◌, if◌then◌else◌, Option, none, some,
}
use adaptive_mqtt_transmit_p.Broker.Types.{
  ClientMsg, MsgData, MsgState, Context, Config, Clock, Db, Rc, success, oversize_packet,
  TransferMode, publish_qos0, publish_qos1, publish_qos2, resend_pubrel,
}
use adaptive_mqtt_transmit_p.Broker.Util.{
  increment_quota, decrement_quota, increment_send_quota, decrement_send_quota, is_active,
}
use adaptive_mqtt_transmit_p.Broker.Queues.{
  dequeue_first, destorage_first, Target, to_queue, to_inflight, uncount, count_msg, quota_used_up,
  to_publish,
}
use adaptive_mqtt_transmit_p.Broker.Delivery.{
  Transport, Result, write_by_state, write_inflight_out_single, write_list, with_inflight,
  write_inflight_out_all, write_inflight_out_latest, queued_loop, write_queued_out, is_expired,
  is_outgoing,
}
use adaptive_mqtt_transmit_p.Broker.Delivery.Cases.{latest_cases, all_cases, and_then_rule}
use adaptive_mqtt_transmit_p.Broker.Withhold.{is_due, storage_loop, write_storage_out, tail}
use adaptive_mqtt_transmit_p.Broker.Ack.{release_loop}

abbrev pub IsWithin : MsgData → Type 0
IsWithin d = d.inflight_quota ≤ d.inflight_maximum

pub decrement-IsWithin : (d : MsgData) → IsWithin d → IsWithin (decrement_quota d)
unfolding decrement_quota
decrement-IsWithin d h = ground arith

pub increment-IsWithin : (d : MsgData) → IsWithin d → IsWithin (increment_quota d)
unfolding increment_quota
increment-IsWithin d h = ground arith

pub dequeue_first-IsWithin : (d : MsgData) → IsWithin d → IsWithin (dequeue_first d)
unfolding dequeue_first decrement_quota
dequeue_first-IsWithin d h = ground arith

destorage_first-IsWithin : (d : MsgData) (t : Target) → IsWithin d → IsWithin (destorage_first d t)
unfolding destorage_first decrement_quota
destorage_first-IsWithin d to_queue h = ground arith
destorage_first-IsWithin d to_inflight h = ground arith

queued_loop-IsWithin :
    (d : MsgData) (todo : List ClientMsg) → IsWithin d → IsWithin (queued_loop d todo)
unfolding queued_loop
queued_loop-IsWithin d [] h = h
queued_loop-IsWithin d (m ∷ rest) h = if_rule IsWithin (quota_used_up d) h (
    queued_loop-IsWithin (dequeue_first (record d { queued = to_publish m ∷ rest })) rest
      (dequeue_first-IsWithin (record d { queued = to_publish m ∷ rest }) h))

pub release_loop-IsWithin :
    (now i : ℕ) (d : MsgData) (todo : List ClientMsg)
    → IsWithin d
    → IsWithin (release_loop now i d todo)
unfolding release_loop
release_loop-IsWithin now i d [] h = h
release_loop-IsWithin now i d (m ∷ rest) h =
    let m' = record (to_publish m) { timestamp = now } in
    if_rule IsWithin (not (d.inflight_maximum == 0) && leb d.inflight_maximum i) h (
      release_loop-IsWithin now (i + 1) (dequeue_first (record d { queued = m' ∷ rest })) rest
        (dequeue_first-IsWithin (record d { queued = m' ∷ rest }) h))

module _ (cfg : Config) (clk : Clock) (mode : TransferMode) where
  storage_loop-IsWithin :
      (d : MsgData) (passed todo : List ClientMsg)
      → IsWithin d
      → IsWithin (storage_loop cfg clk mode d passed todo)
  unfolding storage_loop
  storage_loop-IsWithin d passed [] h = h
  storage_loop-IsWithin d passed (m ∷ rest) h =
      let published = passed ++ to_publish m ∷ [] in
      let d' = record d { storage = published ++ rest } in
      if_rule IsWithin (is_due cfg clk mode m)
        (if_rule IsWithin (quota_used_up d)
          (storage_loop-IsWithin (destorage_first d to_queue) (tail (passed ++ m ∷ [])) rest
            (destorage_first-IsWithin d to_queue h))
          (storage_loop-IsWithin (destorage_first d' to_inflight) (tail published) rest
            (destorage_first-IsWithin d' to_inflight h)))
        (storage_loop-IsWithin d (passed ++ m ∷ []) rest h)

pub write_queued_out-IsWithin :
    (c : Context) → IsWithin c.msgs_out → IsWithin (write_queued_out c).msgs_out
unfolding write_queued_out
write_queued_out-IsWithin c h =
    if_rule (λ (c' : Context). IsWithin c'.msgs_out) (not (is_active c.state)) h
      (queued_loop-IsWithin c.msgs_out c.msgs_out.queued h)

pub write_storage_out-IsWithin :
    (cfg : Config) (clk : Clock) (c : Context)
    → IsWithin c.msgs_out
    → IsWithin (write_storage_out cfg clk c).msgs_out
unfolding write_storage_out
write_storage_out-IsWithin cfg clk c h =
    if_rule (λ (c' : Context). IsWithin c'.msgs_out) (not (is_active c.state)) h
      (storage_loop-IsWithin cfg clk c.mode c.msgs_out [] c.msgs_out.storage h)

module _ (t : Transport) where
  write_by_state-IsWithin :
      (s : MsgState) (c : Context) (db : Db) (m : ClientMsg)
      → IsWithin c.msgs_out
      → IsWithin (write_by_state t s c db m).ctx.msgs_out
  unfolding write_by_state uncount
  write_by_state-IsWithin publish_qos0 c db m h = ground arith
  write_by_state-IsWithin publish_qos1 c db m h = ground arith
  write_by_state-IsWithin publish_qos2 c db m h = ground arith
  write_by_state-IsWithin resend_pubrel c db m h = ground arith
  write_by_state-IsWithin _ c db m h = h

  single-IsWithin :
      (c : Context) (db : Db) (m : ClientMsg)
      → IsWithin c.msgs_out
      → IsWithin (write_inflight_out_single t c db m).ctx.msgs_out
  unfolding write_inflight_out_single increment_send_quota uncount
  single-IsWithin c db m h =
      ground (arith, write_by_state-IsWithin m.state c db m, increment-IsWithin c.msgs_out)

  write_list-IsWithin :
      (c : Context) (db : Db) (ms : List ClientMsg)
      → IsWithin c.msgs_out
      → IsWithin (write_list t c db ms).ctx.msgs_out
  unfolding write_list
  write_list-IsWithin c db [] h = h
  write_list-IsWithin c db (m ∷ rest) h =
      let o = write_inflight_out_single t c db m in
      ground (arith, single-IsWithin c db m h, write_list-IsWithin o.ctx o.db rest)

  pub latest-IsWithin :
      (c : Context) (db : Db)
      → IsWithin c.msgs_out
      → IsWithin (write_inflight_out_latest t c db).0.msgs_out
  latest-IsWithin c db h =
      latest_cases (λ r. IsWithin r.0.msgs_out) t c db h
        (λ front back e. write_list-IsWithin c db back h)

  pub all-IsWithin :
      (c : Context) (db : Db)
      → IsWithin c.msgs_out
      → IsWithin (write_inflight_out_all t c db).0.msgs_out
  all-IsWithin c db h =
      all_cases (λ r. IsWithin r.0.msgs_out) t c db h
        (write_list-IsWithin c db c.msgs_out.inflight h)
