-- ===== src/Broker/Quota/Calls.antt =====
-- The send quota stays within the inflight maximum in the calls of src/database.c.
use adaptive_mqtt_transmit_p.Common.{
  ℕ, Bool, ◌&&◌, List, [], ◌∷◌, ◌++◌, arith, if_rule, ltb, Option, none, some,
}
use adaptive_mqtt_transmit_p.Common.Bytes.{Bytes}
use adaptive_mqtt_transmit_p.Broker.Types.{
  ClientMsg, MsgData, MsgState, Context, Clock, Db, Rc, Stored, Bridge, Direction, md_in, md_out,
  queued_state, storage_state,
}
use adaptive_mqtt_transmit_p.Broker.Util.{decrement_send_quota}
use adaptive_mqtt_transmit_p.Broker.Flow.{with_msgs, ready_for_flight}
use adaptive_mqtt_transmit_p.Broker.Queues.{count_msg, uncount, to_publish}
use adaptive_mqtt_transmit_p.Broker.Delivery.{
  Transport, Result, write_queued_out, with_inflight, uncount_out,
}
use adaptive_mqtt_transmit_p.Broker.Delivery.Cases.{and_then_rule}
use adaptive_mqtt_transmit_p.Broker.Withhold.{tail}
use adaptive_mqtt_transmit_p.Broker.Insert.{
  is_out, append_msg, accept, new_msg, wake_bridge, write_all_lists, insert_taken, message_insert,
  count_change, dropped,
}
use adaptive_mqtt_transmit_p.Broker.Insert.Cases.{insert_cases, checked_mode_only}
use adaptive_mqtt_transmit_p.Broker.Ack.{release_and_write, message_delete_outgoing}
use adaptive_mqtt_transmit_p.Broker.Ack.Find.{delete_outgoing_cases}
use adaptive_mqtt_transmit_p.Broker.Session.{
  reset_counts, count_inflight, reset_inflight_out, requeue_loop, reconnect_reset_outgoing,
}
use adaptive_mqtt_transmit_p.Broker.Quota.{
  IsWithin, decrement-IsWithin, dequeue_first-IsWithin, release_loop-IsWithin,
  write_queued_out-IsWithin, write_storage_out-IsWithin, latest-IsWithin,
}

append_msg-IsWithin :
    (m : ClientMsg) (st : MsgState) (d : MsgData) → IsWithin d → IsWithin (append_msg m st d)
unfolding append_msg
append_msg-IsWithin m queued_state d h = h
append_msg-IsWithin m storage_state d h = h
append_msg-IsWithin m _ d h = h

wake_bridge-IsWithin :
    (b : Option Bridge) (c : Context) → IsWithin c.msgs_out → IsWithin (wake_bridge b c).msgs_out
unfolding wake_bridge
wake_bridge-IsWithin none c h = h
wake_bridge-IsWithin (some br) c h = if_rule (λ (c' : Context). IsWithin c'.msgs_out) _ h h

module _ (clk : Clock) (mid : ℕ) (qos : ℕ) (retain : Bool) (s : Stored) where
  accept-IsWithin :
      (i : Bytes) (c : Context) (db : Db) (dir : Direction) (st : MsgState)
      → IsWithin c.msgs_out
      → IsWithin (accept i c db clk mid dir qos retain s st).0.msgs_out
  unfolding accept count_msg decrement_send_quota
  accept-IsWithin i c db md_in st h = wake_bridge-IsWithin c.bridge _ h
  accept-IsWithin i c db md_out st h =
      let m = new_msg c db clk mid md_out qos retain s st in
      let d = count_msg qos s.payloadlen (append_msg m st c.msgs_out) in
      let woken =
        wake_bridge-IsWithin c.bridge (with_msgs c md_out d)
          (append_msg-IsWithin m st c.msgs_out h) in
      if_rule (λ (c' : Context). IsWithin c'.msgs_out) (ltb 0 m.qos) (decrement-IsWithin _ woken)
        woken

  insert_taken-IsWithin :
      (t : Transport) (i : Bytes) (c : Context) (db : Db) (dir : Direction) (update : Bool)
      (st : MsgState) (r : Rc)
      → IsWithin c.msgs_out
      → IsWithin (insert_taken t i c db clk mid dir qos retain s update st r).0.msgs_out
  unfolding insert_taken write_all_lists
  insert_taken-IsWithin t i c db dir update st r h =
      let a = accept-IsWithin i c (count_change st db) dir st h in
      if_rule (λ (x : Result). IsWithin x.0.msgs_out) (is_out dir && update)
        (and_then_rule (λ x. IsWithin x.0.msgs_out) _ _ (latest-IsWithin t _ _ a)
          λ c' db' w.
            write_storage_out-IsWithin db.config clk (write_queued_out c')
              (write_queued_out-IsWithin c' w))
        a

  pub message_insert-IsWithin :
      (t : Transport) (c : Context) (db : Db) (dir : Direction) (update : Bool)
      → IsWithin c.msgs_out
      → IsWithin (message_insert t c db clk mid dir qos retain s update).0.msgs_out
  message_insert-IsWithin t c db dir update h =
      insert_cases (λ x. IsWithin x.0.msgs_out) t c db clk mid dir qos retain s update (λ r. h)
        (λ r. checked_mode_only (λ c'. IsWithin c'.msgs_out) clk c λ m. h)
        (checked_mode_only (λ c'. IsWithin (dropped c' db).0.msgs_out) clk c λ m. h)
        λ i st r _ _ _.
          checked_mode_only
            (λ c'.
              IsWithin (insert_taken t i c' db clk mid dir qos retain s update st r).0.msgs_out)
            clk c λ m. insert_taken-IsWithin t i (record c { mode = m }) db dir update st r h

pub message_delete_outgoing-IsWithin :
    (t : Transport) (c : Context) (db : Db) (mid : ℕ) (expect : MsgState) (qos : ℕ)
    → IsWithin c.msgs_out
    → IsWithin (message_delete_outgoing t c db mid expect qos).0.msgs_out
unfolding release_and_write uncount
message_delete_outgoing-IsWithin t c db mid expect qos h =
    delete_outgoing_cases (λ x. IsWithin x.0.msgs_out) t c db mid expect qos
      (λ _. latest-IsWithin t _ _ (release_loop-IsWithin db.now_s _ c.msgs_out _ h)) h
      λ before m after _ _.
        latest-IsWithin t _ _ (
          release_loop-IsWithin _ _ (uncount_out m (with_inflight c (before ++ after))).msgs_out _
            h)

count_inflight-IsWithin : (d : MsgData) (m : ClientMsg) → IsWithin d → IsWithin (count_inflight d m)
unfolding count_inflight count_msg
count_inflight-IsWithin d m h =
    if_rule IsWithin (ltb 0 m.qos) (decrement-IsWithin (count_msg m.qos m.store.payloadlen d) h) h

reset_inflight-IsWithin :
    (ms : List ClientMsg) (d : MsgData) → IsWithin d → IsWithin (reset_inflight_out ms d).1
unfolding reset_inflight_out
reset_inflight-IsWithin [] d h = h
reset_inflight-IsWithin (m ∷ ms) d h = reset_inflight-IsWithin ms _ (count_inflight-IsWithin d m h)

requeue_loop-IsWithin :
    (db : Db) (c : Context) (passed todo : List ClientMsg)
    → IsWithin c.msgs_out
    → IsWithin (requeue_loop db md_out c passed todo).msgs_out
unfolding requeue_loop count_msg
requeue_loop-IsWithin db c passed [] h = h
requeue_loop-IsWithin db c passed (m ∷ rest) h =
    let counted = with_msgs c md_out (count_msg m.qos m.store.payloadlen c.msgs_out) in
    let published = passed ++ to_publish m ∷ [] in
    if_rule (λ (c' : Context). IsWithin c'.msgs_out)
      (ready_for_flight db.config counted md_out m.qos)
      (requeue_loop-IsWithin db _ (tail published) rest
        (dequeue_first-IsWithin (record counted.msgs_out { queued = published ++ rest }) h))
      (requeue_loop-IsWithin db counted (passed ++ m ∷ []) rest h)

-- A resumed session starts with the whole quota, whatever it was before.
pub reconnect_reset_outgoing-IsWithin :
    (c : Context) (db : Db) → IsWithin (reconnect_reset_outgoing c db).msgs_out
unfolding reconnect_reset_outgoing reset_counts
reconnect_reset_outgoing-IsWithin c db =
    requeue_loop-IsWithin db _ [] c.msgs_out.queued
      (reset_inflight-IsWithin c.msgs_out.inflight (reset_counts c.msgs_out) (omega arith))
