-- ===== src/Broker/Counts/Walk.antt =====
-- Writing messages out keeps the counters in step with the messages that stay on the list.
use adaptive_mqtt_transmit_p.Common.{◌+◌, ◌≡◌, List, [], ◌∷◌, arith, Option, none, some}
use adaptive_mqtt_transmit_p.Broker.Types.{
  ClientMsg, Context, Db, MsgState, publish_qos0, publish_qos1, publish_qos2, resend_pubrel,
}
use adaptive_mqtt_transmit_p.Broker.Util.{increment_send_quota, increment_quota}
use adaptive_mqtt_transmit_p.Broker.Queues.{uncount}
use adaptive_mqtt_transmit_p.Broker.Delivery.{
  Transport, stay, write_by_state, write_inflight_out_single, write_list,
}
use adaptive_mqtt_transmit_p.Broker.Counts.{Measure, counter, sum_of, Shift}
use adaptive_mqtt_transmit_p.Broker.Counts.Moves.{counter-uncount, counter-same}

-- From `c` to `c'` the counters change as `before` and `after` differ, and the lists stay.
pub record Balance (k : Measure) (c c' : Context) (before after : List ClientMsg) : Type 0 where
  pub shift :
      Shift (counter k c'.msgs_out) (sum_of k before) (counter k c.msgs_out) (sum_of k after)
  pub same_inflight : c'.msgs_out.inflight ≡ c.msgs_out.inflight
  pub same_queued : c'.msgs_out.queued ≡ c.msgs_out.queued
  pub same_storage : c'.msgs_out.storage ≡ c.msgs_out.storage

module _ (k : Measure) (t : Transport) where
  write_by_state-Balance :
      (s : MsgState) (c : Context) (db : Db) (m : ClientMsg)
      → let o = write_by_state t s c db m in Balance k c o.ctx (m ∷ []) (stay o.msg [])
  unfolding write_by_state uncount
  write_by_state-Balance publish_qos0 c db m = ground (arith, counter-uncount k m c.msgs_out)
  write_by_state-Balance publish_qos1 c db m = ground (arith, counter-uncount k m c.msgs_out)
  write_by_state-Balance publish_qos2 c db m = ground (arith, counter-uncount k m c.msgs_out)
  write_by_state-Balance resend_pubrel c db m = ground arith
  write_by_state-Balance _ c db m = ground arith

  single-Balance :
      (c : Context) (db : Db) (m : ClientMsg)
      → let o = write_inflight_out_single t c db m in Balance k c o.ctx (m ∷ []) (stay o.msg [])
  unfolding write_inflight_out_single increment_send_quota increment_quota uncount
  single-Balance c db m = ground (
    arith,
    counter-uncount k m c.msgs_out,
    counter-uncount k m (increment_send_quota c).msgs_out,
    counter-same k c.msgs_out (increment_send_quota c).msgs_out,
    write_by_state-Balance m.state c db m,
  )

  sum_of-stay :
      (o : Option ClientMsg) (ms : List ClientMsg)
      → sum_of k (stay o ms) ≡ sum_of k (stay o []) + sum_of k ms
  sum_of-stay none ms = omega arith
  sum_of-stay (some m) ms = omega arith

  pub write_list-Balance :
      (c : Context) (db : Db) (ms : List ClientMsg)
      → let w = write_list t c db ms in Balance k c w.ctx ms w.msgs
  unfolding write_list
  write_list-Balance c db [] = ground arith
  write_list-Balance c db (m ∷ rest) =
      let o = write_inflight_out_single t c db m in
      ground (
        arith,
        single-Balance c db m,
        write_list-Balance o.ctx o.db rest,
        sum_of-stay o.msg rest,
        sum_of-stay o.msg (write_list t o.ctx o.db rest).msgs,
      )
