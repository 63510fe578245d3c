-- ===== src/Broker/Insert/Keeps.antt =====
-- An outgoing message leaves the identifier of the client and its incoming messages as they are.
use adaptive_mqtt_transmit_p.Common.{
  ℕ, ◌≡◌, Bool, not, List, [], ◌∷◌, arith, if_rule, ltb, Option, none, some,
}
use adaptive_mqtt_transmit_p.Common.Bytes.{Bytes}
use adaptive_mqtt_transmit_p.Broker.Types.{
  ClientMsg, MsgData, MsgState, Context, Config, Clock, Db, Rc, Stored, Bridge, md_out,
  publish_qos0, publish_qos1, publish_qos2, resend_pubrel,
}
use adaptive_mqtt_transmit_p.Broker.Util.{decrement_send_quota, increment_send_quota, is_active}
use adaptive_mqtt_transmit_p.Broker.Flow.{with_msgs}
use adaptive_mqtt_transmit_p.Broker.Queues.{count_msg}
use adaptive_mqtt_transmit_p.Broker.Delivery.{
  Transport, Result, write_queued_out, write_by_state, write_inflight_out_single, write_list,
  write_inflight_out_latest,
}
use adaptive_mqtt_transmit_p.Broker.Delivery.Cases.{latest_cases, and_then_rule}
use adaptive_mqtt_transmit_p.Broker.Withhold.{write_storage_out}
use adaptive_mqtt_transmit_p.Broker.Insert.{
  append_msg, accept, new_msg, wake_bridge, write_all_lists, insert_taken, message_insert,
  count_change, dropped,
}
use adaptive_mqtt_transmit_p.Broker.Insert.Cases.{insert_cases, checked_mode_only}

module _ (name : Option Bytes) (d : MsgData) where
  abbrev pub IsSame : Context → Type 0
  IsSame c = (c.id ≡ name) × (c.msgs_in ≡ d)

  write_by_state-IsSame :
      (t : Transport) (s : MsgState) (c : Context) (db : Db) (m : ClientMsg)
      → IsSame c
      → IsSame (write_by_state t s c db m).ctx
  unfolding write_by_state
  write_by_state-IsSame t publish_qos0 c db m h = ground arith
  write_by_state-IsSame t publish_qos1 c db m h = ground arith
  write_by_state-IsSame t publish_qos2 c db m h = ground arith
  write_by_state-IsSame t resend_pubrel c db m h = ground arith
  write_by_state-IsSame t _ c db m h = h

  single-IsSame :
      (t : Transport) (c : Context) (db : Db) (m : ClientMsg)
      → IsSame c
      → IsSame (write_inflight_out_single t c db m).ctx
  unfolding write_inflight_out_single increment_send_quota
  single-IsSame t c db m h = ground (arith, write_by_state-IsSame t m.state c db m)

  write_list-IsSame :
      (t : Transport) (c : Context) (db : Db) (ms : List ClientMsg)
      → IsSame c
      → IsSame (write_list t c db ms).ctx
  unfolding write_list
  write_list-IsSame t c db [] h = h
  write_list-IsSame t c db (m ∷ rest) h =
      let o = write_inflight_out_single t c db m in
      ground (arith, single-IsSame t c db m h, write_list-IsSame t o.ctx o.db rest)

  latest-IsSame :
      (t : Transport) (c : Context) (db : Db)
      → IsSame c
      → IsSame (write_inflight_out_latest t c db).0
  latest-IsSame t c db h =
      latest_cases (λ r. IsSame r.0) t c db h (λ front back e. write_list-IsSame t c db back h)

  lists-IsSame :
      (cfg : Config) (clk : Clock) (c : Context)
      → IsSame c
      → IsSame (write_storage_out cfg clk (write_queued_out c))
  unfolding write_storage_out write_queued_out
  lists-IsSame cfg clk c h =
      let moved = if_rule IsSame (not (is_active c.state)) h h in
      if_rule IsSame (not (is_active (write_queued_out c).state)) moved moved

  wake_bridge-IsSame : (b : Option Bridge) (c : Context) → IsSame c → IsSame (wake_bridge b c)
  unfolding wake_bridge
  wake_bridge-IsSame none c h = h
  wake_bridge-IsSame (some br) c h = if_rule IsSame _ h h

  module _ (clk : Clock) (mid : ℕ) (qos : ℕ) (retain : Bool) (s : Stored) where
    accept-IsSame :
        (i : Bytes) (c : Context) (db : Db) (st : MsgState)
        → IsSame c
        → IsSame (accept i c db clk mid md_out qos retain s st).0
    unfolding accept decrement_send_quota
    accept-IsSame i c db st h =
        let m = new_msg c db clk mid md_out qos retain s st in
        let d' = count_msg qos s.payloadlen (append_msg m st c.msgs_out) in
        let woken = wake_bridge-IsSame c.bridge (with_msgs c md_out d') h in
        if_rule IsSame (ltb 0 m.qos) woken woken

    insert_taken-IsSame :
        (t : Transport) (i : Bytes) (c : Context) (db : Db) (update : Bool) (st : MsgState) (r : Rc)
        → IsSame c
        → IsSame (insert_taken t i c db clk mid md_out qos retain s update st r).0
    unfolding insert_taken write_all_lists
    insert_taken-IsSame t i c db update st r h =
        let a = accept-IsSame i c (count_change st db) st h in
        if_rule (λ (x : Result). IsSame x.0) update
          (and_then_rule (λ x. IsSame x.0) _ _ (latest-IsSame t _ _ a)
            λ c' db' w. lists-IsSame db.config clk c' w)
          a

    pub message_insert-IsSame :
        (t : Transport) (c : Context) (db : Db) (update : Bool)
        → IsSame c
        → IsSame (message_insert t c db clk mid md_out qos retain s update).0
    message_insert-IsSame t c db update h =
        insert_cases (λ x. IsSame x.0) t c db clk mid md_out qos retain s update (λ r. h)
          (λ r. checked_mode_only IsSame clk c λ m. h)
          (checked_mode_only (λ c'. IsSame (dropped c' db).0) clk c λ m. h)
          λ i st r _ _ _.
            checked_mode_only
              (λ c'. IsSame (insert_taken t i c' db clk mid md_out qos retain s update st r).0) clk
              c λ m. insert_taken-IsSame t i (record c { mode = m }) db update st r h
