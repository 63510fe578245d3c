-- ===== src/Broker/Counts/Insert.antt =====
-- `db__message_insert` keeps the counters in step with the lists.
use adaptive_mqtt_transmit_p.Common.{
  ℕ, ◌+◌, ◌<◌, ◌≡◌, refl, ap, Option, Bool, true, false, ◌&&◌, ◌⊎◌, [], ◌∷◌, ◌++◌, arith, ltb,
  if◌then◌else◌,
}
use adaptive_mqtt_transmit_p.Common.Bytes.{Bytes}
use adaptive_mqtt_transmit_p.Common.Int.{pos_part, neg_part}
use adaptive_mqtt_transmit_p.Broker.Types.{
  ClientMsg, MsgData, MsgState, queued_state, storage_state, Bridge, TransferMode, Context, Config,
  Clock, Db, Rc, Stored, Direction, md_in, md_out,
}
use adaptive_mqtt_transmit_p.Broker.Util.{decrement_send_quota, decrement_quota}
use adaptive_mqtt_transmit_p.Broker.Flow.{msgs_of, with_msgs}
use adaptive_mqtt_transmit_p.Broker.Queues.{count_msg}
use adaptive_mqtt_transmit_p.Broker.Delivery.{Transport, write_queued_out}
use adaptive_mqtt_transmit_p.Broker.Delivery.Cases.{and_then_rule}
use adaptive_mqtt_transmit_p.Broker.Insert.Cases.{insert_cases, checked_mode_only}
use adaptive_mqtt_transmit_p.Broker.Insert.{
  is_out, append_msg, accept, new_msg, count_change, dropped, wake_bridge, write_all_lists,
  insert_taken, message_insert,
}
use adaptive_mqtt_transmit_p.Broker.Counts.{
  Measure, messages, bytes, messages12, bytes12, amount, counter, total, Shift, Counted,
}
use adaptive_mqtt_transmit_p.Broker.Counts.Moves.{
  counter-same, sum_of-append, counter-count_msg, weight,
}
use adaptive_mqtt_transmit_p.Broker.Counts.Steady.{
  Steady, Steady-refl, Steady-trans, Counted-Steady, write_inflight_out_latest-Steady,
  write_queued_out-Steady, write_storage_out-Steady,
}

-- The message goes to one list, and the counters of the data are those before.
append_msg-adds :
    (k : Measure) (m : ClientMsg) (s : MsgState) (d : MsgData)
    → Shift
        (counter k (append_msg m s d))
        (total k d + weight k m)
        (counter k d)
        (total k (append_msg m s d))
unfolding append_msg
append_msg-adds k m queued_state d = ground (
  arith,
  sum_of-append k d.queued (m ∷ []),
  counter-same k d (append_msg m queued_state d) refl refl refl refl,
)
append_msg-adds k m storage_state d = ground (
  arith,
  sum_of-append k d.storage (m ∷ []),
  counter-same k d (append_msg m storage_state d) refl refl refl refl,
)
append_msg-adds k m _ d = ground (
  arith,
  sum_of-append k d.inflight (m ∷ []),
  counter-same k d (record d { inflight = d.inflight ++ m ∷ [] }) refl refl refl refl,
)

total-count_msg :
    (k : Measure) (qos size : ℕ) (d : MsgData) → total k (count_msg qos size d) ≡ total k d
unfolding count_msg
total-count_msg k qos size d = refl

-- One way of putting a message on a list and counting it.
counted-Steady :
    (k : Measure) (m : ClientMsg) (s : MsgState) (qos : ℕ) (d : MsgData)
    → amount k qos m.store.payloadlen ≡ weight k m
    → Steady k d (count_msg qos m.store.payloadlen (append_msg m s d))
counted-Steady k m s qos d e =
    let d' = append_msg m s d in
    omega (
      arith,
      e,
      append_msg-adds k m s d,
      counter-count_msg k qos m.store.payloadlen d',
      total-count_msg k qos m.store.payloadlen d',
    )

-- The QoS that a message gets counts as the one that it comes with.
amount-max_qos :
    (k : Measure) (qos max_qos size : ℕ)
    → (qos ≡ 0) ⊎ (0 < max_qos)
    → amount k qos size ≡ amount k (if ltb max_qos qos then max_qos else qos) size
amount-max_qos messages qos max_qos size h = refl
amount-max_qos bytes qos max_qos size h = refl
amount-max_qos messages12 qos max_qos size h = ground arith
amount-max_qos bytes12 qos max_qos size h = ground arith

pub msgs-wake_bridge :
    (b : Option Bridge) (c : Context) (dir : Direction)
    → msgs_of (wake_bridge b c) dir ≡ msgs_of c dir
unfolding wake_bridge
msgs-wake_bridge b c md_in = ground arith
msgs-wake_bridge b c md_out = ground arith

msgs-with_msgs : (c : Context) (dir : Direction) (d : MsgData) → msgs_of (with_msgs c dir d) dir ≡ d
msgs-with_msgs c md_in d = refl
msgs-with_msgs c md_out d = refl

decrement-Steady :
    (k : Measure) (b : Bool) (c : Context) (d : MsgData) (dir : Direction)
    → Steady k d (msgs_of c dir)
    → Steady k d (msgs_of (if b then decrement_send_quota c else c) dir)
unfolding decrement_send_quota decrement_quota
decrement-Steady k false c d dir h = h
decrement-Steady k true c d md_in h = h
decrement-Steady k true c d md_out h = omega (
  arith,
  h,
  ap pos_part (counter-same k c.msgs_out (decrement_send_quota c).msgs_out refl refl refl refl),
  ap neg_part (counter-same k c.msgs_out (decrement_send_quota c).msgs_out refl refl refl refl),
)

mode-Steady :
    (k : Measure) (c : Context) (m : TransferMode) (dir : Direction)
    → Steady k (msgs_of c dir) (msgs_of (record c { mode = m }) dir)
mode-Steady k c m md_in = Steady-refl k _
mode-Steady k c m md_out = Steady-refl k _

dropped-Steady :
    (k : Measure) (c : Context) (m : TransferMode) (db : Db) (dir : Direction)
    → Steady k (msgs_of c dir) (msgs_of (dropped (record c { mode = m }) db).0 dir)
dropped-Steady k c m db md_in = Steady-refl k _
dropped-Steady k c m db md_out = Steady-refl k _

module _ (k : Measure) (clk : Clock) (mid : ℕ) (qos : ℕ) (retain : Bool) (s : Stored) where
  accept-Steady :
      (i : Bytes) (c : Context) (db : Db) (dir : Direction) (state : MsgState)
      → (qos ≡ 0) ⊎ (0 < c.max_qos)
      → Steady k (msgs_of c dir) (msgs_of (accept i c db clk mid dir qos retain s state).0 dir)
  unfolding accept
  accept-Steady i c db dir state h =
      let m = new_msg c db clk mid dir qos retain s state in
      let d = count_msg qos s.payloadlen (append_msg m state (msgs_of c dir)) in
      decrement-Steady k (is_out dir && ltb 0 m.qos) (wake_bridge c.bridge (with_msgs c dir d))
        (msgs_of c dir) dir
        (rw (msgs-wake_bridge c.bridge (with_msgs c dir d) dir, msgs-with_msgs c dir d)
          (counted-Steady k m state qos (msgs_of c dir)
            (amount-max_qos k qos c.max_qos s.payloadlen h)))

  write_all_lists-Steady :
      (t : Transport) (cfg : Config) (c : Context) (db : Db)
      → Steady k c.msgs_out (write_all_lists t cfg clk c db).0.msgs_out
  unfolding write_all_lists
  write_all_lists-Steady t cfg c db =
      and_then_rule (λ r. Steady k c.msgs_out r.0.msgs_out) _ _
        (write_inflight_out_latest-Steady k t c db)
        λ c' db' h. Steady-trans k _ c'.msgs_out _ h (
          Steady-trans k _ (write_queued_out c').msgs_out _ (write_queued_out-Steady k c')
            (write_storage_out-Steady k cfg clk (write_queued_out c')))

  insert_taken-Steady :
      (t : Transport) (i : Bytes) (c : Context) (db : Db) (dir : Direction) (update : Bool)
      (state : MsgState) (r : Rc)
      → (qos ≡ 0) ⊎ (0 < c.max_qos)
      → Steady k
          (msgs_of c dir)
          (msgs_of (insert_taken t i c db clk mid dir qos retain s update state r).0 dir)
  unfolding insert_taken
  insert_taken-Steady t i c db md_in update state r h = accept-Steady i c _ md_in state h
  insert_taken-Steady t i c db md_out false state r h = accept-Steady i c _ md_out state h
  insert_taken-Steady t i c db md_out true state r h =
      Steady-trans k _ _ _ (accept-Steady i c (count_change state db) md_out state h)
        (write_all_lists-Steady t db.config _ _)

  message_insert-Steady :
      (t : Transport) (c : Context) (db : Db) (dir : Direction) (update : Bool)
      → (qos ≡ 0) ⊎ (0 < c.max_qos)
      → Steady k
          (msgs_of c dir)
          (msgs_of (message_insert t c db clk mid dir qos retain s update).0 dir)
  message_insert-Steady t c db dir update h =
      insert_cases (λ r. Steady k (msgs_of c dir) (msgs_of r.0 dir)) t c db clk mid dir qos retain s
        update (λ r. Steady-refl k _)
        (λ r.
          checked_mode_only (λ c'. Steady k (msgs_of c dir) (msgs_of c' dir)) clk c
            λ m. mode-Steady k c m dir)
        (checked_mode_only (λ c'. Steady k (msgs_of c dir) (msgs_of (dropped c' db).0 dir)) clk c
          λ m. dropped-Steady k c m db dir)
        λ i state r _ _ _.
          checked_mode_only
            (λ c'.
              Steady k (msgs_of c dir)
                (msgs_of (insert_taken t i c' db clk mid dir qos retain s update state r).0 dir))
            clk c
            λ m.
              Steady-trans k _ (msgs_of (record c { mode = m }) dir) _ (mode-Steady k c m dir)
                (insert_taken-Steady t i (record c { mode = m }) db dir update state r h)

-- `db__message_insert` keeps the counters of the client right in both directions, whatever becomes
-- of the message: for a message of QoS 0, or a client whose maximum QoS is above 0.
pub message_insert-Counted :
    (t : Transport) (c : Context) (db : Db) (clk : Clock) (mid : ℕ) (dir : Direction) (qos : ℕ)
    (retain : Bool) (s : Stored) (update : Bool)
    → (qos ≡ 0) ⊎ (0 < c.max_qos)
    → Counted (msgs_of c dir)
    → Counted (msgs_of (message_insert t c db clk mid dir qos retain s update).0 dir)
message_insert-Counted t c db clk mid dir qos retain s update h v =
    Counted-Steady _ _ v (λ k. message_insert-Steady k clk mid qos retain s t c db dir update h)
