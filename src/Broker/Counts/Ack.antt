-- ===== src/Broker/Counts/Ack.antt =====
-- The acknowledgement of a message keeps the counters in step with the lists.
use adaptive_mqtt_transmit_p.Common.{ℕ, ◌≡◌, refl, ap, List, ◌∷◌, ◌++◌, arith}
use adaptive_mqtt_transmit_p.Broker.Types.{ClientMsg, MsgState, Context, Db}
use adaptive_mqtt_transmit_p.Broker.Queues.{uncount}
use adaptive_mqtt_transmit_p.Broker.Delivery.{Transport, uncount_out, with_inflight}
use adaptive_mqtt_transmit_p.Broker.Ack.{release_and_write, message_delete_outgoing}
use adaptive_mqtt_transmit_p.Broker.Ack.Find.{delete_outgoing_cases}
use adaptive_mqtt_transmit_p.Broker.Counts.{Measure, sum_of, Counted}
use adaptive_mqtt_transmit_p.Broker.Counts.Moves.{
  counter-same, sum_of-append, counter-uncount, release_loop-Keeps,
}
use adaptive_mqtt_transmit_p.Broker.Counts.Steady.{
  Steady, Steady-refl, Steady-trans, Keeps→Steady, Counted-Steady, write_inflight_out_latest-Steady,
}

module _ (k : Measure) (t : Transport) where
  release_and_write-Steady :
      (c : Context) (db : Db) (i : ℕ) → Steady k c.msgs_out (release_and_write t c db i).0.msgs_out
  unfolding release_and_write
  release_and_write-Steady c db i =
      Steady-trans k _ _ _
        (Keeps→Steady k _ _ (release_loop-Keeps k db.now_s i c.msgs_out c.msgs_out.queued))
        (write_inflight_out_latest-Steady k t _ _)

  -- A message leaves the list, and is taken off the counters.
  remove-Steady :
      (c : Context) (before : List ClientMsg) (m : ClientMsg) (after : List ClientMsg)
      → c.msgs_out.inflight ≡ before ++ m ∷ after
      → Steady k c.msgs_out (uncount_out m (with_inflight c (before ++ after))).msgs_out
  unfolding uncount
  remove-Steady c before m after e =
      let d = (with_inflight c (before ++ after)).msgs_out in
      ground (
        arith,
        ap (sum_of k) e,
        sum_of-append k before (m ∷ after),
        sum_of-append k before after,
        counter-uncount k m d,
        counter-same k c.msgs_out d refl refl refl refl,
      )

  delete_outgoing-Steady :
      (c : Context) (db : Db) (mid : ℕ) (expect : MsgState) (qos : ℕ)
      → Steady k c.msgs_out (message_delete_outgoing t c db mid expect qos).0.msgs_out
  delete_outgoing-Steady c db mid expect qos =
      delete_outgoing_cases (λ r. Steady k c.msgs_out r.0.msgs_out) t c db mid expect qos
        (λ _. release_and_write-Steady c db _) (Steady-refl k _)
        λ before m after _ e.
          Steady-trans k _ _ _ (remove-Steady c before m after e)
            (release_and_write-Steady (uncount_out m (with_inflight c (before ++ after))) _ _)

-- An acknowledgement keeps the counters of the outgoing messages right, whether it fits a message,
-- fits none or is refused.
pub message_delete_outgoing-Counted :
    (t : Transport) (c : Context) (db : Db) (mid : ℕ) (expect : MsgState) (qos : ℕ)
    → Counted c.msgs_out
    → Counted (message_delete_outgoing t c db mid expect qos).0.msgs_out
message_delete_outgoing-Counted t c db mid expect qos v =
    Counted-Steady _ _ v (λ k. delete_outgoing-Steady k t c db mid expect qos)
