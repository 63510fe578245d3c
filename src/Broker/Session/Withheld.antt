-- ===== src/Broker/Session/Withheld.antt =====
-- The end and the resumption of a session do not take `storage` into account.
use adaptive_mqtt_transmit_p.Common.{
  ℕ, ◌+◌, ◌≡◌, refl, ◌∙◌, ap, sym, ◌↔◌, true, List, [], ◌∷◌, ◌++◌, arith, if_rule,
}
use adaptive_mqtt_transmit_p.Common.Int.{pos, pos_part, neg_part, eq_of_parts}
use adaptive_mqtt_transmit_p.Broker.Types.{ClientMsg, MsgData, Context, Db, md_out}
use adaptive_mqtt_transmit_p.Broker.Util.{decrement_quota}
use adaptive_mqtt_transmit_p.Broker.Flow.{with_msgs, ready_for_flight}
use adaptive_mqtt_transmit_p.Broker.Queues.{to_publish, dequeue_first, count_msg}
use adaptive_mqtt_transmit_p.Broker.Withhold.{tail}
use adaptive_mqtt_transmit_p.Broker.Counts.{Measure, messages, counter, sum_of, Shift, Counted}
use adaptive_mqtt_transmit_p.Broker.Counts.Moves.{
  counter-count_msg, counter-same, sum_of-append, weight, append-cons, tail-append,
}
use adaptive_mqtt_transmit_p.Broker.Session.{
  delete_direction, delete_if, messages_delete, reset_counts, retry_state, count_inflight,
  reset_inflight_out, requeue_loop, reconnect_reset_outgoing,
}

nil_of_sum : (ms : List ClientMsg) → sum_of messages ms ≡ 0 → ms ≡ []
nil_of_sum [] h = refl
nil_of_sum (m ∷ ms) h = absurd (omega arith)

-- With counters for the inflight list and the queue alone, they are right for an empty storage only.
Counted-iff_no_storage :
    (d : MsgData)
    → ((k : Measure) → counter k d ≡ pos (sum_of k d.inflight + sum_of k d.queued))
    → Counted d ↔ (d.storage ≡ [])
Counted-iff_no_storage d h = (
  (λ v. nil_of_sum d.storage (omega (arith, ap pos_part (sym (h messages) ∙ v messages)))),
  λ e k. h k ∙ ap pos (omega (arith, ap (sum_of k) e)),
)

counter-delete_direction :
    (k : Measure) (d : MsgData) (db : Db)
    → let d' = (delete_direction d db).0 in
      counter k d' ≡ pos (sum_of k d'.inflight + sum_of k d'.queued)
unfolding delete_direction
counter-delete_direction Measure.messages d db = refl
counter-delete_direction Measure.bytes d db = refl
counter-delete_direction Measure.messages12 d db = refl
counter-delete_direction Measure.bytes12 d db = refl

-- A forced `db__messages_delete` empties the inflight list and the queue of the outgoing messages,
-- leaves every withheld message in storage, and so leaves the counters right only if there is none.
pub messages_delete_leaves_storage :
    (c : Context) (db : Db)
    → let d = (messages_delete c db true).0.msgs_out in
      (d.inflight ≡ [])
      × (d.queued ≡ [])
      × (d.storage ≡ c.msgs_out.storage)
      × (Counted d ↔ (c.msgs_out.storage ≡ []))
unfolding messages_delete delete_if
messages_delete_leaves_storage c db =
    (refl, refl, refl, Counted-iff_no_storage _ (λ k. counter-delete_direction k c.msgs_out db))

retry_state-weight : (k : Measure) (m : ClientMsg) → weight k (retry_state m) ≡ weight k m
retry_state-weight k m = ground arith

counter-reset_counts : (k : Measure) (d : MsgData) → counter k (reset_counts d) ≡ pos 0
unfolding reset_counts
counter-reset_counts Measure.messages d = refl
counter-reset_counts Measure.bytes d = refl
counter-reset_counts Measure.messages12 d = refl
counter-reset_counts Measure.bytes12 d = refl

-- What a counting loop adds to a counter, and that it leaves the lists of the data alone.
record Adds (k : Measure) (d e : MsgData) (n : ℕ) : Type 0 where
  added : Shift (counter k e) 0 (counter k d) n
  same_queued : e.queued ≡ d.queued
  same_storage : e.storage ≡ d.storage

decrement_counter : (k : Measure) (d : MsgData) → counter k (decrement_quota d) ≡ counter k d
unfolding decrement_quota
decrement_counter k d = counter-same k _ _ refl refl refl refl

count_inflight-Adds :
    (k : Measure) (d : MsgData) (m : ClientMsg) → Adds k d (count_inflight d m) (weight k m)
unfolding count_inflight decrement_quota count_msg
count_inflight-Adds k d m =
    let d' = count_msg m.qos m.store.payloadlen d in
    ground (arith, counter-count_msg k m.qos m.store.payloadlen d, decrement_counter k d')

reset_inflight_out-Adds :
    (k : Measure) (ms : List ClientMsg) (d : MsgData)
    → let (ms', d') = reset_inflight_out ms d in
      Adds k d d' (sum_of k ms) × (sum_of k ms' ≡ sum_of k ms)
unfolding reset_inflight_out
reset_inflight_out-Adds k [] d = (ground arith, refl)
reset_inflight_out-Adds k (m ∷ ms) d = ground (
  arith,
  count_inflight-Adds k d m,
  retry_state-weight k m,
  reset_inflight_out-Adds k ms (count_inflight d m),
)

-- What a stretch of the second loop does.
record Requeues (k : Measure) (d e : MsgData) (n : ℕ) : Type 0 where
  added : Shift (counter k e) 0 (counter k d) n
  same_storage : e.storage ≡ d.storage
  same_sum : sum_of k e.inflight + sum_of k e.queued ≡ sum_of k d.inflight + sum_of k d.queued

dequeue_first-Requeues :
    (k : Measure) (d : MsgData) (xs : List ClientMsg)
    → sum_of k xs ≡ sum_of k d.queued
    → Requeues k d (dequeue_first (record d { queued = xs })) 0
unfolding dequeue_first
dequeue_first-Requeues k d [] h =
    ground (arith, counter-same k d (record d { queued = [] }) refl refl refl refl)
dequeue_first-Requeues k d (x ∷ xs) h = record {
  added = omega (
    arith,
    ap pos_part
        (counter-same k d (dequeue_first (record d { queued = x ∷ xs })) refl refl refl refl),
    ap neg_part
        (counter-same k d (dequeue_first (record d { queued = x ∷ xs })) refl refl refl refl),
  );
  same_storage = refl;
  same_sum = omega (arith, h, sum_of-append k d.inflight (x ∷ []));
}

count_msg-Requeues :
    (k : Measure) (d : MsgData) (m : ClientMsg)
    → Requeues k d (count_msg m.qos m.store.payloadlen d) (weight k m)
unfolding count_msg
count_msg-Requeues k d m = record {
  added = counter-count_msg k m.qos m.store.payloadlen d;
  same_storage = refl;
  same_sum = refl;
}

Requeues-trans :
    (k : Measure) (d e f : MsgData) (n p q : ℕ)
    → n + p ≡ q
    → Requeues k d e n
    → Requeues k e f p
    → Requeues k d f q
Requeues-trans k d e f n p q h r s = record {
  added = omega (arith, h, r.added, s.added);
  same_storage = s.same_storage ∙ r.same_storage;
  same_sum = s.same_sum ∙ r.same_sum;
}

queued-count_msg : (q n : ℕ) (d : MsgData) → (count_msg q n d).queued ≡ d.queued
unfolding count_msg
queued-count_msg q n d = refl

queued-dequeue_first :
    (d : MsgData) (xs : List ClientMsg)
    → (dequeue_first (record d { queued = xs })).queued ≡ tail xs
unfolding dequeue_first
queued-dequeue_first d [] = refl
queued-dequeue_first d (x ∷ xs) = refl

module _ (k : Measure) (db : Db) where
  requeue_loop-Requeues :
      (c : Context) (passed todo : List ClientMsg)
      → c.msgs_out.queued ≡ passed ++ todo
      → Requeues k c.msgs_out (requeue_loop db md_out c passed todo).msgs_out (sum_of k todo)
  unfolding requeue_loop
  requeue_loop-Requeues c passed [] e = record {
    added = omega arith;
    same_storage = refl;
    same_sum = refl;
  }
  requeue_loop-Requeues c passed (m ∷ rest) e =
      let d = count_msg m.qos m.store.payloadlen c.msgs_out in
      let counted = with_msgs c md_out d in
      let published = passed ++ to_publish m ∷ [] in
      let d' = dequeue_first (record d { queued = published ++ rest }) in
      let e' = queued-count_msg m.qos m.store.payloadlen c.msgs_out ∙ e in
      if_rule (λ (c' : Context). Requeues k c.msgs_out c'.msgs_out (sum_of k (m ∷ rest)))
        (ready_for_flight db.config counted md_out m.qos)
        (Requeues-trans k _ d _ _ _ _ refl (count_msg-Requeues k c.msgs_out m) (
          Requeues-trans k _ d' _ 0 _ _ (omega arith)
            (dequeue_first-Requeues k d (published ++ rest) (
              omega (
                arith,
                ap (sum_of k) e',
                sum_of-append k passed (m ∷ rest),
                sum_of-append k published rest,
                sum_of-append k passed (to_publish m ∷ []),
              )))
            (requeue_loop-Requeues (with_msgs counted md_out d') (tail published) rest (
              queued-dequeue_first d (published ++ rest)
              ∙ ap tail (sym (append-cons passed (to_publish m) rest))
              ∙ tail-append passed (to_publish m) rest))))
        (Requeues-trans k _ d _ _ _ _ refl (count_msg-Requeues k c.msgs_out m)
          (requeue_loop-Requeues counted (passed ++ m ∷ []) rest (e' ∙ append-cons passed m rest)))

reset_outgoing_lem :
    (k : Measure) (c : Context) (db : Db)
    → let d = (reconnect_reset_outgoing c db).msgs_out in
      (d.storage ≡ c.msgs_out.storage)
      × (counter k d ≡ pos (sum_of k d.inflight + sum_of k d.queued))
unfolding reconnect_reset_outgoing reset_counts
reset_outgoing_lem k c db =
    let start = reset_counts c.msgs_out in
    let r = reset_inflight_out c.msgs_out.inflight start in
    let (a, same) = reset_inflight_out-Adds k c.msgs_out.inflight start in
    let d : MsgData = record r.1 { inflight = r.0 } in
    let c' = record c { msgs_out = d } in
    let q = requeue_loop-Requeues k db c' [] c.msgs_out.queued a.same_queued in
    let same_counter = counter-same k r.1 d refl refl refl refl in
    let zero_counter = counter-reset_counts k c.msgs_out in
    (
      q.same_storage ∙ a.same_storage,
      eq_of_parts _ _ (
          omega (
            arith,
            q.added,
            q.same_sum,
            a.added,
            same,
            ap (sum_of k) a.same_queued,
            ap pos_part same_counter,
            ap neg_part same_counter,
            ap pos_part zero_counter,
            ap neg_part zero_counter,
          )),
    )

-- After the outgoing part of a resumed session the counters stand for the inflight list and the
-- queue alone; the withheld messages stay in storage, and so the counters are right only if there
-- are none.
pub reconnect_reset_outgoing_leaves_storage :
    (c : Context) (db : Db)
    → let d = (reconnect_reset_outgoing c db).msgs_out in
      (d.storage ≡ c.msgs_out.storage)
      × ((k : Measure) → counter k d ≡ pos (sum_of k d.inflight + sum_of k d.queued))
      × (Counted d ↔ (c.msgs_out.storage ≡ []))
reconnect_reset_outgoing_leaves_storage c db =
    let d = (reconnect_reset_outgoing c db).msgs_out in
    let s = (reset_outgoing_lem Measure.messages c db).0 in
    let (f, g) = Counted-iff_no_storage d (λ k. (reset_outgoing_lem k c db).1) in
    (s, λ k. (reset_outgoing_lem k c db).1, (λ v. sym s ∙ f v, λ e. g (s ∙ e)))
