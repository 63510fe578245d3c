-- ===== src/Broker/Counts/Steady.antt =====
-- Every operation on a connected client changes the counters as it changes the lists.
use adaptive_mqtt_transmit_p.Common.{
  ◌≡◌, refl, ap, not, inl, inr, List, [], ◌++◌, arith, Bool-cases,
}
use adaptive_mqtt_transmit_p.Common.Int.{pos_part, neg_part, eq_of_parts}
use adaptive_mqtt_transmit_p.Broker.Types.{ClientMsg, MsgData, Context, Config, Clock, Db}
use adaptive_mqtt_transmit_p.Broker.Delivery.{
  Transport, write_list, with_inflight, write_inflight_out_all, write_inflight_out_latest,
  write_queued_out,
}
use adaptive_mqtt_transmit_p.Broker.Delivery.Cases.{latest_cases, all_cases}
use adaptive_mqtt_transmit_p.Broker.Util.{is_active}
use adaptive_mqtt_transmit_p.Broker.Withhold.{write_storage_out}
use adaptive_mqtt_transmit_p.Broker.Counts.{Measure, counter, sum_of, total, Shift, Counted}
use adaptive_mqtt_transmit_p.Broker.Counts.Moves.{
  Keeps, queued_loop-Keeps, storage_loop-Keeps, counter-same, sum_of-append,
}
use adaptive_mqtt_transmit_p.Broker.Counts.Walk.{write_list-Balance}

-- The difference between a counter and what the lists hold is the same.
abbrev pub Steady : Measure → MsgData → MsgData → Type 0
Steady k d e = Shift (counter k e) (total k d) (counter k d) (total k e)

pub Steady-refl : (k : Measure) (d : MsgData) → Steady k d d
Steady-refl k d = omega arith

pub Steady-trans : (k : Measure) (d e f : MsgData) → Steady k d e → Steady k e f → Steady k d f
Steady-trans k d e f p q = omega arith

pub Keeps→Steady : (k : Measure) (d e : MsgData) → Keeps k d e → Steady k d e
Keeps→Steady k d e p =
    omega (arith, p.same_total, ap pos_part p.same_counter, ap neg_part p.same_counter)

pub Counted-Steady : (d e : MsgData) → Counted d → ((k : Measure) → Steady k d e) → Counted e
Counted-Steady d e h s =
    λ k. eq_of_parts _ _ (omega (arith, s k, ap pos_part (h k), ap neg_part (h k)))

module _ (k : Measure) (t : Transport) where
  -- A walk over the end of the inflight list.
  walk-Steady :
      (c : Context) (db : Db) (front back : List ClientMsg)
      → front ++ back ≡ c.msgs_out.inflight
      → let w = write_list t c db back in
        Steady k c.msgs_out (with_inflight w.ctx (front ++ w.msgs)).msgs_out
  walk-Steady c db front back e =
      let w = write_list t c db back in
      let b = write_list-Balance k t c db back in
      omega (
        arith,
        b.shift,
        ap (sum_of k) e,
        ap (sum_of k) b.same_queued,
        ap (sum_of k) b.same_storage,
        sum_of-append k front back,
        sum_of-append k front w.msgs,
        ap pos_part (
            counter-same k w.ctx.msgs_out (with_inflight w.ctx (front ++ w.msgs)).msgs_out refl refl
              refl refl),
        ap neg_part (
            counter-same k w.ctx.msgs_out (with_inflight w.ctx (front ++ w.msgs)).msgs_out refl refl
              refl refl),
      )

  pub write_inflight_out_latest-Steady :
      (c : Context) (db : Db) → Steady k c.msgs_out (write_inflight_out_latest t c db).0.msgs_out
  write_inflight_out_latest-Steady c db =
      latest_cases (λ r. Steady k c.msgs_out r.0.msgs_out) t c db (Steady-refl k _)
        (walk-Steady c db)

  pub write_inflight_out_all-Steady :
      (c : Context) (db : Db) → Steady k c.msgs_out (write_inflight_out_all t c db).0.msgs_out
  write_inflight_out_all-Steady c db =
      all_cases (λ r. Steady k c.msgs_out r.0.msgs_out) t c db (Steady-refl k _)
        (walk-Steady c db [] _ refl)

pub write_queued_out-Steady :
    (k : Measure) (c : Context) → Steady k c.msgs_out (write_queued_out c).msgs_out
unfolding write_queued_out
write_queued_out-Steady k c = elim (Bool-cases (not (is_active c.state))) [
  | inl e ↦ rw e (Steady-refl k _)
  | inr e ↦ rw e (Keeps→Steady k _ _ (queued_loop-Keeps k c.msgs_out c.msgs_out.queued))
]

pub write_storage_out-Steady :
    (k : Measure) (cfg : Config) (clk : Clock) (c : Context)
    → Steady k c.msgs_out (write_storage_out cfg clk c).msgs_out
unfolding write_storage_out
write_storage_out-Steady k cfg clk c = elim (Bool-cases (not (is_active c.state))) [
  | inl e ↦ rw e (Steady-refl k _)
  | inr e ↦ rw e (Keeps→Steady k _ _ (storage_loop-Keeps k cfg clk c.mode c.msgs_out [] _ refl))
]
