-- ===== src/System/Quota.antt =====
-- The send quota over the whole life of a client.
use mathlib.Core.Path.{subst}
use adaptive_mqtt_transmit_p.Common.Int.{ℤ, pos, ltb_ℤ}
use adaptive_mqtt_transmit_p.Common.{ℕ, ◌≡◌, List, [], ◌∷◌, if_rule, refl, sym, arith}
use adaptive_mqtt_transmit_p.Broker.Types.{
  Context, Db, MsgData, Config, Clock, ClientMsg, wait_for_pubcomp, wait_for_pubrec, md_in,
}
use adaptive_mqtt_transmit_p.Broker.Util.{increment_send_quota}
use adaptive_mqtt_transmit_p.Broker.Delivery.{Transport}
use adaptive_mqtt_transmit_p.Broker.Ack.{message_update_outgoing}
use adaptive_mqtt_transmit_p.Broker.Quota.{
  IsWithin, increment-IsWithin, all-IsWithin, latest-IsWithin, write_storage_out-IsWithin,
  write_queued_out-IsWithin,
}
use adaptive_mqtt_transmit_p.Broker.Quota.Calls.{
  message_insert-IsWithin, message_delete_outgoing-IsWithin, reconnect_reset_outgoing-IsWithin,
}
use adaptive_mqtt_transmit_p.Broker.Session.{
  reconnect_reset_outgoing, message_reconnect_reset, reconnect_reset_incoming, requeue_loop,
  messages_delete, reset_inflight_in, reset_counts,
}
use adaptive_mqtt_transmit_p.Broker.Session.Limits.{
  SameLimits, messages_delete-SameLimits, receive_maximum, take_over, has_any, with_lists,
}
use adaptive_mqtt_transmit_p.Adaptive.{
  take_sample, latency_of, acknowledge, choose_mode, record_sample, adapt_threshold,
}
use adaptive_mqtt_transmit_p.System.{
  Event, message_for, acked, received, refused, written, latest_written, queued_written, resumed,
  deleted, limited, took_over, step, run,
}

choose_mode-IsWithin :
    (clk : Clock) (lat : ℤ) (c : Context)
    → IsWithin c.msgs_out
    → IsWithin (choose_mode clk lat c).msgs_out
unfolding choose_mode
choose_mode-IsWithin clk lat c h =
    if_rule (λ (c' : Context). IsWithin c'.msgs_out) (ltb_ℤ lat (pos c.threshold_l)) h h

take_sample-IsWithin :
    (cfg : Config) (clk : Clock) (c : Context)
    → IsWithin c.msgs_out
    → IsWithin (take_sample cfg clk c).msgs_out
unfolding take_sample record_sample adapt_threshold
take_sample-IsWithin cfg clk c h =
    write_storage_out-IsWithin cfg clk _
      (choose_mode-IsWithin clk (latency_of clk c.link) (record_sample (latency_of clk c.link) c) h)

acknowledge-IsWithin :
    (t : Transport) (clk : Clock) (c : Context) (db : Db) (mid qos : ℕ)
    → IsWithin c.msgs_out
    → IsWithin (acknowledge t clk c db mid qos).0.msgs_out
unfolding acknowledge increment_send_quota
acknowledge-IsWithin t clk c db mid qos h =
    let h' = increment-IsWithin c.msgs_out h in
    message_delete_outgoing-IsWithin t _ db mid wait_for_pubcomp qos (
      if_rule (λ (c' : Context). IsWithin c'.msgs_out) _
        (take_sample-IsWithin db.config clk (increment_send_quota c) h') h')

msgs_out-requeue_in :
    (db : Db) (todo passed : List ClientMsg) (c : Context)
    → (requeue_loop db md_in c passed todo).msgs_out ≡ c.msgs_out
unfolding requeue_loop
msgs_out-requeue_in db [] passed c = refl
msgs_out-requeue_in db (m ∷ rest) passed c =
    if_rule (λ (c' : Context). c'.msgs_out ≡ c.msgs_out) _ (msgs_out-requeue_in db rest _ _)
      (msgs_out-requeue_in db rest _ _)

-- The incoming part of a resumed session leaves the outgoing messages alone.
pub msgs_out-reset_incoming :
    (c : Context) (db : Db) → (reconnect_reset_incoming c db).0.msgs_out ≡ c.msgs_out
unfolding reconnect_reset_incoming
msgs_out-reset_incoming c db =
    let (ms, d, db') = reset_inflight_in c.msgs_in.inflight (reset_counts c.msgs_in) db in
    msgs_out-requeue_in db' c.msgs_in.queued [] (record c { msgs_in = record d { inflight = ms } })

reset-IsWithin : (c : Context) (db : Db) → IsWithin (message_reconnect_reset c db).0.msgs_out
unfolding message_reconnect_reset
reset-IsWithin c db =
    let c' = reconnect_reset_outgoing c db in
    subst IsWithin (sym (msgs_out-reset_incoming c' db)) (reconnect_reset_outgoing-IsWithin c db)

IsWithin-same : (d e : MsgData) → SameLimits d e → IsWithin e → IsWithin d
IsWithin-same d e p h = omega (arith, p.0, p.1, h)

receive_maximum-IsWithin :
    (n : ℕ) (c : Context) → IsWithin c.msgs_out → IsWithin (receive_maximum n c).0.msgs_out
unfolding receive_maximum
receive_maximum-IsWithin n c h = ground arith

take_over-IsWithin :
    (found_in found_out : MsgData) (c : Context) (db : Db)
    → IsWithin c.msgs_out
    → IsWithin (take_over found_in found_out c db).0.msgs_out
unfolding take_over
take_over-IsWithin found_in found_out c db h =
    if_rule (λ (x : Context × Db). IsWithin x.0.msgs_out) (has_any found_in found_out)
      (reset-IsWithin (with_lists found_in found_out c) db) h

step-IsWithin :
    (t : Transport) (e : Event) (x : Context × Db)
    → IsWithin x.0.msgs_out
    → IsWithin (step t e x).0.msgs_out
unfolding step message_update_outgoing
step-IsWithin t (message_for clk mid dir qos retain s update) (c, db) h =
    message_insert-IsWithin clk mid qos retain s t c db dir update h
step-IsWithin t (acked clk mid qos) (c, db) h = acknowledge-IsWithin t clk c db mid qos h
step-IsWithin t (received mid) (c, db) h = h
step-IsWithin t (refused mid) (c, db) h =
    message_delete_outgoing-IsWithin t c db mid wait_for_pubrec 2 h
step-IsWithin t written (c, db) h = all-IsWithin t c db h
step-IsWithin t latest_written (c, db) h = latest-IsWithin t c db h
step-IsWithin t queued_written (c, db) h = write_queued_out-IsWithin c h
step-IsWithin t resumed (c, db) h = reset-IsWithin c db
step-IsWithin t (deleted force_free) (c, db) h =
    IsWithin-same (messages_delete c db force_free).0.msgs_out c.msgs_out
      (messages_delete-SameLimits c db force_free) h
step-IsWithin t (limited n) (c, db) h = receive_maximum-IsWithin n c h
step-IsWithin t (took_over found_in found_out) (c, db) h =
    take_over-IsWithin found_in found_out c db h

-- The send quota of a client stays within its inflight maximum over any sequence of insertions,
-- PUBACKs and PUBCOMPs that are acknowledged, PUBRECs, also such with an error, writes of what is in
-- flight or queued, deletions, resumptions and taking over of its session, and receive maxima, if it
-- is so before.
pub run-IsWithin :
    (t : Transport) (es : List Event) (x : Context × Db)
    → IsWithin x.0.msgs_out
    → IsWithin (run t es x).0.msgs_out
unfolding run
run-IsWithin t [] x h = h
run-IsWithin t (e ∷ es) x h = run-IsWithin t es (step t e x) (step-IsWithin t e x h)
