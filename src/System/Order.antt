-- ===== src/System/Order.antt =====
-- The order of the withheld messages over the whole life of a client.
use mathlib.Core.Path.{subst}
use adaptive_mqtt_transmit_p.Common.{
  ℕ, ◌≤◌, ◌≡◌, refl, ◌∙◌, ap, sym, Bool, ◌&&◌, List, [], ◌∷◌, if_rule, Option, ◌==◌,
}
use adaptive_mqtt_transmit_p.Common.Bytes.{Bytes}
use adaptive_mqtt_transmit_p.Common.Int.{ℤ, pos, ltb_ℤ}
use adaptive_mqtt_transmit_p.Broker.Types.{
  Context, Db, Clock, Stored, Bridge, ClientMsg, MsgData, MsgState, Rc, wait_for_pubcomp,
  wait_for_pubrec, Direction, md_in, md_out, queued_state, storage_state,
}
use adaptive_mqtt_transmit_p.Broker.Util.{increment_send_quota, increment_quota}
use adaptive_mqtt_transmit_p.Broker.Delivery.{Transport, Result, write_queued_out}
use adaptive_mqtt_transmit_p.Broker.Delivery.Cases.{and_then_rule}
use adaptive_mqtt_transmit_p.Broker.Ack.{message_update_outgoing}
use adaptive_mqtt_transmit_p.Broker.Insert.{
  accept, append_msg, new_msg, is_out, insert_taken, write_all_lists, message_insert, count_change,
  dropped, wake_bridge,
}
use adaptive_mqtt_transmit_p.Broker.Insert.Cases.{insert_cases, checked_mode_only}
use adaptive_mqtt_transmit_p.Broker.Insert.Policy.{SameLists-wake_bridge, SameLists-accept}
use adaptive_mqtt_transmit_p.Broker.Withhold.Release.{IsOldestFirst}
use adaptive_mqtt_transmit_p.Broker.Withhold.Order.{
  IsOrdered, IsOrdered-later, IsOrdered-append, write_storage_out-IsOrdered,
}
use adaptive_mqtt_transmit_p.Broker.Session.{message_reconnect_reset, reconnect_reset_outgoing}
use adaptive_mqtt_transmit_p.Broker.Session.Limits.{
  messages_delete-SameLimits, receive_maximum, take_over, has_any, with_lists,
}
use adaptive_mqtt_transmit_p.Broker.Session.Withheld.{reconnect_reset_outgoing_leaves_storage}
use adaptive_mqtt_transmit_p.Adaptive.{
  take_sample, latency_of, acknowledge, choose_mode, record_sample, adapt_threshold,
}
use adaptive_mqtt_transmit_p.System.{
  Event, message_for, acked, received, refused, written, latest_written, queued_written, resumed,
  deleted, limited, took_over, step, run,
}
use adaptive_mqtt_transmit_p.System.Storage.{
  storage-write_queued_out, storage-write_latest, storage-write_all,
  storage-message_delete_outgoing,
}
use adaptive_mqtt_transmit_p.System.Quota.{msgs_out-reset_incoming}

wake_bridge-storage :
    (b : Option Bridge) (c : Context) → (wake_bridge b c).msgs_out.storage ≡ c.msgs_out.storage
wake_bridge-storage b c = (SameLists-wake_bridge b c).storage

append_msg-IsOrdered :
    (m : ClientMsg) (st : MsgState) (d : MsgData)
    → IsOrdered m.storage_time d.storage
    → IsOrdered m.storage_time (append_msg m st d).storage
unfolding append_msg
append_msg-IsOrdered m queued_state d h = h
append_msg-IsOrdered m storage_state d h = IsOrdered-append m.storage_time m d.storage refl h
append_msg-IsOrdered m _ d h = h

module _ (clk : Clock) (mid : ℕ) (qos : ℕ) (retain : Bool) (s : Stored) where
  accept-IsOrdered :
      (i : Bytes) (c : Context) (db : Db) (dir : Direction) (st : MsgState)
      → IsOrdered clk.mono_s c.msgs_out.storage
      → IsOrdered clk.mono_s (accept i c db clk mid dir qos retain s st).0.msgs_out.storage
  unfolding accept
  accept-IsOrdered i c db md_in st h =
      subst (IsOrdered clk.mono_s) (sym (wake_bridge-storage c.bridge _)) h
  accept-IsOrdered i c db md_out st h =
      subst (IsOrdered clk.mono_s) (sym (SameLists-accept i c db clk mid qos retain s st).storage)
        (append_msg-IsOrdered (new_msg c db clk mid md_out qos retain s st) st c.msgs_out h)

  insert_taken-IsOrdered :
      (t : Transport) (i : Bytes) (c : Context) (db : Db) (dir : Direction) (update : Bool)
      (st : MsgState) (r : Rc)
      → IsOrdered clk.mono_s c.msgs_out.storage
      → IsOrdered clk.mono_s
          (insert_taken t i c db clk mid dir qos retain s update st r).0.msgs_out.storage
  unfolding insert_taken write_all_lists
  insert_taken-IsOrdered t i c db dir update st r h =
      let a = accept-IsOrdered i c (count_change st db) dir st h in
      if_rule (λ (x : Result). IsOrdered clk.mono_s x.0.msgs_out.storage) (is_out dir && update)
        (and_then_rule (λ x. IsOrdered clk.mono_s x.0.msgs_out.storage) _ _
          (subst (IsOrdered clk.mono_s) (sym (storage-write_latest t _ _)) a)
          λ c' db' w.
            write_storage_out-IsOrdered db.config clk clk.mono_s (write_queued_out c')
              (subst (IsOrdered clk.mono_s) (sym (storage-write_queued_out c')) w))
        a

  message_insert-IsOrdered :
      (t : Transport) (c : Context) (db : Db) (dir : Direction) (update : Bool)
      → IsOrdered clk.mono_s c.msgs_out.storage
      → IsOrdered clk.mono_s
          (message_insert t c db clk mid dir qos retain s update).0.msgs_out.storage
  message_insert-IsOrdered t c db dir update h =
      insert_cases (λ x. IsOrdered clk.mono_s x.0.msgs_out.storage) t c db clk mid dir qos retain s
        update (λ r. h)
        (λ r. checked_mode_only (λ c'. IsOrdered clk.mono_s c'.msgs_out.storage) clk c λ m. h)
        (checked_mode_only (λ c'. IsOrdered clk.mono_s (dropped c' db).0.msgs_out.storage) clk c
          λ m. h)
        λ i st r _ _ _.
          checked_mode_only
            (λ c'.
              IsOrdered clk.mono_s
                (insert_taken t i c' db clk mid dir qos retain s update st r).0.msgs_out.storage)
            clk c λ m. insert_taken-IsOrdered t i (record c { mode = m }) db dir update st r h

storage-choose_mode :
    (clk : Clock) (lat : ℤ) (c : Context)
    → (choose_mode clk lat c).msgs_out.storage ≡ c.msgs_out.storage
unfolding choose_mode
storage-choose_mode clk lat c =
    if_rule (λ (c' : Context). c'.msgs_out.storage ≡ c.msgs_out.storage)
      (ltb_ℤ lat (pos c.threshold_l)) refl refl

acknowledge-IsOrdered :
    (t : Transport) (clk : Clock) (c : Context) (db : Db) (mid qos now : ℕ)
    → IsOrdered now c.msgs_out.storage
    → IsOrdered now (acknowledge t clk c db mid qos).0.msgs_out.storage
unfolding acknowledge increment_send_quota increment_quota take_sample record_sample adapt_threshold
acknowledge-IsOrdered t clk c db mid qos now h =
    let c1 = increment_send_quota c in
    let lat = latency_of clk c1.link in
    subst (IsOrdered now) (sym (storage-message_delete_outgoing t _ db mid wait_for_pubcomp qos)) (
      if_rule (λ (c' : Context). IsOrdered now c'.msgs_out.storage) _
        (write_storage_out-IsOrdered db.config clk now _
          (subst (IsOrdered now) (sym (storage-choose_mode clk lat (record_sample lat c1))) h))
        h)

storage-reset :
    (c : Context) (db : Db) → (message_reconnect_reset c db).0.msgs_out.storage ≡ c.msgs_out.storage
unfolding message_reconnect_reset
storage-reset c db =
    let c' = reconnect_reset_outgoing c db in
    ap (λ (d : MsgData). d.storage) (msgs_out-reset_incoming c' db)
    ∙ (reconnect_reset_outgoing_leaves_storage c db).0

storage-receive_maximum :
    (n : ℕ) (c : Context) → (receive_maximum n c).0.msgs_out.storage ≡ c.msgs_out.storage
unfolding receive_maximum
storage-receive_maximum n c =
    if_rule (λ (x : Context × Rc). x.0.msgs_out.storage ≡ c.msgs_out.storage) (n == 0) refl refl

take_over-IsOrdered :
    (found_in found_out : MsgData) (c : Context) (db : Db) (now : ℕ)
    → IsOrdered now found_out.storage
    → IsOrdered now c.msgs_out.storage
    → IsOrdered now (take_over found_in found_out c db).0.msgs_out.storage
unfolding take_over
take_over-IsOrdered found_in found_out c db now f h =
    if_rule (λ (x : Context × Db). IsOrdered now x.0.msgs_out.storage) (has_any found_in found_out)
      (subst (IsOrdered now) (sym (storage-reset (with_lists found_in found_out c) db)) f) h

-- The monotonic clock does not run back from one message to the next, and withheld messages that
-- are taken over lie oldest first, none later than the message before.
abbrev pub IsTimed : ℕ → List Event → Type 0
IsTimed now [] = Unit {0}
IsTimed now (message_for clk mid dir qos retain s update ∷ es) =
    (now ≤ clk.mono_s) × IsTimed clk.mono_s es
IsTimed now (acked clk mid qos ∷ es) = IsTimed now es
IsTimed now (received mid ∷ es) = IsTimed now es
IsTimed now (refused mid ∷ es) = IsTimed now es
IsTimed now (latest_written ∷ es) = IsTimed now es
IsTimed now (written ∷ es) = IsTimed now es
IsTimed now (queued_written ∷ es) = IsTimed now es
IsTimed now (resumed ∷ es) = IsTimed now es
IsTimed now (deleted force_free ∷ es) = IsTimed now es
IsTimed now (limited n ∷ es) = IsTimed now es
IsTimed now (took_over found_in found_out ∷ es) = IsOrdered now found_out.storage × IsTimed now es

run-IsOrdered :
    (t : Transport) (es : List Event) (now : ℕ) (x : Context × Db)
    → IsTimed now es
    → IsOrdered now x.0.msgs_out.storage
    → IsOldestFirst (run t es x).0.msgs_out.storage
unfolding run step message_update_outgoing
run-IsOrdered t [] now x timed h = h.0
run-IsOrdered t (message_for clk mid dir qos retain s update ∷ es) now (c, db) timed h =
    run-IsOrdered t es clk.mono_s _ timed.1 (
      message_insert-IsOrdered clk mid qos retain s t c db dir update
        (IsOrdered-later now clk.mono_s c.msgs_out.storage timed.0 h))
run-IsOrdered t (acked clk mid qos ∷ es) now (c, db) timed h =
    run-IsOrdered t es now _ timed (acknowledge-IsOrdered t clk c db mid qos now h)
run-IsOrdered t (received mid ∷ es) now (c, db) timed h = run-IsOrdered t es now _ timed h
run-IsOrdered t (refused mid ∷ es) now (c, db) timed h =
    run-IsOrdered t es now _ timed
      (subst (IsOrdered now) (sym (storage-message_delete_outgoing t c db mid wait_for_pubrec 2)) h)
run-IsOrdered t (latest_written ∷ es) now (c, db) timed h =
    run-IsOrdered t es now _ timed (subst (IsOrdered now) (sym (storage-write_latest t c db)) h)
run-IsOrdered t (written ∷ es) now (c, db) timed h =
    run-IsOrdered t es now _ timed (subst (IsOrdered now) (sym (storage-write_all t c db)) h)
run-IsOrdered t (queued_written ∷ es) now (c, db) timed h =
    run-IsOrdered t es now _ timed (subst (IsOrdered now) (sym (storage-write_queued_out c)) h)
run-IsOrdered t (resumed ∷ es) now (c, db) timed h =
    run-IsOrdered t es now _ timed (subst (IsOrdered now) (sym (storage-reset c db)) h)
run-IsOrdered t (deleted force_free ∷ es) now (c, db) timed h =
    run-IsOrdered t es now _ timed
      (subst (IsOrdered now) (sym (messages_delete-SameLimits c db force_free).2) h)
run-IsOrdered t (limited n ∷ es) now (c, db) timed h =
    run-IsOrdered t es now _ timed (subst (IsOrdered now) (sym (storage-receive_maximum n c)) h)
run-IsOrdered t (took_over found_in found_out ∷ es) now (c, db) timed h =
    run-IsOrdered t es now _ timed.1 (take_over-IsOrdered found_in found_out c db now timed.0 h)

-- Starting with nothing in storage, the withheld messages lie oldest first after any sequence of
-- events, if the monotonic clock does not run back from one message to the next and the storage that
-- is taken over from another connection lies oldest first, none later than the message before.
pub run-IsOldestFirst :
    (t : Transport) (es : List Event) (now : ℕ) (x : Context × Db)
    → IsTimed now es
    → x.0.msgs_out.storage ≡ []
    → IsOldestFirst (run t es x).0.msgs_out.storage
run-IsOldestFirst t es now x timed empty =
    run-IsOrdered t es now x timed (subst (IsOrdered now) (sym empty) (tt, tt))
