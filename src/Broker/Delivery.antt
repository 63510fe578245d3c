-- ===== src/Broker/Delivery.antt =====
-- Writing a client's messages out: `db__message_write_inflight_out_single`, `_all` and `_latest` and
-- `db__message_write_queued_out` of src/database.c.
pub mod Cases
pub mod Queued
use adaptive_mqtt_transmit_p.Common.{
  ℕ, ◌+◌, ◌-◌, Bool, true, false, not, Option, none, some, List, [], ◌∷◌, ◌++◌, ltb, ◌==◌,
  if◌then◌else◌, ◌&&◌, ◌||◌,
}
use adaptive_mqtt_transmit_p.Broker.Types.{
  Context, ClientMsg, MsgData, MsgState, Link, Db, Clock, Rc, success, oversize_packet,
  publish_qos0, publish_qos1, publish_qos2, wait_for_puback, wait_for_pubrec, resend_pubrel,
  wait_for_pubcomp, Direction, md_in, md_out, TransferMode,
}
use adaptive_mqtt_transmit_p.Broker.Util.{increment_send_quota, is_active, is_slow}
use adaptive_mqtt_transmit_p.Broker.Store.{msg_store_ref_dec}
use adaptive_mqtt_transmit_p.Broker.Queues.{
  uncount, to_publish, dequeue_first, destorage_first, Target, to_queue, to_inflight, quota_used_up,
}

-- The functions that put a packet on the client's connection: `send__publish`, `send__pubrel` and
-- `send__pubrec`. They change only the sending side of the client.
pub record Transport : Type 0 where
  pub publish : Context → ClientMsg → ℕ → Link × Rc
  pub pubrel : Context → ℕ → Link × Rc
  pub pubrec : Context → ℕ → Link × Rc

-- What one write leaves: the message, if it stays on its list, the client and the database.
pub record Outcome : Type 0 where
  pub msg : Option ClientMsg
  pub ctx : Context
  pub db : Db
  pub rc : Rc

abbrev pub uncount_out : ClientMsg → Context → Context
uncount_out m c = record c { msgs_out = uncount m c.msgs_out }

-- `db__message_remove` on `msgs_out`; the list itself is rebuilt by the caller.
abbrev pub drop_msg : ClientMsg → Context → Db → Outcome
drop_msg m c db = record {
  msg = none;
  ctx = uncount_out m c;
  db = msg_store_ref_dec m.store db;
  rc = success;
}

abbrev pub keep_msg : ClientMsg → Context → Db → Rc → Outcome
keep_msg m c db r = record { msg = some m; ctx = c; db = db; rc = r }

abbrev pub is_outgoing : Direction → Bool
is_outgoing md_out = true
is_outgoing md_in = false

-- A message that is past its expiry time, seconds after the epoch; 0 stands for none.
abbrev pub is_expired : Db → ClientMsg → Bool
is_expired db m = ltb 0 m.store.message_expiry_time && ltb m.store.message_expiry_time db.now_real_s

abbrev pub expiry_interval : Db → ClientMsg → ℕ
expiry_interval db m =
    if m.store.message_expiry_time == 0 then 0 else m.store.message_expiry_time - db.now_real_s

abbrev pub sent : Db → ClientMsg → MsgState → ClientMsg
sent db m s = record m { timestamp = db.now_s; dup = true; state = s }

-- The `switch` on the state of a message that has not expired.
unfoldable pub write_by_state : Transport → MsgState → Context → Db → ClientMsg → Outcome
write_by_state t publish_qos0 c db m =
    let (l, r) = t.publish c m (expiry_interval db m) in
    let c' = record c { link = l } in
    elim r [
      | success ↦ drop_msg m c' db
      | oversize_packet ↦ drop_msg m c' db
      | e ↦ keep_msg m c' db e
    ]
write_by_state t publish_qos1 c db m =
    let (l, r) = t.publish c m (expiry_interval db m) in
    let c' = record c { link = l } in
    elim r [
      | success ↦ keep_msg (sent db m wait_for_puback) c' db success
      | oversize_packet ↦ drop_msg m c' db
      | e ↦ keep_msg m c' db e
    ]
write_by_state t publish_qos2 c db m =
    let (l, r) = t.publish c m (expiry_interval db m) in
    let c' = record c { link = l } in
    elim r [
      | success ↦ keep_msg (sent db m wait_for_pubrec) c' db success
      | oversize_packet ↦ drop_msg m c' db
      | e ↦ keep_msg m c' db e
    ]
write_by_state t resend_pubrel c db m =
    let (l, r) = t.pubrel c m.mid in
    let c' = record c { link = l } in
    elim r [
      | success ↦ keep_msg (record m { state = wait_for_pubcomp }) c' db success
      | e ↦ keep_msg m c' db e
    ]
write_by_state t _ c db m = keep_msg m c db success

-- `db__message_write_inflight_out_single`
unfoldable pub write_inflight_out_single : Transport → Context → Db → ClientMsg → Outcome
unfolding write_by_state
write_inflight_out_single t c db m =
    if is_expired db m
    then drop_msg m (if is_outgoing m.direction && ltb 0 m.qos then increment_send_quota c else c)
        db
    else write_by_state t m.state c db m

-- What a walk over a list leaves: the messages that stay, the client and the database.
pub record Walk : Type 0 where
  pub msgs : List ClientMsg
  pub ctx : Context
  pub db : Db
  pub rc : Rc

abbrev pub stay : Option ClientMsg → List ClientMsg → List ClientMsg
stay none ms = ms
stay (some m) ms = m ∷ ms

-- The loops `rc = ..._single(...); if(rc) return rc;` over a list.
unfoldable pub write_list : Transport → Context → Db → List ClientMsg → Walk
write_list t c db [] = record { msgs = []; ctx = c; db = db; rc = success }
write_list t c db (m ∷ rest) =
    let o = write_inflight_out_single t c db m in
    let w = write_list t o.ctx o.db rest in
    elim o.rc [
      | success ↦ record w { msgs = stay o.msg w.msgs }
      | e ↦ record { msgs = stay o.msg rest; ctx = o.ctx; db = o.db; rc = e }
    ]

abbrev pub with_inflight : Context → List ClientMsg → Context
with_inflight c ms = record c { msgs_out = record c.msgs_out { inflight = ms } }

-- The context, the database and the code that a call returns.
abbrev pub Result : Type 0
Result = Context × Db × Rc

-- `if(rc) return rc;`, and then a step that cannot fail.
unfoldable pub and_then : Result → (Context → Context) → Result
and_then (c, db, success) f = (f c, db, success)
and_then (c, db, r) f = (c, db, r)

-- The list after a walk over its end, the messages `front` before it untouched.
abbrev pub walked : List ClientMsg → Walk → Result
walked front w = (with_inflight w.ctx (front ++ w.msgs), w.db, w.rc)

-- `db__message_write_inflight_out_all`
unfoldable pub write_inflight_out_all : Transport → Context → Db → Result
unfolding write_list
write_inflight_out_all t c db =
    if not (is_active c.state) || not c.sock_valid
    then (c, db, success)
    else walked [] (write_list t c db c.msgs_out.inflight)

abbrev pub is_publish : MsgState → Bool
is_publish publish_qos0 = true
is_publish publish_qos1 = true
is_publish publish_qos2 = true
is_publish _ = false

-- The walk back from the end over the messages in a publish state: what it stops behind, and
-- what it has passed.
unfoldable pub split_publish : List ClientMsg → List ClientMsg × List ClientMsg
split_publish [] = ([], [])
split_publish (m ∷ ms) =
    let (front, back) = split_publish ms in
    elim front [
      | [] ↦ if is_publish m.state then ([], m ∷ back) else (m ∷ [], back)
      | f ∷ fs ↦ (m ∷ f ∷ fs, back)
    ]

-- Where `db__message_write_inflight_out_latest` starts: the walk never passes the head, and starts
-- at the head if it comes there.
unfoldable pub split_latest : List ClientMsg → List ClientMsg × List ClientMsg
unfolding split_publish
split_latest [] = ([], [])
split_latest (h ∷ ms) =
    let (front, back) = split_publish ms in
    elim front [ [] ↦ ([], h ∷ ms) | f ∷ fs ↦ (h ∷ f ∷ fs, back) ]

-- `db__message_write_inflight_out_latest`
unfoldable pub write_inflight_out_latest : Transport → Context → Db → Result
unfolding write_list split_latest
write_inflight_out_latest t c db =
    if not (is_active c.state) || not c.sock_valid
    then (c, db, success)
    else let (front, back) = split_latest c.msgs_out.inflight in
      walked front (write_list t c db back)

-- The loop of `db__message_write_queued_out`; the list is what is left of `queued`.
unfoldable pub queued_loop : MsgData → List ClientMsg → MsgData
unfolding dequeue_first
queued_loop d [] = d
queued_loop d (m ∷ rest) =
    let onward = queued_loop (dequeue_first (record d { queued = to_publish m ∷ rest })) rest in
    if quota_used_up d then d else onward

-- `db__message_write_queued_out`
unfoldable pub write_queued_out : Context → Context
unfolding queued_loop
write_queued_out c =
    if not (is_active c.state)
    then c
    else record c { msgs_out = queued_loop c.msgs_out c.msgs_out.queued }
