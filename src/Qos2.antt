-- ===== src/Qos2.antt =====
-- The exchange of QoS 2: `db__message_release_incoming` and `db__message_write_queued_in` of
-- src/database.c, and the handlers handle__pubrel and handle__pubrec of lib/ as the broker has them.
pub mod Release
pub mod Again
pub mod Handlers
use adaptive_mqtt_transmit_p.Common.{
  ℕ, ◌+◌, Bool, true, false, not, Option, none, some, List, [], ◌∷◌, ◌++◌, ltb, leb, ◌==◌,
  if◌then◌else◌, ◌&&◌, ◌||◌,
}
use adaptive_mqtt_transmit_p.Common.Bytes.{Bytes}
use adaptive_mqtt_transmit_p.Broker.Types.{
  Context, ClientMsg, MsgData, MsgState, Db, Stored, Link, Rc, success, nomem, protocol, not_found,
  no_subscribers, malformed_packet, send_pubrec, wait_for_pubrel, wait_for_pubcomp, wait_for_pubrec,
  Protocol, mqtt31, mqtt5,
}
use adaptive_mqtt_transmit_p.Broker.Util.{increment_quota, is_active}
use adaptive_mqtt_transmit_p.Broker.Store.{msg_store_ref_dec}
use adaptive_mqtt_transmit_p.Broker.Queues.{uncount, dequeue_first}
use adaptive_mqtt_transmit_p.Broker.Delivery.{Transport}
use adaptive_mqtt_transmit_p.Broker.Ack.{message_update_outgoing, message_delete_outgoing}
use adaptive_mqtt_transmit_p.Subs.Tree.{SubHiers}
use adaptive_mqtt_transmit_p.Subs.Add.{Client}
use adaptive_mqtt_transmit_p.Subs.Publish.{
  Publication, Surroundings, World, messages_queue, put_client,
}
use adaptive_mqtt_transmit_p.Wire.{Packet, Read, got, failed, then_read, read_uint16, read_byte}

-- The tree of subscriptions, and the clients with the message store.
abbrev pub State : Type 0
State = SubHiers × World

abbrev pub context_of : ℕ → State → Context
context_of i (root, s) = (s.client i).context

-- The client `i` with its context changed.
abbrev pub put_context : ℕ → Context → World → World
put_context i c s = put_client i (record (s.client i) { context = c }) s

abbrev pub with_inflight_in : Context → List ClientMsg → Context
with_inflight_in c ms = record c { msgs_in = record c.msgs_in { inflight = ms } }

-- `db__message_remove` of an incoming message; `left` is the list without it.
unfoldable pub remove_in : ℕ → ClientMsg → List ClientMsg → State → State
remove_in i m left (root, s) =
    let c = with_inflight_in (s.client i).context left in
    let c' = record c { msgs_in = uncount m c.msgs_in } in
    (root, record (put_context i c' s) { db = msg_store_ref_dec m.store s.db })

-- The arguments with which the message is handed on.
abbrev pub publication : Bytes → ClientMsg → Publication
publication topic m = record {
  source_id = some m.store.source_id;
  topic = topic;
  qos = 2;
  retain = m.retain;
  stored = m.store;
}

-- A message with the identifier: one without a topic was refused before and is only removed, any
-- other is handed on first. The second part is false where the source returns 1.
unfoldable pub release_one : Surroundings → ℕ → ClientMsg → List ClientMsg → State → State × Bool
unfolding remove_in
release_one e i m left (root, s) = elim m.store.topic [
  | none ↦ (remove_in i m left (root, s), true)
  | some topic ↦
      let (root', s', rc) = messages_queue e (publication topic m) root s in
      elim rc [
        | success ↦ (remove_in i m left (root', s'), true)
        | no_subscribers ↦ (remove_in i m left (root', s'), true)
        | _ ↦ ((root', s'), false)
      ]
]

-- What the first loop leaves: the code that it returns at once, or the number of messages passed and
-- whether one was removed.
pub data Scan : Type 0 where
  returned : Rc → Scan
  scanned : ℕ → Bool → Scan

-- The first loop of `db__message_release_incoming`. `before` stays on the list, `todo` is its rest.
unfoldable pub release_scan :
    Surroundings → ℕ → ℕ → List ClientMsg → List ClientMsg → ℕ → Bool → State → State × Scan
unfolding release_one
release_scan e i mid before [] msg_index deleted x = (x, scanned msg_index deleted)
release_scan e i mid before (m ∷ todo) msg_index deleted x =
    let (x', done) = release_one e i m (before ++ todo) x in
    let onward = release_scan e i mid before todo (msg_index + 1) true x' in
    let past = release_scan e i mid (before ++ m ∷ []) todo (msg_index + 1) deleted x in
    if not (m.mid == mid)
    then past
    else if not (m.store.qos == 2)
    then (x, returned protocol)
    else if done
    then onward
    else (x', returned nomem)

abbrev pub tail_msgs : List ClientMsg → List ClientMsg
tail_msgs [] = []
tail_msgs (m ∷ ms) = ms

abbrev pub with_queued_in : Context → List ClientMsg → Context
with_queued_in c ms = record c { msgs_in = record c.msgs_in { queued = ms } }

-- `db__message_dequeue_first` on the incoming messages.
abbrev pub dequeue_first_in : Context → Context
dequeue_first_in c = record c { msgs_in = dequeue_first c.msgs_in }

-- The second loop: queued messages move up while there is room behind those passed. The code of
-- send__pubrec is not looked at. `front` is what stays of `queued` before the loop's place, the
-- messages that are not of QoS 2; always the first of the list is moved.
unfoldable pub release_queued :
    Transport → ℕ → ℕ → List ClientMsg → Context → List ClientMsg → Context
unfolding dequeue_first
release_queued t now msg_index front c [] = c
release_queued t now msg_index front c (m ∷ rest) =
    let kept = front ++ record m { timestamp = now } ∷ [] in
    let passed = front ++ record m { timestamp = now; state = wait_for_pubrel } ∷ [] in
    let sent : Context = record c { link = (t.pubrec c m.mid).0 } in
    let moved = dequeue_first_in (with_queued_in sent (passed ++ rest)) in
    let next : List ClientMsg × Context =
      if m.qos == 2 then (tail_msgs passed, moved) else (kept, with_queued_in c (kept ++ rest)) in
    let onward = release_queued t now (msg_index + 1) next.0 next.1 rest in
    if not (c.msgs_in.inflight_maximum == 0) && leb c.msgs_in.inflight_maximum msg_index
    then c
    else onward

abbrev pub finish_release : Surroundings → ℕ → State × Scan → State × Rc
finish_release e i (x, returned rc) = (x, rc)
finish_release e i ((root, s), scanned msg_index deleted) =
    let c = (s.client i).context in
    let c' = release_queued e.transport s.db.now_s msg_index [] c c.msgs_in.queued in
    ((root, put_context i c' s), if deleted then success else not_found)

-- `db__message_release_incoming` for the client `i`.
unfoldable pub message_release_incoming : Surroundings → ℕ → ℕ → State → State × Rc
unfolding release_scan
message_release_incoming e i mid x =
    finish_release e i (release_scan e i mid [] (context_of i x).msgs_in.inflight 0 false x)

-- `tail->state = ...` on the message that the round was about: it has gone to the end of the
-- inflight list, or it is the last of those before the loop's place.
unfoldable pub set_last : MsgState → List ClientMsg → List ClientMsg
set_last state [] = []
set_last state (m ∷ []) = record m { state = state } ∷ []
set_last state (m ∷ n ∷ ms) = m ∷ set_last state (n ∷ ms)

abbrev pub mark_sent : List ClientMsg → List ClientMsg → Context → Context
mark_sent [] rest c = with_inflight_in c (set_last wait_for_pubrel c.msgs_in.inflight)
mark_sent (f ∷ front) rest c = with_queued_in c (set_last wait_for_pubrel (f ∷ front) ++ rest)

-- The loop of `db__message_write_queued_in`, which tests the maximum of the outgoing messages with
-- the quota of the incoming ones.
unfoldable pub queued_in_loop : Transport → List ClientMsg → Context → List ClientMsg → Context × Rc
unfolding dequeue_first set_last
queued_in_loop t front c [] = (c, success)
queued_in_loop t front c (m ∷ rest) =
    let passed = front ++ record m { state = send_pubrec } ∷ [] in
    let c1 = dequeue_first_in (with_queued_in c (passed ++ rest)) in
    let (l, rc) = t.pubrec c1 m.mid in
    let c2 : Context = record c1 { link = l } in
    let left = tail_msgs passed in
    let next : List ClientMsg × Context =
      if m.qos == 2
      then (set_last wait_for_pubrel left, mark_sent left rest c2)
      else (front ++ m ∷ [], c) in
    let onward = queued_in_loop t next.0 next.1 rest in
    if not (c.msgs_out.inflight_maximum == 0) && c.msgs_in.inflight_quota == 0
    then (c, success)
    else if m.qos == 2
    then elim rc [ success ↦ onward | e ↦ (c2, e) ]
    else onward

-- `db__message_write_queued_in`
unfoldable pub write_queued_in : Transport → Context → Context × Rc
unfolding queued_in_loop
write_queued_in t c =
    if not (is_active c.state) then (c, success) else queued_in_loop t [] c c.msgs_in.queued
