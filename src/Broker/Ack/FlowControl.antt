-- ===== src/Broker/Ack/FlowControl.antt =====
-- How many queued messages an acknowledgement lets go. The count starts at the position of the
-- acknowledged message, not at the number of messages that are left in flight.
use mathlib.Core.List.{append-nil, append_assoc, map-append}
use adaptive_mqtt_transmit_p.Common.{
  ℕ, suc, ◌+◌, ◌-◌, ◌≤◌, ◌<◌, ◌≡◌, refl, ◌∙◌, ap, sym, false, true, not, ◌&&◌, inl, inr, List, [],
  ◌∷◌, ◌++◌, map, min, arith, Bool-cases, leb, ◌==◌, if◌then◌else◌, if_rule, length, take, drop,
  All, All-append, All-take, All-map, length-append, length-take, length-map,
}
use adaptive_mqtt_transmit_p.Broker.Types.{ClientMsg, MsgData, MsgState, Context, Db, Stored}
use adaptive_mqtt_transmit_p.Broker.Store.{msg_store_ref_dec, msg_store_remove}
use adaptive_mqtt_transmit_p.Broker.Queues.{to_publish, dequeue_first, uncount}
use adaptive_mqtt_transmit_p.Broker.Delivery.{Transport, uncount_out, with_inflight}
use adaptive_mqtt_transmit_p.Broker.Delivery.Queued.{quota-suc, sub-none}
use adaptive_mqtt_transmit_p.Broker.Ack.{
  found, find_acked, release_loop, release_and_write, message_delete_outgoing,
}
use adaptive_mqtt_transmit_p.Broker.Ack.Writes.{Accepts, Stays, body, bodies-write_latest}

-- A queued message as the second loop prepares it.
abbrev pub stamp : ℕ → ClientMsg → ClientMsg
stamp now m = record (to_publish m) { timestamp = now }

-- How many of `n` messages the loop lets go when it starts at `msg_index`.
abbrev pub let_go : MsgData → ℕ → ℕ → ℕ
let_go d msg_index n = if d.inflight_maximum == 0 then n else min (d.inflight_maximum - msg_index) n

abbrev pub move_stamped : ℕ → ℕ → MsgData → MsgData
move_stamped now n d = record d {
  inflight = d.inflight ++ map (stamp now) (take n d.queued);
  queued = drop n d.queued;
  inflight_quota = d.inflight_quota - n;
}

let_go-full :
    (d : MsgData) (i n : ℕ)
    → (not (d.inflight_maximum == 0) && leb d.inflight_maximum i) ≡ true
    → let_go d i n ≡ 0
let_go-full d i n h = ground arith

let_go-suc :
    (d : MsgData) (i n : ℕ)
    → (not (d.inflight_maximum == 0) && leb d.inflight_maximum i) ≡ false
    → let_go d i (suc n) ≡ suc (let_go d (i + 1) n)
let_go-suc d i n h = ground arith

let_go-none : (d : MsgData) (i : ℕ) → let_go d i 0 ≡ 0
let_go-none d i = ground arith

move_stamped-none : (now : ℕ) (d : MsgData) → move_stamped now 0 d ≡ d
move_stamped-none now d = rw (append-nil d.inflight, sub-none d.inflight_quota)

move_stamped-suc :
    (now : ℕ) (d : MsgData) (m : ClientMsg) (rest : List ClientMsg) (n : ℕ)
    → move_stamped now n (dequeue_first (record d { queued = stamp now m ∷ rest }))
      ≡ move_stamped now (suc n) (record d { queued = m ∷ rest })
unfolding dequeue_first
move_stamped-suc now d m rest n = rw (
  append_assoc d.inflight (stamp now m ∷ []) (map (stamp now) (take n rest)),
  quota-suc d.inflight_quota n,
)

release_loop_lem :
    (now i : ℕ) (d : MsgData) (todo : List ClientMsg)
    → release_loop now i (record d { queued = todo }) todo
      ≡ move_stamped now (let_go d i (length todo)) (record d { queued = todo })
unfolding release_loop
release_loop_lem now i d [] =
    rw let_go-none (sym (move_stamped-none now (record d { queued = [] })))
release_loop_lem now i d (m ∷ rest) =
    elim (Bool-cases (not (d.inflight_maximum == 0) && leb d.inflight_maximum i)) [
      | inl full ↦
          rw (full, let_go-full d i (suc (length rest)) full)
            (sym (move_stamped-none now (record d { queued = m ∷ rest })))
      | inr room ↦
          rw (room, let_go-suc d i (length rest) room)
            (release_loop_lem now (i + 1) (dequeue_first (record d { queued = stamp now m ∷ rest }))
                rest
              ∙ move_stamped-suc now d m rest _)
    ]

-- The inflight list after the second loop.
abbrev released : Context → Db → ℕ → List ClientMsg
released c db i =
    let d = c.msgs_out in
    d.inflight ++ map (stamp db.now_s) (take (let_go d i (length d.queued)) d.queued)

bodies-stamp : (now : ℕ) (ms : List ClientMsg) → map body (map (stamp now) ms) ≡ map body ms
bodies-stamp now [] = refl
bodies-stamp now (m ∷ ms) = ap (λ bs. body m ∷ bs) (bodies-stamp now ms)

released-Stays :
    (c : Context) (db : Db) (i : ℕ)
    → All (Stays db.now_real_s) c.msgs_out.inflight
    → All (λ m. Stays db.now_real_s (stamp db.now_s m)) c.msgs_out.queued
    → All (Stays db.now_real_s) (released c db i)
released-Stays c db i h k =
    All-append (Stays db.now_real_s) c.msgs_out.inflight _ h
      (All-map (Stays db.now_real_s) (stamp db.now_s) _ (All-take _ _ c.msgs_out.queued k))

bodies-release_and_write :
    (t : Transport) (c : Context) (db : Db) (i : ℕ)
    → Accepts t
    → All (Stays db.now_real_s) c.msgs_out.inflight
    → All (λ m. Stays db.now_real_s (stamp db.now_s m)) c.msgs_out.queued
    → let d = (release_and_write t c db i).0.msgs_out in
      (map body d.inflight ≡ map body (released c db i))
      × (d.queued ≡ drop (let_go c.msgs_out i (length c.msgs_out.queued)) c.msgs_out.queued)
unfolding release_and_write
bodies-release_and_write t c db i a h k =
    let d = c.msgs_out in
    rw (release_loop_lem db.now_s i d d.queued) (
      bodies-write_latest t
        (record c { msgs_out = move_stamped db.now_s (let_go d i (length d.queued)) d }) _ a
        (released-Stays c db i h k))

ref_dec-clock :
    (s : Stored) (db : Db)
    → ((msg_store_ref_dec s db).now_s ≡ db.now_s)
      × ((msg_store_ref_dec s db).now_real_s ≡ db.now_real_s)
unfolding msg_store_ref_dec msg_store_remove
ref_dec-clock s db =
    if_rule (λ (e : Db). (e.now_s ≡ db.now_s) × (e.now_real_s ≡ db.now_real_s)) _ (refl, refl)
      (refl, refl)

bodies-released :
    (now n : ℕ) (ms queued : List ClientMsg)
    → map body (ms ++ map (stamp now) (take n queued)) ≡ map body (ms ++ take n queued)
bodies-released now n ms queued =
    map-append body ms (map (stamp now) (take n queued))
    ∙ ap (λ bs. map body ms ++ bs) (bodies-stamp now (take n queued))
    ∙ sym (map-append body ms (take n queued))

pub message_delete_outgoing-lets_go :
    (t : Transport) (c : Context) (db : Db) (mid : ℕ) (expect : MsgState) (qos : ℕ)
    (before : List ClientMsg) (m : ClientMsg) (after : List ClientMsg)
    → find_acked mid expect qos c.msgs_out.inflight ≡ found before m after
    → Accepts t
    → All (Stays db.now_real_s) (before ++ after)
    → All (λ n. Stays db.now_real_s (stamp db.now_s n)) c.msgs_out.queued
    → let d = (message_delete_outgoing t c db mid expect qos).0.msgs_out in
      let n = let_go c.msgs_out (length before) (length c.msgs_out.queued) in
      (map body d.inflight ≡ map body ((before ++ after) ++ take n c.msgs_out.queued))
      × (d.queued ≡ drop n c.msgs_out.queued)
unfolding message_delete_outgoing uncount
message_delete_outgoing-lets_go t c db mid expect qos before m after e a h k =
    let db' = msg_store_ref_dec m.store db in
    let q = (ref_dec-clock m.store db).1 in
    let c' = uncount_out m (with_inflight c (before ++ after)) in
    let (sent, left) = bodies-release_and_write t c' db' (length before) a (rw q h) (rw q k) in
    rw (e, message_delete_outgoing)
      (sent ∙ bodies-released db'.now_s _ (before ++ after) c.msgs_out.queued, left)

-- So the number of messages in flight follows from the position of the acknowledged one.
length-message_delete_outgoing :
    (t : Transport) (c : Context) (db : Db) (mid : ℕ) (expect : MsgState) (qos : ℕ)
    (before : List ClientMsg) (m : ClientMsg) (after : List ClientMsg)
    → find_acked mid expect qos c.msgs_out.inflight ≡ found before m after
    → Accepts t
    → All (Stays db.now_real_s) (before ++ after)
    → All (λ n. Stays db.now_real_s (stamp db.now_s n)) c.msgs_out.queued
    → length (message_delete_outgoing t c db mid expect qos).0.msgs_out.inflight
      ≡ length before + length after + let_go c.msgs_out (length before) (length c.msgs_out.queued)
length-message_delete_outgoing t c db mid expect qos before m after e a h k =
    let ms = (message_delete_outgoing t c db mid expect qos).0.msgs_out.inflight in
    let n = let_go c.msgs_out (length before) (length c.msgs_out.queued) in
    let moved = take n c.msgs_out.queued in
    let same = (message_delete_outgoing-lets_go t c db mid expect qos before m after e a h k).0 in
    ground (
      arith,
      ap length same,
      length-map body ms,
      length-map body ((before ++ after) ++ moved),
      length-append (before ++ after) moved,
      length-append before after,
      length-take n c.msgs_out.queued,
    )

-- So the inflight maximum is not kept: under the same conditions, an acknowledgement for the first
-- of a full inflight list of two or more messages, while two or more are queued, leaves more
-- messages in flight than the maximum.
pub message_delete_outgoing_overfills :
    (t : Transport) (c : Context) (db : Db) (mid : ℕ) (expect : MsgState) (qos : ℕ) (m : ClientMsg)
    (rest : List ClientMsg)
    → find_acked mid expect qos c.msgs_out.inflight ≡ found [] m rest
    → Accepts t
    → All (Stays db.now_real_s) rest
    → All (λ n. Stays db.now_real_s (stamp db.now_s n)) c.msgs_out.queued
    → length rest + 1 ≡ c.msgs_out.inflight_maximum
    → 2 ≤ c.msgs_out.inflight_maximum
    → 2 ≤ length c.msgs_out.queued
    → c.msgs_out.inflight_maximum
      < length (message_delete_outgoing t c db mid expect qos).0.msgs_out.inflight
message_delete_outgoing_overfills t c db mid expect qos m rest e a h k full two waiting =
    ground (arith, length-message_delete_outgoing t c db mid expect qos [] m rest e a h k)
