-- ===== src/Broker/Insert/Twice.antt =====
-- What a withheld message costs of the send quota, in `db__message_insert` and
-- `db__message_write_storage_out` of src/database.c.
use mathlib.Core.Path.{subst}
use adaptive_mqtt_transmit_p.Common.{
  ℕ, ◌+◌, ◌≤◌, ◌<◌, ◌≡◌, ◌≢◌, refl, ◌∙◌, ap, sym, take, Bool, true, false, some, none, Option, List,
  [], ◌∷◌, ◌++◌, map, arith, ltb, length, length-append, length-map, length-take, take_while,
  if◌then◌else◌,
}
use adaptive_mqtt_transmit_p.Common.Bytes.{Bytes}
use adaptive_mqtt_transmit_p.Broker.Types.{
  Context, Bridge, Config, Clock, Db, Stored, md_out, ClientMsg, MsgData, success, active, disused,
  storage_state,
}
use adaptive_mqtt_transmit_p.Broker.Util.{decrement_send_quota, decrement_quota}
use adaptive_mqtt_transmit_p.Broker.Flow.{with_msgs}
use adaptive_mqtt_transmit_p.Broker.Queues.{count_msg, to_publish}
use adaptive_mqtt_transmit_p.Broker.Delivery.{Transport, Result}
use adaptive_mqtt_transmit_p.Broker.Delivery.Queued.{allowance}
use adaptive_mqtt_transmit_p.Broker.Withhold.{is_due, expire_slow_mode, write_storage_out}
use adaptive_mqtt_transmit_p.Broker.Withhold.Release.{write_storage_out_lem, IsOldestFirst}
use adaptive_mqtt_transmit_p.Broker.Insert.{
  accept, append_msg, new_msg, wake_bridge, message_insert, insert_taken, insert_decided,
  already_sent,
}
use adaptive_mqtt_transmit_p.Broker.Insert.Policy.{SameLists-accept, online_rule, expired_rule}
use adaptive_mqtt_transmit_p.Broker.Insert.Waits.{MustWait, withholds_iff, decide-withheld}

-- A client whose only withheld message is due, with room for it.
record HasOneDue (cfg : Config) (clk : Clock) (c : Context) (m : ClientMsg) : Type 0 where
  is_active : c.state ≡ active
  only : c.msgs_out.storage ≡ m ∷ []
  due : is_due cfg clk c.mode m ≡ true
  room : 1 ≤ c.msgs_out.inflight_quota
  limited : c.msgs_out.inflight_maximum ≢ 0

release_one :
    (cfg : Config) (clk : Clock) (c : Context) (m : ClientMsg)
    → HasOneDue cfg clk c m
    → let d = (write_storage_out cfg clk c).msgs_out in
      (d.inflight_quota + 1 ≡ c.msgs_out.inflight_quota)
      × (length d.inflight ≡ length c.msgs_out.inflight + 1)
release_one cfg clk c m h =
    let d = c.msgs_out in
    let p = is_due cfg clk c.mode in
    let out : take_while p d.storage ≡ m ∷ [] =
      ap (take_while p) h.only ∙ ap (λ b. if b then m ∷ [] else []) h.due in
    let e =
      write_storage_out_lem cfg clk c h.is_active (subst IsOldestFirst (sym h.only) (tt, tt)) in
    let one : allowance d (length (take_while p d.storage)) ≡ 1 =
      ap (λ l. allowance d (length l)) out ∙ ground (arith, h.room, h.limited) in
    let taken = take_while p d.storage in
    let size : length taken ≡ 1 = ap (λ l. length l) out in
    let quota = ap (λ (x : MsgData). x.inflight_quota) e in
    let lists = ap (λ (x : MsgData). length x.inflight) e in
    let n = allowance d (length taken) in
    (
      omega (arith, quota, one, h.room),
      omega (
        arith,
        lists,
        one,
        size,
        length-append d.inflight (map to_publish (take n taken)),
        length-map to_publish (take n taken),
        length-take n taken,
      ),
    )

-- What the second part of the insertion keeps of a client, and what it takes.
record Charged (c d : Context) : Type 0 where
  same_state : d.state ≡ c.state
  same_mode : d.mode ≡ c.mode
  same_maximum : d.msgs_out.inflight_maximum ≡ c.msgs_out.inflight_maximum
  same_quota : d.msgs_out.inflight_quota ≡ c.msgs_out.inflight_quota

Charged-wake_bridge : (b : Option Bridge) (c : Context) → Charged c (wake_bridge b c)
unfolding wake_bridge
Charged-wake_bridge none c = record {
  same_state = refl;
  same_mode = refl;
  same_maximum = refl;
  same_quota = refl;
}
Charged-wake_bridge (some br) c = ground arith

-- A withheld message above QoS 0 takes one from the quota when it is accepted.
quota-accept :
    (i : Bytes) (c : Context) (db : Db) (clk : Clock) (mid qos : ℕ) (retain : Bool) (s : Stored)
    → 0 < qos
    → 0 < c.max_qos
    → 1 ≤ c.msgs_out.inflight_quota
    → let d = (accept i c db clk mid md_out qos retain s storage_state).0 in
      (d.state ≡ c.state)
      × ((d.mode ≡ c.mode)
          × ((d.msgs_out.inflight_maximum ≡ c.msgs_out.inflight_maximum)
              × (d.msgs_out.inflight_quota + 1 ≡ c.msgs_out.inflight_quota)))
unfolding accept decrement_send_quota decrement_quota count_msg append_msg
quota-accept i c db clk mid qos retain s above allowed room =
    let m = new_msg c db clk mid md_out qos retain s storage_state in
    let d = count_msg qos s.payloadlen (append_msg m storage_state c.msgs_out) in
    let w = Charged-wake_bridge c.bridge (with_msgs c md_out d) in
    let counts : ltb 0 m.qos ≡ true = ground (arith, above, allowed) in
    rw counts (w.same_state, (w.same_mode, (w.same_maximum, ground (arith, w.same_quota, room))))

module _ (t : Transport) (c : Context) (db : Db) (clk later : Clock) (mid : ℕ) (qos : ℕ)
    (retain : Bool) (s : Stored) (i : Bytes) (named : c.id ≡ some i) (on : c.sock_valid ≡ true)
    (ready : c.state ≡ active) (fresh : already_sent c i md_out retain s db ≡ false)
    (above : 0 < qos) (allowed : 0 < c.max_qos) (empty : c.msgs_out.storage ≡ [])
    (limited : c.msgs_out.inflight_maximum ≢ 0) (room : 2 ≤ c.msgs_out.inflight_quota)
    (waited : clk.mono_s + db.config.msg_store_timeout < later.mono_s) where
  TakesTwo : Result → Type 0
  TakesTwo (c', db', r) =
      let d = (write_storage_out db.config later c').msgs_out in
      (d.inflight_quota + 2 ≡ c.msgs_out.inflight_quota)
      × (length d.inflight ≡ length c.msgs_out.inflight + 1)

  -- A message above QoS 0 that is withheld and, once it has waited for longer than the timeout, let
  -- go, adds one message to those in flight but takes two from the send quota: on an active client
  -- in slow mode with an identifier, which has not had the message, has nothing in storage, allows
  -- a QoS above 0 and has a limited quota of two or more left, when the insertion does not write at
  -- once.
  pub withheld_takes_two :
      MustWait db.config clk c s
      → let c' = (message_insert t c db clk mid md_out qos retain s false).0 in
        let d = (write_storage_out db.config later c').msgs_out in
        (d.inflight_quota + 2 ≡ c.msgs_out.inflight_quota)
        × (length d.inflight ≡ length c.msgs_out.inflight + 1)
  unfolding TakesTwo insert_decided insert_taken append_msg
  withheld_takes_two w =
      let live : c.state ≢ disused = λ e. (let x = sym ready ∙ e in cc) in
      let connected = expired_rule (λ c'. c'.sock_valid ≡ true) clk c (λ m. on) in
      online_rule TakesTwo t i c db clk mid md_out qos retain s false named on fresh (
        rw
          (decide-withheld db.config (expire_slow_mode clk c) md_out qos s connected
            ((withholds_iff db.config clk c s live).1 w))
          (expired_rule
            (λ c'.
              TakesTwo
                (insert_taken t i c' db clk mid md_out qos retain s false storage_state success))
            clk c
            λ m.
              let c1 = record c { mode = m } in
              let q =
                quota-accept i c1 db clk mid qos retain s above allowed (omega (arith, room)) in
              let l = SameLists-accept i c1 db clk mid qos retain s storage_state in
              let one =
                release_one db.config later
                  (accept i c1 db clk mid md_out qos retain s storage_state).0
                  (new_msg c1 db clk mid md_out qos retain s storage_state)
                  (record {
                    is_active = q.0 ∙ ready;
                    only =
                        l.storage
                        ∙ ap
                            (λ (ms : List ClientMsg).
                              ms ++ new_msg c1 db clk mid md_out qos retain s storage_state ∷ [])
                            empty;
                    due = ground (arith, waited);
                    room = omega (arith, q.1.1.1, room);
                    limited = λ e. limited (omega (arith, q.1.1.0, e));
                  }) in
              (
                omega (arith, one.0, q.1.1.1),
                omega (arith, one.1, ap (λ (ms : List ClientMsg). length ms) l.inflight),
              )))
