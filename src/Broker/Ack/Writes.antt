-- ===== src/Broker/Ack/Writes.antt =====
-- A write after an acknowledgement, on a connection that takes every packet.
use mathlib.Core.List.{map-append}
use mathlib.Core.Option
use mathlib.Core.Path.{subst}
use adaptive_mqtt_transmit_p.Common.{
  ℕ, ◌≡◌, ◌≢◌, refl, ap, ◌∙◌, sym, false, ◌&&◌, Option, none, some, List, [], ◌∷◌, ◌++◌, map, ltb,
  All, All-append_right,
}
use adaptive_mqtt_transmit_p.Broker.Types.{
  ClientMsg, MsgData, queued_state, MsgState, Context, Db, success, publish_qos0, publish_qos1,
  publish_qos2, resend_pubrel,
}
use adaptive_mqtt_transmit_p.Broker.Delivery.{
  Transport, Outcome, stay, write_inflight_out_latest, write_list, write_inflight_out_single,
  write_by_state, expiry_interval,
}
use adaptive_mqtt_transmit_p.Broker.Delivery.Cases.{latest_cases}

-- The message apart from how far its sending has come.
abbrev pub body : ClientMsg → ClientMsg
body m = record m { state = queued_state; dup = false; timestamp = 0 }

-- The connection takes every packet.
abbrev pub Accepts : Transport → Type 0
Accepts t =
    ((c : Context) (m : ClientMsg) (e : ℕ) → (t.publish c m e).1 ≡ success)
    × ((c : Context) (mid : ℕ) → (t.pubrel c mid).1 ≡ success)

-- A message that writing leaves on its list: it has not expired at `now`, and is not one of QoS 0
-- about to be published.
abbrev pub Stays : ℕ → ClientMsg → Type 0
Stays now m =
    ((ltb 0 m.store.message_expiry_time && ltb m.store.message_expiry_time now) ≡ false)
    × (m.state ≢ publish_qos0)

-- The message stays on its list, and only the sending side of the client changes.
abbrev IsKept : Context → Db → ClientMsg → Outcome → Type 0
IsKept c db m o =
    (o.rc ≡ success)
    × (o.db ≡ db)
    × (o.ctx.msgs_out ≡ c.msgs_out)
    × (Option.map body o.msg ≡ some (body m))

state_stays :
    (t : Transport) (s : MsgState) (c : Context) (db : Db) (m : ClientMsg)
    → Accepts t
    → s ≢ publish_qos0
    → IsKept c db m (write_by_state t s c db m)
unfolding write_by_state
state_stays t publish_qos0 c db m a h = absurd (h refl)
state_stays t publish_qos1 c db m a h =
    rw (write_by_state, a.0 c m (expiry_interval db m)) (refl, refl, refl, refl)
state_stays t publish_qos2 c db m a h =
    rw (write_by_state, a.0 c m (expiry_interval db m)) (refl, refl, refl, refl)
state_stays t resend_pubrel c db m a h = rw (write_by_state, a.1 c m.mid) (refl, refl, refl, refl)
state_stays t _ c db m a h = (refl, refl, refl, refl)

single-Stays :
    (t : Transport) (c : Context) (db : Db) (m : ClientMsg)
    → Accepts t
    → Stays db.now_real_s m
    → IsKept c db m (write_inflight_out_single t c db m)
unfolding write_inflight_out_single
single-Stays t c db m a s = rw s.0 (state_stays t m.state c db m a s.1)

bodies-stay :
    (o : Option ClientMsg) (ms : List ClientMsg) (b : ClientMsg)
    → Option.map body o ≡ some b
    → map body (stay o ms) ≡ b ∷ map body ms
bodies-stay none ms b h = cc
bodies-stay (some m) ms b h = cc

bodies-write_list :
    (t : Transport) (c : Context) (db : Db) (ms : List ClientMsg)
    → Accepts t
    → All (Stays db.now_real_s) ms
    → let w = write_list t c db ms in
      (map body w.msgs ≡ map body ms) × (w.ctx.msgs_out ≡ c.msgs_out)
unfolding write_list
bodies-write_list t c db [] a h = (refl, refl)
bodies-write_list t c db (m ∷ ms) a h =
    let o = write_inflight_out_single t c db m in
    let (fine, same, out, kept) = single-Stays t c db m a h.0 in
    let (rest, out') = bodies-write_list t o.ctx db ms a h.1 in
    rw (write_list, fine, same)
      (bodies-stay o.msg _ (body m) kept ∙ ap (λ bs. body m ∷ bs) rest, out' ∙ out)

-- Writing changes how far the sending has come, and nothing else of what is in flight or queued.
pub bodies-write_latest :
    (t : Transport) (c : Context) (db : Db)
    → Accepts t
    → All (Stays db.now_real_s) c.msgs_out.inflight
    → let d = (write_inflight_out_latest t c db).0.msgs_out in
      (map body d.inflight ≡ map body c.msgs_out.inflight) × (d.queued ≡ c.msgs_out.queued)
bodies-write_latest t c db a h =
    latest_cases
      (λ r.
        (map body r.0.msgs_out.inflight ≡ map body c.msgs_out.inflight)
        × (r.0.msgs_out.queued ≡ c.msgs_out.queued))
      t c db (refl, refl)
      λ front back e.
        let back_stays =
          All-append_right (Stays db.now_real_s) front back
            (subst (All (Stays db.now_real_s)) (sym e) h) in
        let (same, out) = bodies-write_list t c db back a back_stays in
        (
          map-append body front (write_list t c db back).msgs
              ∙ ap (λ bs. map body front ++ bs) same
              ∙ sym (map-append body front back)
              ∙ ap (map body) e,
          ap (λ (d : MsgData). d.queued) out,
        )
