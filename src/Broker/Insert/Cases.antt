-- ===== src/Broker/Insert/Cases.antt =====
-- The case rule for `message_insert`: what it leaves behind on each of its branches.
use adaptive_mqtt_transmit_p.Common.{
  ℕ, ◌+◌, ◌≡◌, refl, Bool, false, inl, inr, some, ltb, if_rule, Bool-cases, Option-cases,
}
use adaptive_mqtt_transmit_p.Common.Bytes.{Bytes}
use adaptive_mqtt_transmit_p.Broker.Types.{
  Context, Db, Clock, Stored, Direction, MsgState, Rc, success, protocol, TransferMode,
}
use adaptive_mqtt_transmit_p.Broker.Delivery.{Transport, Result}
use adaptive_mqtt_transmit_p.Broker.Withhold.{expire_slow_mode, slow_mode_limit}
use adaptive_mqtt_transmit_p.Broker.Insert.{
  Decision, take_as, refuse, drop_full, decide, already_sent, refuses_offline, checked_mode,
  dropped, insert_taken, insert_decided, insert_for, message_insert,
}

module _ {ℓ} (P : Result → Type ℓ) (t : Transport) (c : Context) (db : Db) (clk : Clock) (mid : ℕ)
    (dir : Direction) (qos : ℕ) (retain : Bool) (s : Stored) (update : Bool) where
  decided_cases :
      (i : Bytes) (c' : Context) (x : Decision)
      → ((r : Rc) → P (c', db, r))
      → P (dropped c' db)
      → ((state : MsgState) (r : Rc)
          → x ≡ take_as state r
          → P (insert_taken t i c' db clk mid dir qos retain s update state r))
      → P (insert_decided t i c' db clk mid dir qos retain s update x)
  unfolding insert_decided
  decided_cases i c' (refuse r) same full taken = same r
  decided_cases i c' drop_full same full taken = full
  decided_cases i c' (take_as state r) same full taken = taken state r refl

  pub insert_cases :
      ((r : Rc) → P (c, db, r))
      → ((r : Rc) → P (checked_mode clk c, db, r))
      → P (dropped (checked_mode clk c) db)
      → ((i : Bytes) (state : MsgState) (r : Rc)
          → c.id ≡ some i
          → already_sent c i dir retain s db ≡ false
          → decide db.config (checked_mode clk c) dir qos s ≡ take_as state r
          → P (insert_taken t i (checked_mode clk c) db clk mid dir qos retain s update state r))
      → P (message_insert t c db clk mid dir qos retain s update)
  unfolding message_insert insert_for
  insert_cases same checked full taken = elim (Option-cases c.id) [
    | inl e ↦ rw (e, message_insert) (same success)
    | inr (i, e) ↦
        rw (e, message_insert)
          (elim (Bool-cases (already_sent c i dir retain s db)) [
            | inl again ↦ rw (again, insert_for) (same success)
            | inr fresh ↦
                rw (fresh, insert_for)
                  (elim (Bool-cases (refuses_offline db.config c qos)) [
                    | inl off ↦ rw off (same protocol)
                    | inr on ↦ rw on (
                        decided_cases i (checked_mode clk c) _ checked full
                          (λ state r x. taken i state r e fresh x))
                  ])
          ])
  ]

-- The check of the time in slow mode changes the mode and nothing else.
pub checked_mode_only {ℓ} :
    (P : Context → Type ℓ) (clk : Clock) (c : Context)
    → ((m : TransferMode) → P (record c { mode = m }))
    → P (checked_mode clk c)
unfolding expire_slow_mode
checked_mode_only P clk c h =
    if_rule P c.sock_valid
      (if_rule P (ltb (c.slow_mode_time + slow_mode_limit) clk.wall_s) (h _) (h c.mode)) (h c.mode)
