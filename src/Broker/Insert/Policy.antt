-- ===== src/Broker/Insert/Policy.antt =====
-- Which list a message goes to by the policy.
use adaptive_mqtt_transmit_p.Common.{
  ℕ, ◌+◌, ◌≡◌, ◌≢◌, refl, ◌∙◌, ap, Bool, true, false, inl, inr, Option, none, some, [], ◌∷◌, ◌++◌,
  Bool-cases, ltb, if_rule, if◌then◌else◌,
}
use adaptive_mqtt_transmit_p.Common.Bytes.{Bytes}
use adaptive_mqtt_transmit_p.Broker.Types.{
  Context, Bridge, Config, Clock, Db, Stored, Direction, md_out, MsgData, MsgState, success,
  TransferMode, disused, storage_state,
}
use adaptive_mqtt_transmit_p.Broker.Util.{decrement_send_quota, decrement_quota}
use adaptive_mqtt_transmit_p.Broker.Flow.{with_msgs}
use adaptive_mqtt_transmit_p.Broker.Queues.{count_msg}
use adaptive_mqtt_transmit_p.Broker.Delivery.{Transport, Result}
use adaptive_mqtt_transmit_p.Broker.Withhold.{expire_slow_mode, slow_mode_limit, withholds}
use adaptive_mqtt_transmit_p.Broker.Insert.{
  Decision, take_as, refuse, drop_full, decide, checked_mode, already_sent, insert_taken,
  message_insert, new_msg, accept, append_msg, wake_bridge, insert_for, insert_decided,
  refuses_offline,
}
use adaptive_mqtt_transmit_p.Broker.Insert.Waits.{
  MustWait, withholds_iff, decide-withheld, goes_to_storage, Passed, goes_to_storage-Passed,
  storage-append_msg,
}

refuses_offline-online :
    (cfg : Config) (c : Context) (qos : ℕ) → c.sock_valid ≡ true → refuses_offline cfg c qos ≡ false
unfolding refuses_offline
refuses_offline-online cfg c qos on = simp on refl

checked_mode-online :
    (clk : Clock) (c : Context) → c.sock_valid ≡ true → checked_mode clk c ≡ expire_slow_mode clk c
checked_mode-online clk c on = ap (λ b. if b then expire_slow_mode clk c else c) on

-- A connected client that has not had the message: a state is chosen once the mode is checked.
pub online_rule {ℓ} :
    (P : Result → Type ℓ) (t : Transport) (i : Bytes) (c : Context) (db : Db) (clk : Clock)
    (mid : ℕ) (dir : Direction) (qos : ℕ) (retain : Bool) (s : Stored) (update : Bool)
    → c.id ≡ some i
    → c.sock_valid ≡ true
    → already_sent c i dir retain s db ≡ false
    → P (
        insert_decided t i
          (expire_slow_mode clk c)
          db
          clk
          mid
          dir
          qos
          retain
          s
          update
          (decide db.config (expire_slow_mode clk c) dir qos s))
    → P (message_insert t c db clk mid dir qos retain s update)
unfolding message_insert insert_for
online_rule P t i c db clk mid dir qos retain s update named on fresh p =
    rw (named, message_insert)
      (rw (fresh, insert_for)
        (rw (refuses_offline-online db.config c qos on) (rw (checked_mode-online clk c on) p)))

-- What a rule says of every mode holds after the check of the time in slow mode.
pub expired_rule {ℓ} :
    (P : Context → Type ℓ) (clk : Clock) (c : Context)
    → ((m : TransferMode) → P (record c { mode = m }))
    → P (expire_slow_mode clk c)
unfolding expire_slow_mode
expired_rule P clk c h =
    if_rule P (ltb (c.slow_mode_time + slow_mode_limit) clk.wall_s) (h _) (h c.mode)

-- The same three lists, whatever the counters and the quota.
pub record SameLists (d e : MsgData) : Type 0 where
  pub inflight : d.inflight ≡ e.inflight
  pub queued : d.queued ≡ e.queued
  pub storage : d.storage ≡ e.storage

pub same_lists :
    (d e : MsgData)
    → d.inflight ≡ e.inflight
    → d.queued ≡ e.queued
    → d.storage ≡ e.storage
    → SameLists d e
same_lists d e i q s = record { inflight = i; queued = q; storage = s }

pub SameLists-wake_bridge :
    (b : Option Bridge) (c : Context) → SameLists (wake_bridge b c).msgs_out c.msgs_out
unfolding wake_bridge
SameLists-wake_bridge none c = same_lists _ _ refl refl refl
SameLists-wake_bridge (some br) c =
    if_rule (λ (c' : Context). SameLists c'.msgs_out c.msgs_out) _ (same_lists _ _ refl refl refl)
      (same_lists _ _ refl refl refl)

-- The lists of a client to which the message has gone in a state, without a write.
pub SameLists-accept :
    (i : Bytes) (c : Context) (db : Db) (clk : Clock) (mid : ℕ) (qos : ℕ) (retain : Bool)
    (s : Stored) (st : MsgState)
    → SameLists
        (accept i c db clk mid md_out qos retain s st).0.msgs_out
        (append_msg (new_msg c db clk mid md_out qos retain s st) st c.msgs_out)
unfolding accept decrement_send_quota decrement_quota count_msg
SameLists-accept i c db clk mid qos retain s st =
    let m = new_msg c db clk mid md_out qos retain s st in
    let d = append_msg m st c.msgs_out in
    let w = SameLists-wake_bridge c.bridge (with_msgs c md_out (count_msg qos s.payloadlen d)) in
    if_rule (λ (c' : Context). SameLists c'.msgs_out d) (ltb 0 m.qos)
      (same_lists _ _ w.inflight w.queued w.storage) (same_lists _ _ w.inflight w.queued w.storage)

decided-not_stored :
    (t : Transport) (i : Bytes) (c : Context) (db : Db) (clk : Clock) (mid : ℕ) (qos : ℕ)
    (retain : Bool) (s : Stored) (x : Decision)
    → Passed x
    → (insert_decided t i c db clk mid md_out qos retain s false x).0.msgs_out.storage
      ≡ c.msgs_out.storage
unfolding insert_decided insert_taken Passed goes_to_storage
decided-not_stored t i c db clk mid qos retain s (refuse r) p = refl
decided-not_stored t i c db clk mid qos retain s drop_full p = refl
decided-not_stored t i c db clk mid qos retain s (take_as st r) p =
    (SameLists-accept i c _ clk mid qos retain s st).storage ∙ storage-append_msg _ st c.msgs_out p

module _ (t : Transport) (c : Context) (db : Db) (clk : Clock) (mid : ℕ) (qos : ℕ) (retain : Bool)
    (s : Stored) (i : Bytes) (named : c.id ≡ some i) (on : c.sock_valid ≡ true)
    (live : c.state ≢ disused) (fresh : already_sent c i md_out retain s db ≡ false) where
  Done : Result → Type 0
  Done (c', db', r) =
      (r ≡ success)
      × SameLists c'.msgs_out (record c.msgs_out {
        storage = c.msgs_out.storage ++ new_msg c db clk mid md_out qos retain s storage_state ∷ [];
      })

  withholds-no :
      ¬ MustWait db.config clk c s → withholds db.config (expire_slow_mode clk c) s ≡ false
  withholds-no n = elim (Bool-cases (withholds db.config (expire_slow_mode clk c) s)) [
    | inl y ↦ elim (n ((withholds_iff db.config clk c s live).0 y)) [ ]
    | inr f ↦ f
  ]

  -- A connected client with an identifier, whose state is not final and which has not had the
  -- message, gets a message that must wait at the end of its list `storage` and on no other list,
  -- and the call succeeds, when it does not write at once. A message must wait if it is large, the
  -- client is in slow mode and has not been for longer than the limit, and the topic is not the one
  -- by which latency is measured.
  pub message_insert_withholds :
      MustWait db.config clk c s
      → let (c', db', r) = message_insert t c db clk mid md_out qos retain s false in
        let m = new_msg c db clk mid md_out qos retain s storage_state in
        (r ≡ success)
        × SameLists c'.msgs_out (record c.msgs_out { storage = c.msgs_out.storage ++ m ∷ [] })
  unfolding Done insert_decided insert_taken append_msg
  message_insert_withholds w =
      online_rule Done t i c db clk mid md_out qos retain s false named on fresh (
        rw
          (
            decide-withheld db.config _ md_out qos s
                (expired_rule (λ c'. c'.sock_valid ≡ true) clk c (λ m. on))
                ((withholds_iff db.config clk c s live).1 w),
            insert_decided,
          )
          (expired_rule
            (λ c'.
              Done (insert_taken t i c' db clk mid md_out qos retain s false storage_state success))
            clk c
            λ m. (
              refl,
              SameLists-accept i (record c { mode = m }) _ clk mid qos retain s storage_state,
            )))

  -- Any other message to such a client leaves its list `storage` as it was, when the call does not
  -- write at once.
  pub message_insert_passes :
      ¬ MustWait db.config clk c s
      → (message_insert t c db clk mid md_out qos retain s false).0.msgs_out.storage
        ≡ c.msgs_out.storage
  message_insert_passes n =
      online_rule (λ r. r.0.msgs_out.storage ≡ c.msgs_out.storage) t i c db clk mid md_out qos
        retain s false named on fresh
        (decided-not_stored t i (expire_slow_mode clk c) db clk mid qos retain s _ (
            goes_to_storage-Passed db.config (expire_slow_mode clk c) md_out qos s
              (expired_rule (λ c'. c'.sock_valid ≡ true) clk c (λ m. on)) (withholds-no n))
          ∙ expired_rule (λ c'. c'.msgs_out.storage ≡ c.msgs_out.storage) clk c λ m. refl)
