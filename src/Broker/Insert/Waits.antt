-- ===== src/Broker/Insert/Waits.antt =====
-- Which messages must wait, said without the tests of `db__message_insert`.
use adaptive_mqtt_transmit_p.Common.{
  ℕ, ◌+◌, ◌≤◌, ◌≡◌, ◌≢◌, refl, ap, ◌↔◌, Bool, true, false, not, ◌&&◌, inl, inr, Option, none, some,
  arith, Bool-cases, if_rule, ◌==◌,
}
use mathlib.Core.Option.{some-injective}
use adaptive_mqtt_transmit_p.Common.Bytes.{Bytes, bytes_eq_iff}
use adaptive_mqtt_transmit_p.Broker.Types.{
  Context, ClientState, Config, Clock, Stored, Direction, ClientMsg, MsgData, MsgState, success,
  slow_mode, disused, latency_topic, storage_state, invalid,
}
use adaptive_mqtt_transmit_p.Broker.Util.{is_slow, is_disused, set_mode}
use adaptive_mqtt_transmit_p.Broker.Flow.{msgs_of, ready_for_flight, ready_for_queue}
use adaptive_mqtt_transmit_p.Broker.Queues.{publish_state}
use adaptive_mqtt_transmit_p.Broker.Withhold.{
  expire_slow_mode, slow_mode_limit, withholds, is_latency,
}
use adaptive_mqtt_transmit_p.Broker.Insert.{
  Decision, take_as, decide, append_msg, decide_incoming, is_out,
}

-- The message is large, the client is in slow mode and has not been for longer than the limit, and
-- the message is not one by which latency is measured.
pub record MustWait (cfg : Config) (clk : Clock) (c : Context) (s : Stored) : Type 0 where
  pub large : cfg.threshold_s ≤ s.payloadlen
  pub slow : c.mode ≡ slow_mode
  pub recent : clk.wall_s ≤ c.slow_mode_time + slow_mode_limit
  pub ordinary : s.topic ≢ some latency_topic

is_latency_iff : (t : Option Bytes) → (is_latency t ≡ true) ↔ (t ≡ some latency_topic)
is_latency_iff none = (λ h. cc, λ h. cc)
is_latency_iff (some b) = (
  λ h. ap some ((bytes_eq_iff b latency_topic).0 h),
  λ h. (bytes_eq_iff b latency_topic).1 (some-injective _ _ h),
)

is_disused-live : (st : ClientState) → st ≢ disused → is_disused st ≡ false
is_disused-live disused live = elim (live refl) [ ]
is_disused-live _ live = refl

-- The mode that the check leaves is slow exactly if the client was slow and is within the limit.
is_slow-expire_iff :
    (clk : Clock) (c : Context)
    → c.state ≢ disused
    → (is_slow (expire_slow_mode clk c).mode ≡ true)
      ↔ ((c.mode ≡ slow_mode) × (clk.wall_s ≤ c.slow_mode_time + slow_mode_limit))
unfolding expire_slow_mode set_mode
is_slow-expire_iff clk c live = rw (is_disused-live c.state live) (ground arith)

-- For a client whose state is not final, the test of the code after the check of the time in slow
-- mode says that the message must wait.
pub withholds_iff :
    (cfg : Config) (clk : Clock) (c : Context) (s : Stored)
    → c.state ≢ disused
    → (withholds cfg (expire_slow_mode clk c) s ≡ true) ↔ MustWait cfg clk c s
unfolding withholds
withholds_iff cfg clk c s live =
    let slow = is_slow-expire_iff clk c live in
    let lat = is_latency_iff s.topic in
    (
      λ h. record {
        large = ground arith;
        slow = (slow.0 (ground arith)).0;
        recent = (slow.0 (ground arith)).1;
        ordinary = λ e. ground (arith, lat.1 e);
      },
      λ w.
          let sl = slow.1 (w.slow, w.recent) in
          let large = w.large in
          elim (Bool-cases (is_latency s.topic)) [
            | inl y ↦ elim (w.ordinary (lat.0 y)) [ ]
            | inr n ↦ rw (n, sl) (ground arith)
          ],
    )

pub decide-withheld :
    (cfg : Config) (c : Context) (dir : Direction) (qos : ℕ) (s : Stored)
    → c.sock_valid ≡ true
    → withholds cfg c s ≡ true
    → decide cfg c dir qos s ≡ take_as storage_state success
unfolding decide
decide-withheld cfg c dir qos s on h = rw (h, on) refl

-- Whether a message goes to `storage`.
unfoldable pub is_stored : MsgState → Bool
is_stored storage_state = true
is_stored _ = false

unfoldable pub goes_to_storage : Decision → Bool
unfolding is_stored
goes_to_storage (take_as st r) = is_stored st
goes_to_storage _ = false

unfoldable pub Passed : Decision → Type 0
Passed x = goes_to_storage x ≡ false

Passed-publish_state : (qos : ℕ) → Passed (take_as (publish_state qos invalid) success)
unfolding Passed goes_to_storage is_stored
Passed-publish_state qos =
    if_rule (λ st. is_stored st ≡ false) (qos == 0) refl
      (if_rule (λ st. is_stored st ≡ false) (qos == 1) refl
        (if_rule (λ st. is_stored st ≡ false) (qos == 2) refl refl))

pub goes_to_storage-Passed :
    (cfg : Config) (c : Context) (dir : Direction) (qos : ℕ) (s : Stored)
    → c.sock_valid ≡ true
    → withholds cfg c s ≡ false
    → Passed (decide cfg c dir qos s)
unfolding Passed decide goes_to_storage is_stored decide_incoming
goes_to_storage-Passed cfg c dir qos s on h =
    simp (h, on)
      (if_rule Passed (ready_for_flight cfg c dir qos)
        (if_rule Passed (is_out dir) (Passed-publish_state qos)
          (if_rule Passed (qos == 2) refl refl))
        (if_rule Passed (not (qos == 0) && ready_for_queue cfg c qos (msgs_of c dir)) refl refl))

pub storage-append_msg :
    (m : ClientMsg) (st : MsgState) (d : MsgData)
    → is_stored st ≡ false
    → (append_msg m st d).storage ≡ d.storage
unfolding append_msg is_stored
storage-append_msg m storage_state d h = cc
storage-append_msg m _ d h = refl
