-- ===== src/Adaptive/Sample.antt =====
-- What one sample of the latency does to an active client, in handle__pubackcomp of
-- lib/handle_pubackcomp.c.
use adaptive_mqtt_transmit_p.Common.{◌≡◌, ◌↔◌, refl, Bool-cases, inl, inr, true, [], arith, length}
use adaptive_mqtt_transmit_p.Common.Int.{pos, ◌≤ℤ◌, ltb_ℤ}
use adaptive_mqtt_transmit_p.Broker.Types.{Context, Config, Clock, slow_mode, normal_mode, active}
use adaptive_mqtt_transmit_p.Broker.Delivery.Queued.{allowance}
use adaptive_mqtt_transmit_p.Broker.Withhold.{write_storage_out}
use adaptive_mqtt_transmit_p.Broker.Withhold.Release.{release, loop-normal}
use adaptive_mqtt_transmit_p.Adaptive.{
  latency_of, take_sample, choose_mode, record_sample, adapt_threshold,
}

-- An active client is in slow mode after a sample exactly if the latency is at least the threshold
-- that held before the sample; the sample's own mean does not count yet.
pub take_sample-slow_iff :
    (cfg : Config) (clk : Clock) (c : Context)
    → c.state ≡ active
    → ((take_sample cfg clk c).mode ≡ slow_mode) ↔ (pos c.threshold_l ≤ℤ latency_of clk c.link)
unfolding take_sample choose_mode record_sample adapt_threshold write_storage_out
take_sample-slow_iff cfg clk c h =
    elim (Bool-cases (ltb_ℤ (latency_of clk c.link) (pos c.threshold_l))) [
      | inl low ↦ rw (h, low) (λ e. cc, λ le. ground arith)
      | inr high ↦ rw (h, high) (λ e. ground arith, λ le. refl)
    ]

-- A sample below the threshold sets an active client to normal mode and empties storage: the oldest
-- withheld messages, as many as the quota allows, are appended to the inflight list, and the others
-- to the queue.
pub take_sample-releases :
    (cfg : Config) (clk : Clock) (c : Context)
    → c.state ≡ active
    → ltb_ℤ (latency_of clk c.link) (pos c.threshold_l) ≡ true
    → let d = c.msgs_out in
      ((take_sample cfg clk c).mode ≡ normal_mode)
      × ((take_sample cfg clk c).msgs_out ≡ release (allowance d (length d.storage)) d.storage [] d)
unfolding take_sample choose_mode record_sample adapt_threshold write_storage_out
take_sample-releases cfg clk c h low = rw (h, low) (refl, loop-normal cfg clk c.msgs_out)
