-- ===== src/Adaptive.antt =====
-- The adaptive part of lib/handle_pubackcomp.c: the latency of a subscriber is measured by the
-- acknowledgement of a message on the topic "latency", and decides its transfer mode and, by the
-- mean of the last five samples, its next threshold.
pub mod Latency
pub mod Sample
pub mod Window
use adaptive_mqtt_transmit_p.Common.{
  ℕ, ◌+◌, ◌*◌, ◌%◌, List, [], ◌∷◌, ltb, ◌==◌, ◌&&◌, if◌then◌else◌, set,
}
use adaptive_mqtt_transmit_p.Common.Int.{ℤ, pos, sub_ℕ, ◌+ℤ◌, ltb_ℤ, quot, to_u32}
use adaptive_mqtt_transmit_p.Broker.Types.{
  Context, Db, wait_for_pubcomp, Config, Clock, Link, normal_mode, slow_mode,
}
use adaptive_mqtt_transmit_p.Broker.Util.{increment_send_quota, set_mode, is_slow}
use adaptive_mqtt_transmit_p.Broker.Delivery.{Transport, Result}
use adaptive_mqtt_transmit_p.Broker.Ack.{message_delete_outgoing}
use adaptive_mqtt_transmit_p.Broker.Withhold.{write_storage_out}

-- `tmp_lat`, in microseconds: both differences may be negative, and `/` cuts off towards 0.
unfoldable pub latency_of : Clock → Link → ℤ
unfolding ◌+ℤ◌ quot
latency_of clk l =
    sub_ℕ (clk.mono_s * 1_000_000) (l.send_time_s * 1_000_000)
    +ℤ quot (sub_ℕ clk.mono_ns l.send_time_ns) 1_000

unfoldable pub sum_ℤ : List ℤ → ℤ
sum_ℤ [] = pos 0
sum_ℤ (x ∷ xs) = x +ℤ sum_ℤ xs

-- The sample goes to the oldest of the five places.
unfoldable pub record_sample : ℤ → Context → Context
record_sample lat c =
    let slot = c.count_for_lat % 5 in
    record c { lat_pre = set c.lat_pre slot lat; count_for_lat = slot + 1 }

-- The mode for the sample, by the threshold that held when it was taken. A client that is slow
-- already keeps the time at which that began.
unfoldable pub choose_mode : Clock → ℤ → Context → Context
unfolding set_mode
choose_mode clk lat c =
    if ltb_ℤ lat (pos c.threshold_l)
    then record (set_mode c normal_mode) { slow_mode_time = 0 }
    else record (set_mode c slow_mode) {
      slow_mode_time = if is_slow c.mode then c.slow_mode_time else clk.wall_s;
    }

-- The next threshold: the mean of the five samples.
unfoldable pub adapt_threshold : Context → Context
unfolding sum_ℤ quot to_u32
adapt_threshold c = record c { threshold_l = to_u32 (quot (sum_ℤ c.lat_pre) 5) }

-- The measuring client has a message on the topic "latency" under way.
unfoldable pub take_sample : Config → Clock → Context → Context
unfolding latency_of record_sample choose_mode adapt_threshold
take_sample cfg clk c =
    let lat = latency_of clk c.link in
    let c' = adapt_threshold (choose_mode clk lat (record_sample lat c)) in
    let c'' = write_storage_out cfg clk c' in
    record c'' { link = record c''.link { send_time_s = 0 } }

-- `handle__pubackcomp` once the packet has been read and found right: PUBACK with `qos` 1, PUBCOMP
-- with 2. While a send time is noted, every PUBACK is taken for the answer to the measuring message.
unfoldable pub acknowledge : Transport → Clock → Context → Db → ℕ → ℕ → Result
unfolding take_sample
acknowledge t clk c db mid qos =
    let c' = increment_send_quota c in
    let measures = ltb 0 c'.link.send_time_s && qos == 1 in
    message_delete_outgoing t (if measures then take_sample db.config clk c' else c') db mid
      wait_for_pubcomp qos
