-- ===== src/Examples/Samples.antt =====
-- The examples for the latency and the threshold of lib/handle_pubackcomp.c.
use adaptive_mqtt_transmit_p.Common.{◌+◌, ◌*◌, ◌<◌, ◌≡◌, ◌↔◌, refl, arith, [], ◌∷◌}
use adaptive_mqtt_transmit_p.Common.Int.{pos, negsuc, pos_part, neg_part, ◌+ℤ◌, ◌≤ℤ◌, quot, to_u32}
use adaptive_mqtt_transmit_p.Broker.Types.{slow_mode, normal_mode}
use adaptive_mqtt_transmit_p.Broker.Withhold.Release.{release}
use adaptive_mqtt_transmit_p.Adaptive.{latency_of, take_sample, adapt_threshold, sum_ℤ}
use adaptive_mqtt_transmit_p.Adaptive.Latency.{latency_of-accurate}
use adaptive_mqtt_transmit_p.Adaptive.Window.{adapt_threshold-five, record_samples}
use adaptive_mqtt_transmit_p.Adaptive.Sample.{take_sample-slow_iff, take_sample-releases}
use adaptive_mqtt_transmit_p.Examples.{clock, config, subscriber, withheld_messages, full_messages}

measured : latency_of clock (subscriber full_messages slow_mode).link ≡ pos 400_000
unfolding latency_of quot ◌+ℤ◌
measured = refl

latency_of-accurate_example :
    let lat = latency_of clock (subscriber full_messages slow_mode).link in
    (neg_part lat ≡ 0)
    × ((400_000_000 < (pos_part lat + 1) * 1_000) × (pos_part lat * 1_000 < 400_000_000 + 1_000))
latency_of-accurate_example =
    latency_of-accurate clock (subscriber full_messages slow_mode).link (omega arith) (omega arith)
      (omega arith)

take_sample-slow_iff_example :
    let c = subscriber full_messages normal_mode in
    ((take_sample config clock c).mode ≡ slow_mode) ↔ (pos 400_000 ≤ℤ latency_of clock c.link)
take_sample-slow_iff_example =
    take_sample-slow_iff config clock (subscriber full_messages normal_mode) refl

take_sample-releases_example :
    let c = record (subscriber withheld_messages slow_mode) { threshold_l = 500_000 } in
    let d = withheld_messages in
    ((take_sample config clock c).mode ≡ normal_mode)
    × ((take_sample config clock c).msgs_out ≡ release 2 d.storage [] d)
unfolding latency_of quot ◌+ℤ◌
take_sample-releases_example =
    take_sample-releases config clock
      (record (subscriber withheld_messages slow_mode) { threshold_l = 500_000 }) refl refl

adapt_threshold-five_example :
    (adapt_threshold (
      record_samples
        (pos 10 ∷ pos 20 ∷ pos 30 ∷ pos 40 ∷ negsuc 4 ∷ [])
        (subscriber full_messages slow_mode))).threshold_l
    ≡ 19
unfolding quot ◌+ℤ◌ sum_ℤ to_u32
adapt_threshold-five_example =
    adapt_threshold-five (pos 10) (pos 20) (pos 30) (pos 40) (negsuc 4)
      (subscriber full_messages slow_mode) refl
