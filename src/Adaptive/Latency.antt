-- ===== src/Adaptive/Latency.antt =====
-- How exact the latency of handle__pubackcomp in lib/handle_pubackcomp.c is.
use adaptive_mqtt_transmit_p.Common.{
  ℕ, ◌+◌, ◌-◌, ◌*◌, ◌/◌, ◌≤◌, ◌<◌, ◌≡◌, ◌⊎◌, inl, inr, refl, arith,
}
use adaptive_mqtt_transmit_p.Common.Int.{
  ℤ, pos, negsuc, pos_part, neg_part, sub_ℕ, ◌+ℤ◌, +ℤ_parts, quot,
}
use adaptive_mqtt_transmit_p.Broker.Types.{Clock, Link}
use adaptive_mqtt_transmit_p.Adaptive.{latency_of}

-- A point of the monotonic clock, in nanoseconds.
abbrev pub nanoseconds : ℕ → ℕ → ℕ
nanoseconds s ns = s * 1_000_000_000 + ns

-- The quotient of a difference of two numbers, by its parts.
quot-sub :
    (x y : ℕ)
    → (pos_part (quot (sub_ℕ x y) 1_000) ≡ (x - y) / 1_000)
      × (neg_part (quot (sub_ℕ x y) 1_000) ≡ (y - x) / 1_000)
unfolding quot
quot-sub x y = ground arith

sub-parts : (x y : ℕ) → (pos_part (sub_ℕ x y) ≡ x - y) × (neg_part (sub_ℕ x y) ≡ y - x)
sub-parts x y = ground arith

one_side : (a : ℤ) → (pos_part a ≡ 0) ⊎ (neg_part a ≡ 0)
one_side (pos n) = inr refl
one_side (negsuc n) = inl refl

-- If the clock has not run back since the message was sent, the latency is not negative, and it is
-- the time since then, in microseconds, to within less than one.
pub latency_of-accurate :
    (clk : Clock) (l : Link)
    → clk.mono_ns < 1_000_000_000
    → l.send_time_ns < 1_000_000_000
    → nanoseconds l.send_time_s l.send_time_ns ≤ nanoseconds clk.mono_s clk.mono_ns
    → let elapsed = nanoseconds clk.mono_s clk.mono_ns - nanoseconds l.send_time_s l.send_time_ns in
      (neg_part (latency_of clk l) ≡ 0)
      × ((elapsed < (pos_part (latency_of clk l) + 1) * 1_000)
          × (pos_part (latency_of clk l) * 1_000 < elapsed + 1_000))
unfolding latency_of
latency_of-accurate clk l a b le =
    let s = sub_ℕ (clk.mono_s * 1_000_000) (l.send_time_s * 1_000_000) in
    let q = quot (sub_ℕ clk.mono_ns l.send_time_ns) 1_000 in
    omega (
      arith,
      +ℤ_parts s q,
      one_side (s +ℤ q),
      quot-sub clk.mono_ns l.send_time_ns,
      sub-parts (clk.mono_s * 1_000_000) (l.send_time_s * 1_000_000),
    )
