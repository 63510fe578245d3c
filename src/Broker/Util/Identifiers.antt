-- ===== src/Broker/Util/Identifiers.antt =====
-- The packet identifiers that `mosquitto__mid_generate` of lib/util_mosq.c gives in a row.
use adaptive_mqtt_transmit_p.Common.{
  ℕ, zero, suc, ◌+◌, ◌-◌, ◌%◌, ◌≤◌, ◌<◌, ◌≡◌, ◌≢◌, ◌∙◌, ap, arith,
}
use adaptive_mqtt_transmit_p.Broker.Util.{mid_generate}

-- The identifier after `k` calls.
unfoldable pub mid_after : ℕ → ℕ → ℕ
mid_after zero mid = mid
mid_after (suc k) mid = mid_generate (mid_after k mid)

next_mid : (n : ℕ) → n < 65_535 → mid_generate (n + 1) ≡ (n + 1) % 65_535 + 1
unfolding mid_generate
next_mid n lt = ground (arith, lt)

mid_after_lem : (k mid : ℕ) → 1 ≤ mid → mid ≤ 65_535 → mid_after k mid ≡ (mid - 1 + k) % 65_535 + 1
unfolding mid_after
mid_after_lem zero mid low high = omega (arith, low, high)
mid_after_lem (suc k) mid low high =
    let n = (mid - 1 + k) % 65_535 in
    ap mid_generate (mid_after_lem k mid low high) ∙ next_mid n (omega arith) ∙ omega arith

-- From an identifier between 1 and 65535 every later one is in that range, and the identifier does
-- not come again before 65535 calls.
pub mid_after-distinct :
    (k mid : ℕ)
    → 1 ≤ mid
    → mid ≤ 65_535
    → 0 < k
    → k < 65_535
    → (0 < mid_after k mid) × ((mid_after k mid ≤ 65_535) × (mid_after k mid ≢ mid))
mid_after-distinct k mid low high positive few =
    let e = mid_after_lem k mid low high in
    (omega (arith, e), (omega (arith, e), λ same. omega (arith, e, same, low, high, positive, few)))
