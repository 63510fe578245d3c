-- ===== src/Adaptive/Window.antt =====
-- The window of the last five samples in handle__pubackcomp of lib/handle_pubackcomp.c, from which
-- the next threshold is computed.
use adaptive_mqtt_transmit_p.Common.{
  ℕ, zero, suc, ◌+◌, ◌%◌, ◌<◌, ◌≡◌, ap, List, [], ◌∷◌, arith, length, set,
}
use adaptive_mqtt_transmit_p.Common.Int.{ℤ, int_laws, quot, to_u32}
use adaptive_mqtt_transmit_p.Broker.Types.{Context}
use adaptive_mqtt_transmit_p.Adaptive.{sum_ℤ, record_sample, adapt_threshold}

-- A run of samples, each recorded in its turn.
abbrev pub record_samples : List ℤ → Context → Context
record_samples [] c = c
record_samples (x ∷ xs) c = record_samples xs (record_sample x c)

after : ℕ → ℕ
after n = (n + 1) % 5

-- The window after five samples, the first of them in place `n`.
module _ (v w x y z : ℤ) where
  filled : List ℤ → ℕ → List ℤ
  unfolding after
  filled l n =
      set (set (set (set (set l n v) (after n) w) (after (after n)) x) (after (after (after n))) y)
        (after (after (after (after n)))) z

  sum-filled :
      (l : List ℤ) (n : ℕ)
      → length l ≡ 5
      → n < 5
      → sum_ℤ (filled l n) ≡ sum_ℤ (v ∷ w ∷ x ∷ y ∷ z ∷ [])
  unfolding filled sum_ℤ
  sum-filled (a ∷ b ∷ c ∷ d ∷ e ∷ []) zero h lt = omega int_laws
  sum-filled (a ∷ b ∷ c ∷ d ∷ e ∷ []) (suc zero) h lt = omega int_laws
  sum-filled (a ∷ b ∷ c ∷ d ∷ e ∷ []) (suc (suc zero)) h lt = omega int_laws
  sum-filled (a ∷ b ∷ c ∷ d ∷ e ∷ []) (suc (suc (suc zero))) h lt = omega int_laws
  sum-filled (a ∷ b ∷ c ∷ d ∷ e ∷ []) (suc (suc (suc (suc zero)))) h lt = omega int_laws
  sum-filled (a ∷ b ∷ c ∷ d ∷ e ∷ []) (suc (suc (suc (suc (suc n))))) h lt = omega int_laws
  sum-filled [] n h lt = omega int_laws
  sum-filled (a ∷ []) n h lt = omega int_laws
  sum-filled (a ∷ b ∷ []) n h lt = omega int_laws
  sum-filled (a ∷ b ∷ c ∷ []) n h lt = omega int_laws
  sum-filled (a ∷ b ∷ c ∷ d ∷ []) n h lt = omega int_laws
  sum-filled (a ∷ b ∷ c ∷ d ∷ e ∷ f ∷ l) n h lt = omega int_laws

-- Whatever the window held and wherever the next sample goes, five samples in a row fill it, and
-- the threshold that follows is the mean of these five.
pub adapt_threshold-five :
    (v w x y z : ℤ) (c : Context)
    → length c.lat_pre ≡ 5
    → (adapt_threshold (record_samples (v ∷ w ∷ x ∷ y ∷ z ∷ []) c)).threshold_l
      ≡ to_u32 (quot (sum_ℤ (v ∷ w ∷ x ∷ y ∷ z ∷ [])) 5)
unfolding adapt_threshold record_sample filled
adapt_threshold-five v w x y z c h =
    ap (λ t. to_u32 (quot t 5))
      (sum-filled v w x y z c.lat_pre (c.count_for_lat % 5) h (omega arith))
