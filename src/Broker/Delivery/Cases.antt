-- ===== src/Broker/Delivery/Cases.antt =====
-- Case rules for the functions that write messages out.
use adaptive_mqtt_transmit_p.Common.{
  ◌≡◌, refl, not, ◌||◌, inl, inr, List, [], ◌∷◌, ◌++◌, arith, Bool-cases,
}
use adaptive_mqtt_transmit_p.Broker.Types.{ClientMsg, Context, Db, success}
use adaptive_mqtt_transmit_p.Broker.Util.{is_active}
use adaptive_mqtt_transmit_p.Broker.Delivery.{
  Transport, Result, walked, and_then, write_list, split_publish, split_latest,
  write_inflight_out_all, write_inflight_out_latest,
}

split_publish-append :
    (ms : List ClientMsg) → let (front, back) = split_publish ms in front ++ back ≡ ms
unfolding split_publish
split_publish-append [] = refl
split_publish-append (m ∷ ms) = ground (arith, split_publish-append ms)

split_latest-append :
    (ms : List ClientMsg) → let (front, back) = split_latest ms in front ++ back ≡ ms
unfolding split_latest
split_latest-append [] = refl
split_latest-append (m ∷ ms) = ground (arith, split_publish-append ms)

module _ {ℓ} (P : Result → Type ℓ) (t : Transport) (c : Context) (db : Db) where
  pub latest_cases :
      P (c, db, success)
      → ((front back : List ClientMsg)
          → front ++ back ≡ c.msgs_out.inflight
          → P (walked front (write_list t c db back)))
      → P (write_inflight_out_latest t c db)
  unfolding write_inflight_out_latest
  latest_cases idle walks = elim (Bool-cases (not (is_active c.state) || not c.sock_valid)) [
    | inl e ↦ rw e idle
    | inr e ↦ rw e (walks _ _ (split_latest-append c.msgs_out.inflight))
  ]

  pub all_cases :
      P (c, db, success)
      → P (walked [] (write_list t c db c.msgs_out.inflight))
      → P (write_inflight_out_all t c db)
  unfolding write_inflight_out_all
  all_cases idle walks = elim (Bool-cases (not (is_active c.state) || not c.sock_valid)) [
    | inl e ↦ rw e idle
    | inr e ↦ rw e walks
  ]

pub and_then_rule {ℓ} :
    (P : Result → Type ℓ) (r : Result) (f : Context → Context)
    → P r
    → ((c : Context) (db : Db) → P (c, db, success) → P (f c, db, success))
    → P (and_then r f)
unfolding and_then
and_then_rule P (c, db, success) f h step = step c db h
and_then_rule P (c, db, r) f h step = h
