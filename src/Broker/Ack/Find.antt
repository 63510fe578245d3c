-- ===== src/Broker/Ack/Find.antt =====
-- What the first loop of `db__message_delete_outgoing` finds, and the case rule of the function.
use adaptive_mqtt_transmit_p.Common.{
  ℕ, ◌≡◌, refl, ap, not, ◌&&◌, List, [], ◌∷◌, ◌++◌, ◌==◌, if_rule, length,
}
use adaptive_mqtt_transmit_p.Broker.Types.{ClientMsg, MsgState, Context, Db, protocol}
use adaptive_mqtt_transmit_p.Broker.Store.{msg_store_ref_dec}
use adaptive_mqtt_transmit_p.Broker.Delivery.{Transport, Result, uncount_out, with_inflight}
use adaptive_mqtt_transmit_p.Broker.Ack.{
  Search, missing, mismatch, found, behind, find_acked, state_value, release_and_write,
  message_delete_outgoing,
}

-- A found message splits the list, has the identifier and the QoS, and is the first with it.
abbrev pub Splits : List ClientMsg → Search → Type 0
Splits ms missing = Unit {0}
Splits ms mismatch = Unit {0}
Splits ms (found before m after) = ms ≡ before ++ m ∷ after

Splits-behind :
    (m : ClientMsg) (ms : List ClientMsg) (x : Search) → Splits ms x → Splits (m ∷ ms) (behind m x)
Splits-behind m ms missing h = tt
Splits-behind m ms mismatch h = tt
Splits-behind m ms (found before x after) h = ap (λ l. m ∷ l) h

find_acked-Splits :
    (mid : ℕ) (expect : MsgState) (qos : ℕ) (ms : List ClientMsg)
    → Splits ms (find_acked mid expect qos ms)
unfolding find_acked
find_acked-Splits mid expect qos [] = tt
find_acked-Splits mid expect qos (m ∷ ms) =
    if_rule (Splits (m ∷ ms)) (m.mid == mid)
      (if_rule (Splits (m ∷ ms)) (not (m.qos == qos)) tt (
        if_rule (Splits (m ∷ ms)) (qos == 2 && not (state_value m.state == state_value expect)) tt
          refl))
      (Splits-behind m ms _ (find_acked-Splits mid expect qos ms))

module _ {ℓ} (P : Result → Type ℓ) (t : Transport) (c : Context) (db : Db) (mid : ℕ)
    (expect : MsgState) (qos : ℕ) where
  pub delete_outgoing_cases :
      (find_acked mid expect qos c.msgs_out.inflight ≡ missing
        → P (release_and_write t c db (length c.msgs_out.inflight)))
      → P (c, db, protocol)
      → ((before : List ClientMsg) (m : ClientMsg) (after : List ClientMsg)
          → find_acked mid expect qos c.msgs_out.inflight ≡ found before m after
          → c.msgs_out.inflight ≡ before ++ m ∷ after
          → P (
              release_and_write t
                (uncount_out m (with_inflight c (before ++ after)))
                (msg_store_ref_dec m.store db)
                (length before)))
      → P (message_delete_outgoing t c db mid expect qos)
  unfolding message_delete_outgoing
  delete_outgoing_cases none bad hit =
      go (find_acked mid expect qos c.msgs_out.inflight) refl
        (find_acked-Splits mid expect qos c.msgs_out.inflight)
    where
      go :
          (x : Search)
          → find_acked mid expect qos c.msgs_out.inflight ≡ x
          → Splits c.msgs_out.inflight x
          → P (message_delete_outgoing t c db mid expect qos)
      go missing e s = rw (e, message_delete_outgoing) (none e)
      go mismatch e s = rw (e, message_delete_outgoing) bad
      go (found before m after) e s = rw (e, message_delete_outgoing) (hit before m after e s)
