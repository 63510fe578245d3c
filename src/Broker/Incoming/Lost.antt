-- ===== src/Broker/Incoming/Lost.antt =====
-- A large message that a client in slow mode publishes is withheld like one for the client.
use adaptive_mqtt_transmit_p.Common.{ℕ, ◌≡◌, ◌≢◌, ap, Bool, true, false, some, [], ◌∷◌, ◌++◌, arith}
use adaptive_mqtt_transmit_p.Common.Bytes.{Bytes}
use adaptive_mqtt_transmit_p.Broker.Types.{
  Context, Clock, Db, Stored, MsgData, success, md_in, disused, storage_state,
}
use adaptive_mqtt_transmit_p.Broker.Flow.{with_msgs}
use adaptive_mqtt_transmit_p.Broker.Queues.{count_msg}
use adaptive_mqtt_transmit_p.Broker.Delivery.{Transport}
use adaptive_mqtt_transmit_p.Broker.Withhold.{expire_slow_mode}
use adaptive_mqtt_transmit_p.Broker.Insert.{
  already_sent, new_msg, append_msg, accept, insert_taken, insert_decided, message_insert,
}
use adaptive_mqtt_transmit_p.Broker.Insert.Waits.{MustWait, withholds_iff, decide-withheld}
use adaptive_mqtt_transmit_p.Broker.Insert.Policy.{online_rule, expired_rule}
use adaptive_mqtt_transmit_p.Broker.Counts.Insert.{msgs-wake_bridge}
use adaptive_mqtt_transmit_p.Broker.Incoming.{find_in, message_store_find}

already_sent-in :
    (c : Context) (i : Bytes) (retain : Bool) (s : Stored) (db : Db)
    → already_sent c i md_in retain s db ≡ false
unfolding already_sent
already_sent-in c i retain s db = ground arith

module _ (t : Transport) (c : Context) (db : Db) (clk : Clock) (mid : ℕ) (qos : ℕ) (retain : Bool)
    (s : Stored) (update : Bool) (i : Bytes) (named : c.id ≡ some i) (on : c.sock_valid ≡ true)
    (live : c.state ≢ disused) where
  -- The incoming messages with the new one in storage.
  stored_in : MsgData
  stored_in =
      let m = new_msg c db clk mid md_in qos retain s storage_state in
      count_msg qos s.payloadlen (record c.msgs_in { storage = c.msgs_in.storage ++ m ∷ [] })

  inserted-in :
      MustWait db.config clk c s
      → (message_insert t c db clk mid md_in qos retain s update).0.msgs_in ≡ stored_in
  unfolding stored_in insert_decided insert_taken accept append_msg
  inserted-in w =
      let connected = expired_rule (λ c'. c'.sock_valid ≡ true) clk c (λ m. on) in
      online_rule (λ r. r.0.msgs_in ≡ stored_in) t i c db clk mid md_in qos retain s update named on
        (already_sent-in c i retain s db)
        (rw
          (decide-withheld db.config (expire_slow_mode clk c) md_in qos s connected
            ((withholds_iff db.config clk c s live).1 w))
          (expired_rule
            (λ c'.
              (insert_taken t i c' db clk mid md_in qos retain s update storage_state
                success).0.msgs_in
              ≡ stored_in)
            clk c
            λ m.
              msgs-wake_bridge c.bridge (with_msgs (record c { mode = m }) md_in stored_in) md_in))

  -- A message that must wait and comes from the client goes to the storage of its incoming
  -- messages, and so no search for a stored message by its identifier finds it: each gives what it
  -- gave before. This holds for a connected client with an identifier whose state is not final.
  pub withheld_incoming_is_lost :
      (sought : ℕ)
      → MustWait db.config clk c s
      → let c' = (message_insert t c db clk mid md_in qos retain s update).0 in
        let m = new_msg c db clk mid md_in qos retain s storage_state in
        (c'.msgs_in.storage ≡ c.msgs_in.storage ++ m ∷ [])
        × (message_store_find c' sought ≡ message_store_find c sought)
  unfolding message_store_find find_in stored_in count_msg
  withheld_incoming_is_lost sought w =
      let e = inserted-in w in (ap (λ (d : MsgData). d.storage) e, ap (find_in sought) e)
