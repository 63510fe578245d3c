-- ===== src/Broker/Incoming.antt =====
-- Messages that a client publishes: `db__message_store_find` and `db__message_remove_incoming` of
-- src/database.c.
pub mod Lost
use adaptive_mqtt_transmit_p.Common.{
  ℕ, not, Option, none, some, List, [], ◌∷◌, ◌++◌, ◌==◌, if◌then◌else◌,
}
use adaptive_mqtt_transmit_p.Broker.Types.{
  Context, ClientMsg, MsgData, Db, Stored, Rc, success, nomem, protocol, not_found,
}
use adaptive_mqtt_transmit_p.Broker.Store.{msg_store_ref_dec}
use adaptive_mqtt_transmit_p.Broker.Queues.{uncount}
use adaptive_mqtt_transmit_p.Broker.Ack.{Search, missing, mismatch, found, behind}

find_source : ℕ → List ClientMsg → Option Stored
find_source mid [] = none
find_source mid (m ∷ ms) = if m.store.source_mid == mid then some m.store else find_source mid ms

-- The search of `db__message_store_find` in the incoming messages.
unfoldable pub find_in : ℕ → MsgData → Option Stored × Rc
unfolding find_source
find_in mid d = elim (find_source mid d.inflight) [
  | some s ↦ (some s, success)
  | none ↦ elim (find_source mid d.queued) [ some s ↦ (some s, success) | none ↦ (none, nomem) ]
]

-- `db__message_store_find`
unfoldable pub message_store_find : Context → ℕ → Option Stored × Rc
unfolding find_in
message_store_find c mid = find_in mid c.msgs_in

-- The loop of `db__message_remove_incoming` up to the message with the identifier.
find_incoming : ℕ → List ClientMsg → Search
find_incoming mid [] = missing
find_incoming mid (m ∷ ms) =
    if m.mid == mid
    then (if not (m.store.qos == 2) then mismatch else found [] m ms)
    else behind m (find_incoming mid ms)

-- `db__message_remove_incoming`
unfoldable pub message_remove_incoming : Context → Db → ℕ → Context × Db × Rc
unfolding find_incoming uncount
message_remove_incoming c db mid = elim (find_incoming mid c.msgs_in.inflight) [
  | missing ↦ (c, db, not_found)
  | mismatch ↦ (c, db, protocol)
  | found before m after ↦ (
    record c { msgs_in = uncount m (record c.msgs_in { inflight = before ++ after }) },
    msg_store_ref_dec m.store db,
    success,
  )
]
