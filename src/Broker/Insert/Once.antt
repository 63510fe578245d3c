-- ===== src/Broker/Insert/Once.antt =====
-- A message goes to a client once: the identifiers that `db__message_insert` records with a stored
-- message keep a second copy away.
use adaptive_mqtt_transmit_p.Common.{
  ℕ, ◌≡◌, ◌⊎◌, refl, ◌∙◌, ap, Bool, true, false, inl, inr, Option, none, some, List, [], if_rule,
  ltb,
}
use adaptive_mqtt_transmit_p.Common.Bytes.{Bytes}
use adaptive_mqtt_transmit_p.Broker.Types.{
  Context, Config, Clock, Db, Stored, Entry, md_out, MsgState, queued_state, TransferMode, Rc,
  success, Bridge,
}
use adaptive_mqtt_transmit_p.Broker.Util.{decrement_send_quota}
use adaptive_mqtt_transmit_p.Broker.Flow.{with_msgs}
use adaptive_mqtt_transmit_p.Broker.Queues.{count_msg}
use adaptive_mqtt_transmit_p.Broker.Store.{find_entry, unlink_entry, msg_store_ref_inc}
use adaptive_mqtt_transmit_p.Broker.Insert.Recorded.{
  Had, found-HasIdentifier, write_all_lists-Had, record_dest-HasIdentifier,
}
use adaptive_mqtt_transmit_p.Broker.Delivery.{Transport, Result}
use adaptive_mqtt_transmit_p.Broker.Insert.Cases.{insert_cases, checked_mode_only}
use adaptive_mqtt_transmit_p.Broker.Insert.Policy.{SameLists, same_lists}
use adaptive_mqtt_transmit_p.Broker.Insert.{
  contains, dest_ids_of, already_sent, is_mqtt5, accept, wake_bridge, new_msg, append_msg,
  message_insert, write_all_lists, dropped, insert_for, insert_taken, count_change,
}

-- What the client keeps when it accepts a message.
record SameClient (c d : Context) : Type 0 where
  id : c.id ≡ d.id
  version : c.protocol_version ≡ d.protocol_version

SameClient-wake_bridge : (b : Option Bridge) (c : Context) → SameClient (wake_bridge b c) c
unfolding wake_bridge
SameClient-wake_bridge none c = record { id = refl; version = refl }
SameClient-wake_bridge (some br) c =
    if_rule (λ (d : Context). SameClient d c) _ (record { id = refl; version = refl })
      (record { id = refl; version = refl })

SameClient-accept :
    (i : Bytes) (c : Context) (db : Db) (clk : Clock) (mid qos : ℕ) (s : Stored) (st : MsgState)
    → SameClient (accept i c db clk mid md_out qos false s st).0 c
unfolding accept decrement_send_quota
SameClient-accept i c db clk mid qos s st =
    let m = new_msg c db clk mid md_out qos false s st in
    let d = count_msg qos s.payloadlen (append_msg m st c.msgs_out) in
    let w = SameClient-wake_bridge c.bridge (with_msgs c md_out d) in
    if_rule (λ (c' : Context). SameClient c' c) (ltb 0 m.qos)
      (record { id = w.id; version = w.version }) (record { id = w.id; version = w.version })

config-accept :
    (i : Bytes) (c : Context) (db : Db) (clk : Clock) (mid qos : ℕ) (s : Stored) (st : MsgState)
    → (accept i c db clk mid md_out qos false s st).1.config ≡ db.config
unfolding accept msg_store_ref_inc
config-accept i c db clk mid qos s st = if_rule (λ (d : Db). d.config ≡ db.config) _ refl refl

already_sent-contains :
    (i : Bytes) (c : Context) (db : Db) (s : Stored)
    → is_mqtt5 c.protocol_version ≡ false
    → db.config.allow_duplicate_messages ≡ false
    → contains i (dest_ids_of s db) ≡ true
    → already_sent c i md_out false s db ≡ true
unfolding already_sent
already_sent-contains i c db s old once h = simp (old, once, h) refl

module _ (i : Bytes) (s : Stored) where
  -- The client and the database after the message has been accepted.
  accept-Had :
      (c : Context) (db : Db) (clk : Clock) (mid qos : ℕ) (st : MsgState)
      → c.id ≡ some i
      → is_mqtt5 c.protocol_version ≡ false
      → db.config.allow_duplicate_messages ≡ false
      → find_entry s.db_id (unlink_entry s.db_id db.msg_store) ≡ none
      → let (c', db') = accept i c db clk mid md_out qos false s st in Had i s.db_id c' db'
  unfolding accept
  accept-Had c db clk mid qos st named old once one =
      let same = SameClient-accept i c db clk mid qos s st in
      (
        same.id ∙ named,
        ap is_mqtt5 same.version ∙ old,
        ap (λ (g : Config). g.allow_duplicate_messages) (config-accept i c db clk mid qos s st)
            ∙ once,
        record_dest-HasIdentifier i s db once one,
      )

  -- A call for a message that the client has had changes nothing.
  second_rule :
      (P : Result → Type 0) (t : Transport) (c : Context) (db : Db) (clk : Clock) (mid qos : ℕ)
      (update : Bool)
      → c.id ≡ some i
      → already_sent c i md_out false s db ≡ true
      → P (c, db, success)
      → P (message_insert t c db clk mid md_out qos false s update)
  unfolding message_insert insert_for
  second_rule P t c db clk mid qos update named again p =
      rw (named, message_insert) (rw (again, insert_for) p)

  -- A call for a message that the client has had, and that is in the store, changes nothing.
  second-unchanged :
      (t : Transport) (c : Context) (db : Db) (clk : Clock) (mid qos : ℕ) (update : Bool)
      (e : Entry)
      → Had i s.db_id c db
      → find_entry s.db_id db.msg_store ≡ some e
      → message_insert t c db clk mid md_out qos false s update ≡ (c, db, success)
  second-unchanged t c db clk mid qos update e (named, old, once, all) there =
      let has = found-HasIdentifier i s.db_id db.msg_store e there all in
      let ids : Option Entry → List Bytes = λ o. elim o [ none ↦ [] | some f ↦ f.dest_ids ] in
      let again =
        already_sent-contains i c db s old once (ap (λ o. contains i (ids o)) there ∙ has) in
      second_rule (λ x. x ≡ (c, db, success)) t c db clk mid qos update named again refl

same-count_change :
    (st : MsgState) (db : Db)
    → ((count_change st db).msg_store ≡ db.msg_store) × ((count_change st db).config ≡ db.config)
same-count_change queued_state db = (refl, refl)
same-count_change _ db = (refl, refl)

module _ (t t' : Transport) (c : Context) (db : Db) (clk clk' : Clock) (mid mid' qos qos' : ℕ)
    (update update' : Bool) (s : Stored) (old : is_mqtt5 c.protocol_version ≡ false)
    (once : db.config.allow_duplicate_messages ≡ false)
    (one : find_entry s.db_id (unlink_entry s.db_id db.msg_store) ≡ none) (e : Entry) where
  AtMostOnce : Result → Type 0
  AtMostOnce (c', db', r) =
      find_entry s.db_id db'.msg_store ≡ some e
      → SameLists c'.msgs_out c.msgs_out
        ⊎ (message_insert t' c' db' clk' mid' md_out qos' false s update' ≡ (c', db', success))

  taken-AtMostOnce :
      (m : TransferMode) (i : Bytes) (st : MsgState) (r : Rc)
      → c.id ≡ some i
      → AtMostOnce
          (insert_taken t i (record c { mode = m }) db clk mid md_out qos false s update st r)
  unfolding insert_taken AtMostOnce
  taken-AtMostOnce m i st r named =
      let c1 = record c { mode = m } in
      let db1 = count_change st db in
      let (c2, db2) = accept i c1 db1 clk mid md_out qos false s st in
      let (store, config) = same-count_change st db in
      let had =
        accept-Had i s c1 db1 clk mid qos st named old
          (ap (λ (g : Config). g.allow_duplicate_messages) config ∙ once)
          (ap (λ es. find_entry s.db_id (unlink_entry s.db_id es)) store ∙ one) in
      let second : (x : Result) → Had i s.db_id x.0 x.1 → AtMostOnce x =
        λ x h there. inr (second-unchanged i s t' x.0 x.1 clk' mid' qos' update' e h there) in
      if_rule AtMostOnce update
        (second (write_all_lists t db.config clk c2 db2)
          (write_all_lists-Had i s.db_id t db.config clk c2 db2 had))
        (second (c2, db2, r) had)

  -- Of two calls for the same stored message and the same client at most one changes the client's
  -- outgoing lists: either the first call has left them as they were, or the second, with whatever
  -- other arguments, changes nothing and succeeds. The first call may write at once. This holds for
  -- a client that does not speak MQTT 5 and an outgoing message that is not a stale retained one,
  -- when duplicates are not allowed, no two entries of the store are of the message, and it is still
  -- in the store after the first call.
  pub message_insert-once :
      find_entry s.db_id (message_insert t c db clk mid md_out qos false s update).1.msg_store
        ≡ some e
      → let (c', db', r) = message_insert t c db clk mid md_out qos false s update in
        SameLists c'.msgs_out c.msgs_out
        ⊎ (message_insert t' c' db' clk' mid' md_out qos' false s update' ≡ (c', db', success))
  unfolding AtMostOnce
  message_insert-once =
      insert_cases AtMostOnce t c db clk mid md_out qos false s update
        (λ r _. inl (same_lists _ _ refl refl refl))
        (λ r.
          checked_mode_only (λ c'. AtMostOnce (c', db, r)) clk c
            λ m _. inl (same_lists _ _ refl refl refl))
        (checked_mode_only (λ c'. AtMostOnce (dropped c' db)) clk c
          λ m _. inl (same_lists _ _ refl refl refl))
        λ i st r named _ _.
          checked_mode_only
            (λ c'. AtMostOnce (insert_taken t i c' db clk mid md_out qos false s update st r)) clk c
            λ m. taken-AtMostOnce m i st r named
