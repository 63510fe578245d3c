-- ===== src/Broker/Insert/Recorded.antt =====
-- Once the identifier of a client is recorded with a stored message, `db__message_insert` and the
-- writes that it makes leave it recorded, however they change the store.
use adaptive_mqtt_transmit_p.Common.{
  ℕ, ◌≡◌, refl, true, false, not, inl, inr, none, some, List, [], ◌∷◌, ◌++◌, All, Bool-cases, arith,
  if_rule, ◌==◌, ap, ◌∙◌, sym,
}
use adaptive_mqtt_transmit_p.Common.Bytes.{Bytes, bytes_eq, bytes_eq_refl}
use adaptive_mqtt_transmit_p.Common.Int.{pos, ◌+ℤ◌, ◌-ℤ◌}
use adaptive_mqtt_transmit_p.Broker.Types.{
  ClientMsg, MsgState, Context, Config, Clock, Db, Stored, Entry, publish_qos0, publish_qos1,
  publish_qos2, resend_pubrel, md_out,
}
use adaptive_mqtt_transmit_p.Broker.Util.{increment_send_quota, is_active}
use adaptive_mqtt_transmit_p.Broker.Store.{
  find_entry, update_entry, unlink_entry, msg_store_ref_dec, msg_store_ref_inc, msg_store_remove,
}
use adaptive_mqtt_transmit_p.Broker.Delivery.{
  Transport, write_queued_out, write_by_state, write_inflight_out_single, write_list,
}
use adaptive_mqtt_transmit_p.Broker.Delivery.Cases.{latest_cases, and_then_rule}
use adaptive_mqtt_transmit_p.Broker.Withhold.{write_storage_out}
use adaptive_mqtt_transmit_p.Broker.Insert.{contains, is_mqtt5, record_dest, write_all_lists}

contains-append : (i : Bytes) (js : List Bytes) → contains i (js ++ i ∷ []) ≡ true
unfolding contains
contains-append i [] = rw (bytes_eq_refl i) refl
contains-append i (j ∷ js) = elim (Bool-cases (bytes_eq j i)) [
  | inl y ↦ rw y refl
  | inr n ↦ rw n (contains-append i js)
]

-- A change that an entry survives is survived by all of them.
All-update_entry :
    (P : Entry → Type 0) (j : ℕ) (f : Entry → Entry) (es : List Entry)
    → ((e : Entry) → P e → P (f e))
    → All P es
    → All P (update_entry j f es)
unfolding update_entry
All-update_entry P j f [] step h = tt
All-update_entry P j f (e ∷ es) step h =
    if_rule (All P) (e.stored.db_id == j) (step e h.0, h.1)
      (h.0, All-update_entry P j f es step h.1)

All-unlink_entry :
    (P : Entry → Type 0) (j : ℕ) (es : List Entry) → All P es → All P (unlink_entry j es)
unfolding unlink_entry
All-unlink_entry P j [] h = tt
All-unlink_entry P j (e ∷ es) h =
    if_rule (All P) (e.stored.db_id == j) h.1 (h.0, All-unlink_entry P j es h.1)

unlink-update :
    (j : ℕ) (f : Entry → Entry) (es : List Entry)
    → ((e : Entry) → (f e).stored ≡ e.stored)
    → unlink_entry j (update_entry j f es) ≡ unlink_entry j es
unfolding unlink_entry update_entry
unlink-update j f [] k = refl
unlink-update j f (e ∷ es) k = elim (Bool-cases (e.stored.db_id == j)) [
  | inl y ↦ rw y (rw (k e) (rw y refl))
  | inr n ↦ rw n (rw n (ap (λ fs. e ∷ fs) (unlink-update j f es k)))
]

module _ (i : Bytes) (id : ℕ) where
  -- An entry of the message has the client's identifier.
  abbrev pub HasIdentifier : Entry → Type 0
  HasIdentifier e = (e.stored.db_id == id) ≡ true → contains i e.dest_ids ≡ true

  not_found-HasIdentifier : (es : List Entry) → find_entry id es ≡ none → All HasIdentifier es
  unfolding find_entry
  not_found-HasIdentifier [] h = tt
  not_found-HasIdentifier (e ∷ es) h = elim (Bool-cases (e.stored.db_id == id)) [
    | inl y ↦ cc
    | inr n ↦ (λ y. cc, not_found-HasIdentifier es (rw (sym h, n) refl))
  ]

  pub found-HasIdentifier :
      (es : List Entry) (e : Entry)
      → find_entry id es ≡ some e
      → All HasIdentifier es
      → contains i e.dest_ids ≡ true
  unfolding find_entry
  found-HasIdentifier [] e f h = cc
  found-HasIdentifier (g ∷ es) e f h = elim (Bool-cases (g.stored.db_id == id)) [
    | inl y ↦ let p = h.0 y in cc
    | inr n ↦ let p = found-HasIdentifier es e (rw (sym f, n) refl) h.1 in cc
  ]

  recorded-HasIdentifier :
      (es : List Entry)
      → find_entry id (unlink_entry id es) ≡ none
      → All HasIdentifier (update_entry id (λ e. record e { dest_ids = e.dest_ids ++ i ∷ [] }) es)
  unfolding update_entry unlink_entry find_entry
  recorded-HasIdentifier [] one = tt
  recorded-HasIdentifier (e ∷ es) one = elim (Bool-cases (e.stored.db_id == id)) [
    | inl y ↦
        rw y (λ _. contains-append i e.dest_ids, not_found-HasIdentifier es (rw (sym one, y) refl))
    | inr n ↦ rw n (λ y. cc, recorded-HasIdentifier es (rw (sym one, n, n) refl))
  ]

  -- The client has the identifier, does not speak MQTT 5, and is recorded with the message, in a
  -- broker that does not send duplicates.
  abbrev pub Had : Context → Db → Type 0
  Had c db =
      (c.id ≡ some i)
      × (is_mqtt5 c.protocol_version ≡ false)
      × (db.config.allow_duplicate_messages ≡ false)
      × All HasIdentifier db.msg_store

  ref_dec-Had : (s : Stored) (c : Context) (db : Db) → Had c db → Had c (msg_store_ref_dec s db)
  unfolding msg_store_ref_dec msg_store_remove
  ref_dec-Had s c db (named, old, once, all) =
      let fewer : Entry → Entry = λ e. record e { ref_count = e.ref_count -ℤ pos 1 } in
      let less = All-update_entry HasIdentifier s.db_id fewer db.msg_store (λ e p. p) all in
      if_rule (λ (db' : Db). Had c db') _
        (
          named,
          old,
          once,
          All-unlink_entry HasIdentifier s.db_id (update_entry s.db_id fewer db.msg_store) less,
        )
        (named, old, once, less)

  write_by_state-Had :
      (t : Transport) (s : MsgState) (c : Context) (db : Db) (m : ClientMsg)
      → Had c db
      → let o = write_by_state t s c db m in Had o.ctx o.db
  unfolding write_by_state
  write_by_state-Had t publish_qos0 c db m h = ground (arith, ref_dec-Had m.store c db h)
  write_by_state-Had t publish_qos1 c db m h = ground (arith, ref_dec-Had m.store c db h)
  write_by_state-Had t publish_qos2 c db m h = ground (arith, ref_dec-Had m.store c db h)
  write_by_state-Had t resend_pubrel c db m h = ground (arith, ref_dec-Had m.store c db h)
  write_by_state-Had t _ c db m h = h

  single-Had :
      (t : Transport) (c : Context) (db : Db) (m : ClientMsg)
      → Had c db
      → let o = write_inflight_out_single t c db m in Had o.ctx o.db
  unfolding write_inflight_out_single increment_send_quota
  single-Had t c db m h =
      ground (arith, write_by_state-Had t m.state c db m h, ref_dec-Had m.store c db h)

  write_list-Had :
      (t : Transport) (c : Context) (db : Db) (ms : List ClientMsg)
      → Had c db
      → let w = write_list t c db ms in Had w.ctx w.db
  unfolding write_list
  write_list-Had t c db [] h = h
  write_list-Had t c db (m ∷ rest) h =
      let o = write_inflight_out_single t c db m in
      let p = single-Had t c db m h in ground (arith, p, write_list-Had t o.ctx o.db rest p)

  pub write_all_lists-Had :
      (t : Transport) (cfg : Config) (clk : Clock) (c : Context) (db : Db)
      → Had c db
      → let x = write_all_lists t cfg clk c db in Had x.0 x.1
  unfolding write_all_lists write_storage_out write_queued_out
  write_all_lists-Had t cfg clk c db h =
      and_then_rule (λ x. Had x.0 x.1) _ _
        (latest_cases (λ x. Had x.0 x.1) t c db h λ front back e. write_list-Had t c db back h)
        λ c' db' w.
          let moved = if_rule (λ (d : Context). Had d db') (not (is_active c'.state)) w w in
          if_rule (λ (d : Context). Had d db') (not (is_active (write_queued_out c').state)) moved
            moved

-- Recording the identifier with the only entry of the message.
pub record_dest-HasIdentifier :
    (i : Bytes) (s : Stored) (db : Db)
    → db.config.allow_duplicate_messages ≡ false
    → find_entry s.db_id (unlink_entry s.db_id db.msg_store) ≡ none
    → All
        (HasIdentifier i s.db_id)
        (record_dest i md_out false s (msg_store_ref_inc s db)).msg_store
unfolding msg_store_ref_inc
record_dest-HasIdentifier i s db once one =
    let counted : Entry → Entry = λ e. record e { ref_count = e.ref_count +ℤ pos 1 } in
    rw once (
      recorded-HasIdentifier i s.db_id (update_entry s.db_id counted db.msg_store)
        (ap (find_entry s.db_id) (unlink-update s.db_id counted db.msg_store (λ e. refl)) ∙ one))
