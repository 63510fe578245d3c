-- ===== src/Broker/Store.antt =====
-- The message store of src/database.c: a list of stored messages with reference counts.
-- An entry stands for one `struct mosquitto_msg_store` on the list `db.msg_store`; freeing it takes
-- it off the list.
pub mod Lookup
pub mod Counters
use adaptive_mqtt_transmit_p.Common.{
  ℕ, ◌+◌, Bool, false, Option, none, some, List, [], ◌∷◌, ltb, ◌==◌, if◌then◌else◌,
}
use adaptive_mqtt_transmit_p.Common.Int.{pos, ◌+ℤ◌, ◌-ℤ◌, ltb_ℤ}
use adaptive_mqtt_transmit_p.Broker.Types.{Stored, Entry, Db}

-- The entry behind a pointer.
unfoldable pub find_entry : ℕ → List Entry → Option Entry
find_entry i [] = none
find_entry i (e ∷ es) = if e.stored.db_id == i then some e else find_entry i es

unfoldable pub update_entry : ℕ → (Entry → Entry) → List Entry → List Entry
update_entry i f [] = []
update_entry i f (e ∷ es) = if e.stored.db_id == i then f e ∷ es else e ∷ update_entry i f es

unfoldable pub unlink_entry : ℕ → List Entry → List Entry
unlink_entry i [] = []
unlink_entry i (e ∷ es) = if e.stored.db_id == i then es else e ∷ unlink_entry i es

-- `db__msg_store_add`: a new entry goes to the head.
unfoldable pub msg_store_add : Entry → Db → Db
msg_store_add e db = record db { msg_store = e ∷ db.msg_store }

-- `db__msg_store_remove`, with the `db__msg_store_free` at its end.
unfoldable pub msg_store_remove : Stored → Db → Db
unfolding unlink_entry
msg_store_remove s db = record db {
  msg_store = unlink_entry s.db_id db.msg_store;
  msg_store_count = db.msg_store_count -ℤ pos 1;
  msg_store_bytes = db.msg_store_bytes -ℤ pos s.payloadlen;
}

remove_all : List Entry → Db → Db
remove_all [] db = db
remove_all (e ∷ es) db = remove_all es (msg_store_remove e.stored db)

-- `db__msg_store_clean`
unfoldable pub msg_store_clean : Db → Db
unfolding remove_all
msg_store_clean db = remove_all db.msg_store db

-- `db__msg_store_ref_inc`
unfoldable pub msg_store_ref_inc : Stored → Db → Db
unfolding update_entry
msg_store_ref_inc s db = record db {
  msg_store =
      update_entry s.db_id (λ e. record e { ref_count = e.ref_count +ℤ pos 1 }) db.msg_store;
}

-- The test that `db__msg_store_ref_dec` makes after it has counted down.
is_unreferenced : Option Entry → Bool
is_unreferenced none = false
is_unreferenced (some e) = elim e.ref_count [ pos n ↦ n == 0 | _ ↦ false ]

-- `db__msg_store_ref_dec`
unfoldable pub msg_store_ref_dec : Stored → Db → Db
unfolding update_entry is_unreferenced find_entry
msg_store_ref_dec s db =
    let fewer =
      update_entry s.db_id (λ e. record e { ref_count = e.ref_count -ℤ pos 1 }) db.msg_store in
    let db' = record db { msg_store = fewer } in
    if is_unreferenced (find_entry s.db_id fewer) then msg_store_remove s db' else db'

-- The test `store->ref_count < 1`.
unfoldable pub is_free : Entry → Bool
is_free e = ltb_ℤ e.ref_count (pos 1)

unfoldable pub compact_from : List Entry → Db → Db
compact_from [] db = db
compact_from (e ∷ es) db = compact_from es (if is_free e then msg_store_remove e.stored db else db)

-- `db__msg_store_compact`
unfoldable pub msg_store_compact : Db → Db
unfolding compact_from
msg_store_compact db = compact_from db.msg_store db

-- `db__message_store`, for a caller that has filled in the message. `source_id` and the rest of
-- the source are fields of the argument; `mosquitto__strdup` is taken to succeed.
unfoldable pub message_store : Stored → ℕ → ℕ → Db → Stored × Db
unfolding msg_store_add
message_store s message_expiry_interval store_id db =
    let expiry =
      if ltb 0 message_expiry_interval then db.now_real_s + message_expiry_interval else 0 in
    let db_id = if store_id == 0 then db.last_db_id + 1 else store_id in
    let last = if store_id == 0 then db.last_db_id + 1 else db.last_db_id in
    let s' : Stored = record s { message_expiry_time = expiry; db_id = db_id } in
    let entry : Entry = record { stored = s'; ref_count = pos 0; dest_ids = [] } in
    (
      s',
      msg_store_add entry (record db {
        msg_store_count = db.msg_store_count +ℤ pos 1;
        msg_store_bytes = db.msg_store_bytes +ℤ pos s.payloadlen;
        last_db_id = last;
      }),
    )
