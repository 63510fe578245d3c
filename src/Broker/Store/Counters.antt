-- ===== src/Broker/Store/Counters.antt =====
-- The counters of the message store in src/database.c: the messages and the bytes on its list.
use mathlib.Core.Option
use mathlib.Core.Option.{some-injective}
use mathlib.Core.List.{append_assoc}
use adaptive_mqtt_transmit_p.Common.{
  ℕ, suc, ◌+◌, ◌≡◌, ◌≢◌, refl, ◌∙◌, ap, sym, Bool-cases, Option-cases, inl, inr, some, List, [],
  ◌∷◌, ◌++◌, ◌==◌, if◌then◌else◌, arith, length, All, All-append_right, if_rule,
}
use adaptive_mqtt_transmit_p.Common.Int.{pos, ◌+ℤ◌, ◌-ℤ◌, pos_add, pos_sub}
use adaptive_mqtt_transmit_p.Broker.Types.{Entry, Stored, Db}
use adaptive_mqtt_transmit_p.Broker.Store.Lookup.{KeepsStored, find-update}
use adaptive_mqtt_transmit_p.Broker.Store.{
  find_entry, update_entry, unlink_entry, msg_store_add, msg_store_remove, msg_store_ref_dec,
  message_store, msg_store_compact, compact_from, is_free,
}

abbrev pub bytes_of : List Entry → ℕ
bytes_of [] = 0
bytes_of (e ∷ es) = e.stored.payloadlen + bytes_of es

-- The counters say what is on the list.
pub record IsCounted (db : Db) : Type 0 where
  pub count : db.msg_store_count ≡ pos (length db.msg_store)
  pub bytes : db.msg_store_bytes ≡ pos (bytes_of db.msg_store)

-- The message is the one that the store has under its identifier, if it has one.
abbrev pub IsKnown : Stored → Db → Type 0
IsKnown s db = (e : Entry) → find_entry s.db_id db.msg_store ≡ some e → e.stored ≡ s

length-update :
    (i : ℕ) (f : Entry → Entry) (es : List Entry) → length (update_entry i f es) ≡ length es
unfolding update_entry
length-update i f [] = refl
length-update i f (e ∷ es) = elim (Bool-cases (e.stored.db_id == i)) [
  | inl y ↦ rw y refl
  | inr n ↦ rw n (ap suc (length-update i f es))
]

bytes-update :
    (i : ℕ) (f : Entry → Entry) (es : List Entry)
    → KeepsStored f
    → bytes_of (update_entry i f es) ≡ bytes_of es
unfolding update_entry
bytes-update i f [] k = refl
bytes-update i f (e ∷ es) k = elim (Bool-cases (e.stored.db_id == i)) [
  | inl y ↦ rw y (rw (k e) refl)
  | inr n ↦ rw n (ap (λ b. e.stored.payloadlen + b) (bytes-update i f es k))
]

length-unlink :
    (i : ℕ) (e : Entry) (es : List Entry)
    → find_entry i es ≡ some e
    → (length es ≡ suc (length (unlink_entry i es)))
      × (bytes_of es ≡ e.stored.payloadlen + bytes_of (unlink_entry i es))
unfolding find_entry unlink_entry
length-unlink i e [] = λ h. cc
length-unlink i e (x ∷ es) = elim (Bool-cases (x.stored.db_id == i)) [
  | inl y ↦
      rw y
        (λ h. (refl, ap (λ (u : Entry). u.stored.payloadlen + bytes_of es) (some-injective _ _ h)))
  | inr n ↦ rw n (λ h. omega (arith, length-unlink i e es h))
]

update-IsCounted :
    (i : ℕ) (f : Entry → Entry) (db : Db)
    → KeepsStored f
    → IsCounted db
    → IsCounted (record db { msg_store = update_entry i f db.msg_store })
update-IsCounted i f db k v = record {
  count = v.count ∙ ap pos (sym (length-update i f db.msg_store));
  bytes = v.bytes ∙ ap pos (sym (bytes-update i f db.msg_store k));
}

-- A stored message is counted.
pub message_store-IsCounted :
    (s : Stored) (interval store_id : ℕ) (db : Db)
    → IsCounted db
    → IsCounted (message_store s interval store_id db).1
unfolding message_store msg_store_add
message_store-IsCounted s interval store_id db v = record {
  count = ap (λ n. n +ℤ pos 1) v.count ∙ pos_add _ 1 ∙ ap pos (omega arith);
  bytes = ap (λ n. n +ℤ pos s.payloadlen) v.bytes ∙ pos_add _ _ ∙ ap pos (omega arith);
}

remove-IsCounted :
    (s : Stored) (e : Entry) (db : Db)
    → find_entry s.db_id db.msg_store ≡ some e
    → e.stored.payloadlen ≡ s.payloadlen
    → IsCounted db
    → IsCounted (msg_store_remove s db)
unfolding msg_store_remove
remove-IsCounted s e db h p v =
    let u = length-unlink s.db_id e db.msg_store h in
    record {
      count =
          ap (λ n. n -ℤ pos 1) v.count
          ∙ pos_sub _ 1 (omega (arith, u.0))
          ∙ ap pos (omega (arith, u.0));
      bytes =
          ap (λ n. n -ℤ pos s.payloadlen) v.bytes
          ∙ pos_sub _ _ (omega (arith, u.1, p))
          ∙ ap pos (omega (arith, u.1, p));
    }

-- Giving up a reference keeps the counters right, whether or not it was the last one.
pub msg_store_ref_dec-IsCounted :
    (s : Stored) (db : Db) → IsKnown s db → IsCounted db → IsCounted (msg_store_ref_dec s db)
unfolding msg_store_ref_dec
msg_store_ref_dec-IsCounted s db k v =
    let f : Entry → Entry = λ e. record e { ref_count = e.ref_count -ℤ pos 1 } in
    let fewer = update-IsCounted s.db_id f db (λ e. refl) v in
    let found = find-update s.db_id f db.msg_store (λ e. refl) in
    elim (Option-cases (find_entry s.db_id db.msg_store)) [
      | inl missing ↦ rw (found, missing) fewer
      | inr (e, there) ↦
          if_rule IsCounted _
            (remove-IsCounted s (f e) _ (found ∙ ap (Option.map f) there)
              (ap (λ (u : Stored). u.payloadlen) (k e there)) fewer)
            fewer
    ]

-- What the compaction keeps.
unfoldable pub referenced : List Entry → List Entry
referenced [] = []
referenced (e ∷ es) = if is_free e then referenced es else e ∷ referenced es

-- No two messages of the list have the same identifier.
abbrev pub AreDistinct : List Entry → Type 0
AreDistinct [] = Unit {0}
AreDistinct (e ∷ es) = All (λ f. f.stored.db_id ≢ e.stored.db_id) es × AreDistinct es

-- The entry is the first of its identifier behind a list without it.
Absent : ℕ → List Entry → Type 0
Absent i es = All (λ e. e.stored.db_id ≢ i) es

unlink-behind :
    (e : Entry) (front es : List Entry)
    → Absent e.stored.db_id front
    → (unlink_entry e.stored.db_id (front ++ e ∷ es) ≡ front ++ es)
      × (find_entry e.stored.db_id (front ++ e ∷ es) ≡ some e)
unfolding unlink_entry find_entry Absent
unlink-behind e [] es h = ground arith
unlink-behind e (x ∷ front) es h = ground (arith, h.0, unlink-behind e front es h.1)

All-without :
    (P : Entry → Type 0) (front : List Entry) (e : Entry) (es : List Entry)
    → All P (front ++ e ∷ es)
    → All P (front ++ es)
All-without P [] e es h = h.1
All-without P (x ∷ front) e es h = (h.0, All-without P front e es h.1)

Absent-front :
    (e : Entry) (front es : List Entry)
    → AreDistinct (front ++ e ∷ es)
    → Absent e.stored.db_id front × AreDistinct (front ++ es)
unfolding Absent
Absent-front e [] es dis = (tt, dis.1)
Absent-front e (x ∷ front) es dis =
    let (a, d) = Absent-front e front es dis.1 in
    (
      (
        λ p.
            (All-append_right (λ f. f.stored.db_id ≢ x.stored.db_id) front (e ∷ es) dis.0).0
              (sym p),
        a,
      ),
      (All-without _ front e es dis.0, d),
    )

compact_from_lem :
    (front es : List Entry) (db : Db)
    → db.msg_store ≡ front ++ es
    → AreDistinct (front ++ es)
    → IsCounted db
    → ((compact_from es db).msg_store ≡ front ++ referenced es) × IsCounted (compact_from es db)
unfolding compact_from referenced msg_store_remove
compact_from_lem front [] db h dis v = (h, v)
compact_from_lem front (e ∷ es) db h dis v = elim (Bool-cases (is_free e)) [
  | inl free ↦
      rw (free, compact_from)
        (let (away, apart) = Absent-front e front es dis in
          let (gone, there) = unlink-behind e front es away in
          compact_from_lem front es (msg_store_remove e.stored db)
            (ap (unlink_entry e.stored.db_id) h ∙ gone) apart
            (remove-IsCounted e.stored e db (ap (find_entry e.stored.db_id) h ∙ there) refl v))
  | inr held ↦
      rw (held, compact_from)
        (let (l, u) =
            compact_from_lem (front ++ e ∷ []) es db (h ∙ sym (append_assoc front (e ∷ []) es))
              (rw (append_assoc front (e ∷ []) es) dis) v in
          (l ∙ append_assoc front (e ∷ []) (referenced es), u))
]

-- If no two stored messages have the same identifier, the compaction removes exactly those without
-- a reference, keeps the others in their order, and keeps the counters right.
pub msg_store_compact_lem :
    (db : Db)
    → AreDistinct db.msg_store
    → IsCounted db
    → ((msg_store_compact db).msg_store ≡ referenced db.msg_store)
      × IsCounted (msg_store_compact db)
unfolding msg_store_compact
msg_store_compact_lem db dis v = compact_from_lem [] db.msg_store db refl dis v
