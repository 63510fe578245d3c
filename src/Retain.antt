-- ===== src/Retain.antt =====
-- Retained messages: `retain__add_hier_entry`, `retain__init`, `retain__store` and `retain__clean` of
-- src/retain.c.
-- Memory is taken to be there whenever it is asked for.
pub mod Lookup
pub mod Search
pub mod Exact
use adaptive_mqtt_transmit_p.Common.{
  ℕ, ◌+◌, ◌%◌, ◌^◌, Bool, true, false, Option, none, some, List, [], ◌∷◌, ◌==◌, if◌then◌else◌,
  length, take,
}
use adaptive_mqtt_transmit_p.Common.Bytes.{Bytes, bytes_eq}
use adaptive_mqtt_transmit_p.Common.Int.{ℤ, pos, ◌+ℤ◌, ◌-ℤ◌}
use adaptive_mqtt_transmit_p.Broker.Types.{Db, Stored}
use adaptive_mqtt_transmit_p.Broker.Store.{msg_store_ref_inc, msg_store_ref_dec}
use adaptive_mqtt_transmit_p.Subs.Tokens.{head_of}

-- `struct mosquitto__retainhier`: the children and the retained message.
mutual
  pub data RetainHier : Type 0 where
    retain_node : RetainHiers → Option Stored → RetainHier

  pub data RetainHiers : Type 0 where
    no_branch : RetainHiers
    branch : Bytes → RetainHier → RetainHiers → RetainHiers

abbrev pub branches_of : RetainHier → RetainHiers
branches_of (retain_node bs retained) = bs

abbrev pub retained_of : RetainHier → Option Stored
retained_of (retain_node bs retained) = retained

abbrev pub with_branches : RetainHier → RetainHiers → RetainHier
with_branches (retain_node bs retained) bs' = retain_node bs' retained

-- What `retain__add_hier_entry` allocates, and the key that it adds: the length is a uint16_t.
abbrev pub new_retain : RetainHier
new_retain = retain_node no_branch none

abbrev pub retain_key : Bytes → Bytes
retain_key t = take (length t % 2 ^ 16) t

-- `HASH_FIND`
unfoldable pub find_branch : Bytes → RetainHiers → Option RetainHier
find_branch name no_branch = none
find_branch name (branch f b bs) = if bytes_eq f name then some b else find_branch name bs

-- A node that is found is changed where it is.
unfoldable pub set_branch : Bytes → RetainHier → RetainHiers → RetainHiers
set_branch name b' no_branch = no_branch
set_branch name b' (branch f b bs) =
    if bytes_eq f name then branch f b' bs else branch f b (set_branch name b' bs)

-- `HASH_ADD_KEYPTR` puts a new node behind the others.
unfoldable pub add_branch : Bytes → RetainHier → RetainHiers → RetainHiers
add_branch name b' no_branch = branch name b' no_branch
add_branch name b' (branch f b bs) = branch f b (add_branch name b' bs)

-- `db.retains` and `db.retained_count`.
pub record Retains : Type 0 where
  pub hiers : RetainHiers
  pub retained_count : ℤ

abbrev pub sys_level : Bytes
sys_level = b'$' ∷ b'S' ∷ b'Y' ∷ b'S' ∷ []

-- `retain__init`
unfoldable pub retain_init : RetainHiers → RetainHiers
unfolding add_branch
retain_init bs = add_branch sys_level new_retain (add_branch [] new_retain bs)

-- The message at the end of a path; a node that is missing has none.
unfoldable pub retained_at : List Bytes → RetainHier → Option Stored
retained_at [] n = retained_of n
retained_at (t ∷ ts) n = elim (find_branch t (branches_of n)) [
  | none ↦ none
  | some b ↦ retained_at ts b
]

-- The loop of `retain__store` and the assignment behind it: the nodes of the path that are missing
-- are added.
unfoldable pub set_retained : Option Stored → List Bytes → RetainHier → RetainHier
set_retained r [] n = retain_node (branches_of n) r
set_retained r (t ∷ ts) n = elim (find_branch t (branches_of n)) [
  | none ↦
      with_branches n (add_branch (retain_key t) (set_retained r ts new_retain) (branches_of n))
  | some b ↦ with_branches n (set_branch t (set_retained r ts b) (branches_of n))
]

-- An empty payload clears the message.
abbrev pub retained_message : Stored → Option Stored
retained_message stored = if stored.payloadlen == 0 then none else some stored

abbrev pub is_sys : Bytes → Bool
is_sys topic = bytes_eq (take 4 topic) sys_level

-- The old message loses its reference, the new one gets one.
unfoldable pub release_retained : Option Stored → ℤ → Db → ℤ × Db
release_retained none count db = (count, db)
release_retained (some old) count db = (count -ℤ pos 1, msg_store_ref_dec old db)

unfoldable pub take_retained : Option Stored → ℤ → Db → ℤ × Db
take_retained none count db = (count, db)
take_retained (some stored) count db = (count +ℤ pos 1, msg_store_ref_inc stored db)

-- `retain__store`: the root has the name of the first level, and the levels follow below it.
unfoldable pub retain_store : Bytes → Stored → List Bytes → Retains → Db → Retains × Db
unfolding set_retained retained_at release_retained take_retained bytes_eq
retain_store topic stored topics r db =
    let path = head_of topics ∷ topics in
    let root = retain_node r.hiers none in
    let changes = if is_sys topic then db.persistence_changes else db.persistence_changes + 1 in
    let (count1, db1) =
      release_retained (retained_at path root) r.retained_count
        (record db { persistence_changes = changes }) in
    let (count2, db2) = take_retained (retained_message stored) count1 db1 in
    let root' = set_retained (retained_message stored) path root in
    (record { hiers = branches_of root'; retained_count = count2 }, db2)

-- `retain__clean`: every message loses its reference, and nothing is left of the tree. The count is
-- not changed.
unfoldable pub retain_clean : RetainHiers → Db → RetainHiers × Db
retain_clean no_branch db = (no_branch, db)
retain_clean (branch f (retain_node bs r) rest) db =
    let db1 : Db = elim r [ none ↦ db | some old ↦ msg_store_ref_dec old db ] in
    let (bs', db2) = retain_clean bs db1 in retain_clean rest db2
