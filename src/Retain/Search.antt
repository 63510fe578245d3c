-- ===== src/Retain/Search.antt =====
-- `retain__search`, `retain__process` and `retain__queue` of src/retain.c: a new subscription is given
-- the retained messages that it matches.
use adaptive_mqtt_transmit_p.Common.{
  ℕ, ◌+◌, Bool, true, false, Option, none, some, List, [], ◌∷◌, ltb, leb, if◌then◌else◌, ◌&&◌, ◌||◌,
}
use adaptive_mqtt_transmit_p.Common.Bytes.{Bytes, bytes_eq}
use adaptive_mqtt_transmit_p.Common.Int.{pos, ◌-ℤ◌}
use adaptive_mqtt_transmit_p.Broker.Types.{Stored, Rc, success, md_out}
use adaptive_mqtt_transmit_p.Broker.Util.{mid_generate}
use adaptive_mqtt_transmit_p.Broker.Store.{msg_store_ref_dec}
use adaptive_mqtt_transmit_p.Broker.Insert.{message_insert}
use adaptive_mqtt_transmit_p.Subs.Search.{plus_level, hash_level}
use adaptive_mqtt_transmit_p.Subs.Add.{Client}
use adaptive_mqtt_transmit_p.Subs.Tokens.{failed, tokens, topic_tokenise, head_of}
use adaptive_mqtt_transmit_p.Subs.Publish.{Surroundings, World, outgoing_qos, put_client}
use adaptive_mqtt_transmit_p.Retain.{
  RetainHier, RetainHiers, retain_node, no_branch, branch, branches_of, with_branches, find_branch,
  set_branch,
}

abbrev pub has_branches : RetainHiers → Bool
has_branches no_branch = false
has_branches (branch f b bs) = true

abbrev pub is_end : List Bytes → Bool
is_end [] = true
is_end (t ∷ ts) = false

-- `process` is `retain__process`, which may clear the message of its node.
module _ {S : Type 0} (process : Stored → S → Option Stored × S) where
  -- `if(branch->retained) retain__process(...)`
  abbrev pub process_message : Option Stored → S → Option Stored × S
  process_message none s = (none, s)
  process_message (some r) s = process r s

  abbrev pub process_node : RetainHier → S → RetainHier × S
  process_node (retain_node bs r) s = let (r', s') = process_message r s in (retain_node bs r', s')

  -- `#` at the end of the filter: all branches, and the same below each of them.
  unfoldable pub search_all : RetainHiers → S → RetainHiers × S
  search_all no_branch s = (no_branch, s)
  search_all (branch f (retain_node bs r) rest) s =
      let (r', s1) = process_message r s in
      let (bs', s2) = search_all bs s1 in
      let (rest', s3) = search_all rest s2 in (branch f (retain_node bs' r') rest', s3)

  -- A branch that the level matches: `topics` is the filter behind it, `below` the search for it.
  unfoldable pub visit :
      List Bytes → (RetainHier → S → RetainHier × S × Bool) → ℕ → RetainHier → S → RetainHier × S
  unfolding bytes_eq
  visit [] below level b s = process_node b s
  visit (t ∷ topics) below level b s =
      let (b', s', flag) = below b s in
      if flag || (bytes_eq t hash_level && ltb 0 level) then process_node b' s' else (b', s')

  unfoldable pub visit_all : (RetainHier → S → RetainHier × S) → RetainHiers → S → RetainHiers × S
  visit_all v no_branch s = (no_branch, s)
  visit_all v (branch f b rest) s =
      let (b', s1) = v b s in let (rest', s2) = visit_all v rest s1 in (branch f b' rest', s2)

  -- `retain__search`; true stands for the flag -1.
  unfoldable pub retain_search : List Bytes → ℕ → RetainHier → S → RetainHier × S × Bool
  unfolding search_all visit visit_all find_branch set_branch bytes_eq
  retain_search [] level n s = (n, s, false)
  retain_search (t ∷ topics) level n s =
      let v = visit topics (retain_search topics (level + 1)) level in
      if bytes_eq t hash_level && is_end topics
      then (let (bs, s') = search_all (branches_of n) s in
          (with_branches n bs, s', has_branches (branches_of n)))
      else if bytes_eq t plus_level
      then (let (bs, s') = visit_all v (branches_of n) s in (with_branches n bs, s', false))
      else elim (find_branch t (branches_of n)) [
        | none ↦ (n, s, false)
        | some b ↦
            let (b', s') = v b s in (with_branches n (set_branch t b' (branches_of n)), s', false)
      ]

-- The subscription that retained messages are queued for. `acl_check` is `mosquitto_acl_check` for
-- reading, `source_check` what `check_retain_source` asks of the plugins about the source, with the
-- test that the message comes from a client.
pub record Receiver : Type 0 where
  pub client : ℕ
  pub sub_qos : ℕ
  pub acl_check : Stored → Rc
  pub check_retain_source : Bool
  pub source_check : Stored → Rc

-- `retain__process` behind its checks. The property with the identifier is left out.
unfoldable pub queue_retained : Surroundings → Receiver → Stored → World → World
queue_retained e v r s =
    let c = s.client v.client in
    let qos = outgoing_qos e.upgrade_outgoing_qos r.qos v.sub_qos in
    let last_mid = if ltb 0 qos then mid_generate c.last_mid else c.last_mid in
    let mid = if ltb 0 qos then last_mid else 0 in
    let (context, db, rc) =
      message_insert e.transport c.context s.db e.clock mid md_out qos true r false in
    let c' : Client = record c { context = context; last_mid = last_mid } in
    put_client v.client c' (record s { db = db })

-- A message that has expired is taken off its node.
unfoldable pub retain_process : Surroundings → Receiver → Stored → World → Option Stored × World
unfolding queue_retained
retain_process e v r s =
    let fewer = record s.retains { retained_count = s.retains.retained_count -ℤ pos 1 } in
    let allowed : Rc = if v.check_retain_source then v.source_check r else success in
    if ltb 0 r.message_expiry_time && leb r.message_expiry_time s.db.now_real_s
    then (none, record s { db = msg_store_ref_dec r s.db; retains = fewer })
    else elim (v.acl_check r) [
      | success ↦ elim allowed [ success ↦ (some r, queue_retained e v r s) | _ ↦ (some r, s) ]
      | _ ↦ (some r, s)
    ]

-- `retain__queue`; what the search returns is not looked at.
unfoldable pub retain_queue : Surroundings → Receiver → Bytes → World → World × Rc
unfolding retain_process
retain_queue e v filter s = elim (topic_tokenise filter) [
  | failed rc ↦ (s, rc)
  | tokens topics sharename ↦ elim (find_branch (head_of topics) s.retains.hiers) [
    | none ↦ (s, success)
    | some n ↦
        let (n', s', flag) = retain_search (retain_process e v) topics 0 n s in
        let hiers' = set_branch (head_of topics) n' s.retains.hiers in
        (record s' { retains = record s'.retains { hiers = hiers' } }, success)
  ]
]
