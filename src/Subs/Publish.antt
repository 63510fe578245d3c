-- ===== src/Subs/Publish.antt =====
-- `subs__send` and `sub__messages_queue` of src/subs.c: a published message is handed to the clients
-- that have subscribed to its topic.
pub mod Levels
pub mod Reaches
use adaptive_mqtt_transmit_p.Common.{
  ℕ, Bool, true, false, not, Option, none, some, List, [], ◌∷◌, ltb, ◌==◌, if◌then◌else◌, ◌&&◌,
}
use adaptive_mqtt_transmit_p.Common.Bytes.{Bytes, bytes_eq}
use adaptive_mqtt_transmit_p.Broker.Types.{
  Context, Db, Clock, Stored, Rc, success, nomem, acl_denied, no_subscribers, md_out,
}
use adaptive_mqtt_transmit_p.Broker.Util.{mid_generate}
use adaptive_mqtt_transmit_p.Broker.Store.{msg_store_ref_inc, msg_store_ref_dec}
use adaptive_mqtt_transmit_p.Broker.Delivery.{Transport}
use adaptive_mqtt_transmit_p.Broker.Insert.{message_insert}
use adaptive_mqtt_transmit_p.Subs.Tokens.{Tokens, failed, tokens, topic_tokenise, head_of}
use adaptive_mqtt_transmit_p.Subs.Tree.{Leaf, SubHier, SubHiers, find_child, set_child}
use adaptive_mqtt_transmit_p.Subs.Search.{sub_search}
use adaptive_mqtt_transmit_p.Subs.Add.{Client, Broker}
use adaptive_mqtt_transmit_p.Retain.{Retains, retain_store}

-- The arguments of `sub__messages_queue`.
pub record Publication : Type 0 where
  pub source_id : Option Bytes
  pub topic : Bytes
  pub qos : ℕ
  pub retain : Bool
  pub stored : Stored

-- What the broker does not decide here: the connection, the clock and `mosquitto_acl_check`, which
-- asks the plugins; and the option `upgrade_outgoing_qos` of the configuration.
pub record Surroundings : Type 0 where
  pub transport : Transport
  pub clock : Clock
  pub acl_check : ℕ → Publication → Rc
  pub upgrade_outgoing_qos : Bool

-- The clients, the message store and the retained messages.
pub record World : Type 0 where
  pub db : Db
  pub retains : Retains
  pub client : ℕ → Client

abbrev pub outgoing_qos : Bool → ℕ → ℕ → ℕ
outgoing_qos upgrade qos client_qos =
    if upgrade then client_qos else if ltb client_qos qos then client_qos else qos

abbrev pub put_client : ℕ → Client → World → World
put_client i c s = record s { client = λ j. if j == i then c else s.client j }

-- `db__message_insert(...) == 1`
abbrev pub is_nomem : Rc → Bool
is_nomem nomem = true
is_nomem r = false

-- `subs__send` for a client that may read the topic. The property with the identifier of the
-- subscription is left out.
unfoldable pub send_to : Surroundings → Publication → Leaf → World → World × Bool
send_to e p leaf s =
    let c = s.client leaf.client in
    let msg_qos = outgoing_qos e.upgrade_outgoing_qos p.qos leaf.qos in
    let last_mid = if msg_qos == 0 then c.last_mid else mid_generate c.last_mid in
    let mid = if msg_qos == 0 then 0 else last_mid in
    let retain = if leaf.retain_as_published then p.retain else false in
    let (context, db, rc) =
      message_insert e.transport c.context s.db e.clock mid md_out msg_qos retain p.stored true in
    let c' : Client = record c { context = context; last_mid = last_mid } in
    (put_client leaf.client c' (record s { db = db }), is_nomem rc)

-- `subs__send`
unfoldable pub subs_send : Surroundings → Publication → Leaf → World → World × Bool
unfolding send_to
subs_send e p leaf s = elim (e.acl_check leaf.client p) [
  | acl_denied ↦ (s, false)
  | success ↦ send_to e p leaf s
  | _ ↦ (s, true)
]

-- The test of the loop in `subs__process`.
abbrev pub is_own : Bool → Option Bytes → Option Bytes → Bool
is_own no_local none source = true
is_own no_local (some i) none = false
is_own no_local (some i) (some j) = no_local && bytes_eq i j

unfoldable pub skips_leaf : Publication → Leaf → World → Bool
unfolding bytes_eq
skips_leaf p leaf s = is_own leaf.no_local (s.client leaf.client).context.id p.source_id

abbrev pub is_given : Option Bytes → Bool
is_given none = false
is_given (some i) = true

-- The search in the tree whose root has the name of the topic's first level.
module _ {S : Type 0} (send : Leaf → S → S × Bool) (skips : Leaf → S → Bool)
    (has_source : Bool) where
  unfoldable pub search_root : List Bytes → SubHiers → S → SubHiers × S × Rc
  search_root topics root s = elim (find_child (head_of topics) root) [
    | none ↦ (root, s, success)
    | some n ↦
        let (n', s', rc) = sub_search send skips has_source topics n s in
        (set_child (head_of topics) n' root, s', rc)
  ]

-- A message to be retained is stored besides. `retain__store` fails only for want of memory, so
-- `if(rc2) rc = rc2;` has nothing to do here.
unfoldable pub keep_retained : Publication → List Bytes → World → World
keep_retained p topics s =
    let (r, db) = retain_store p.topic p.stored topics s.retains s.db in
    if p.retain then record s { retains = r; db = db } else s

-- `sub__messages_queue`: the message is referenced while it is handed on.
unfoldable pub messages_queue :
    Surroundings → Publication → SubHiers → World → SubHiers × World × Rc
unfolding keep_retained
messages_queue e p root s = elim (topic_tokenise p.topic) [
  | failed rc ↦ (root, s, nomem)
  | tokens topics sharename ↦
      let s1 = record s { db = msg_store_ref_inc p.stored s.db } in
      let (root', s2, rc) =
        search_root (subs_send e p) (skips_leaf p) (is_given p.source_id) topics root s1 in
      let s3 = keep_retained p topics s2 in
      (root', record s3 { db = msg_store_ref_dec p.stored s3.db }, rc)
]
