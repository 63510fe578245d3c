-- ===== src/Subs/Add.antt =====
-- `sub__add` of src/subs.c: a subscription is put into the tree.
pub mod Weight
pub mod Shape
use adaptive_mqtt_transmit_p.Common.{
  ℕ, suc, zero, ◌+◌, ◌/◌, ◌%◌, Bool, true, false, Option, none, some, List, [], ◌∷◌, ◌++◌, ltb,
  ◌==◌, if◌then◌else◌, length,
}
use adaptive_mqtt_transmit_p.Common.Bytes.{Bytes, bytes_eq}
use adaptive_mqtt_transmit_p.Common.Int.{ℤ, pos, ◌+ℤ◌}
use adaptive_mqtt_transmit_p.Broker.Types.{
  Context, Rc, success, inval, sub_exists, Protocol, mqtt31, mqtt5,
}
use adaptive_mqtt_transmit_p.Subs.Tokens.{Tokens, failed, tokens, topic_tokenise, head_of}
use adaptive_mqtt_transmit_p.Subs.Tree.{
  Leaf, SubShared, SubHier, node, SubHiers, children_of, subs_of, shared_of, with_children,
  new_hier, find_child, set_child, add_child,
}

-- `struct mosquitto__client_sub`: the pointers to a node and a group are a path and a name.
pub record ClientSub : Type 0 where
  pub topic_filter : Bytes
  pub hier : List Bytes
  pub shared : Option Bytes

-- What `struct mosquitto` keeps for subscriptions besides the fields of `Context`.
pub record Client : Type 0 where
  pub context : Context
  pub last_mid : ℕ
  pub subs : List (Option ClientSub)

-- The tree `db.subs`, the two counters and the clients, which are named by numbers.
pub record Broker : Type 0 where
  pub root : SubHiers
  pub subscription_count : ℤ
  pub shared_subscription_count : ℤ
  pub client : ℕ → Client

-- The arguments of one subscription; `options` is the byte of the packet.
pub record Request : Type 0 where
  pub client : ℕ
  pub id : Bytes
  pub qos : ℕ
  pub identifier : ℕ
  pub options : ℕ

-- `options & MQTT_SUB_OPT_NO_LOCAL`, 0x04, and `options & MQTT_SUB_OPT_RETAIN_AS_PUBLISHED`, 0x08.
abbrev pub is_no_local : ℕ → Bool
is_no_local options = options / 4 % 2 == 1

abbrev pub is_retain_as_published : ℕ → Bool
is_retain_as_published options = options / 8 % 2 == 1

abbrev pub new_leaf : Request → Leaf
new_leaf r = record {
  client = r.client;
  identifier = r.identifier;
  qos = r.qos;
  no_local = is_no_local r.options;
  retain_as_published = is_retain_as_published r.options;
}

-- `leaf->context->id && !strcmp(leaf->context->id, context->id)`
abbrev pub is_same_id : Option Bytes → Bytes → Bool
is_same_id none i = false
is_same_id (some j) i = bytes_eq j i

-- `sub__add_leaf`; `id_of` gives the identifier of a client.
unfoldable pub add_leaf : (ℕ → Option Bytes) → Request → List Leaf → List Leaf × Rc
add_leaf id_of r [] = (new_leaf r ∷ [], success)
add_leaf id_of r (leaf ∷ leaves) =
    let (leaves', rc) = add_leaf id_of r leaves in
    if is_same_id (id_of leaf.client) r.id
    then (record leaf { qos = r.qos; identifier = r.identifier } ∷ leaves, sub_exists)
    else (leaf ∷ leaves', rc)

-- The entry goes to the first free place of `context->subs`.
unfoldable pub remember_sub : ClientSub → List (Option ClientSub) → List (Option ClientSub)
remember_sub c [] = some c ∷ []
remember_sub c (none ∷ cs) = some c ∷ cs
remember_sub c (some d ∷ cs) = some d ∷ remember_sub c cs

-- `sub__add_normal`, at the node.
unfoldable pub add_normal : (ℕ → Option Bytes) → Request → SubHier → SubHier × Rc
add_normal id_of r (node cs subs shared) =
    let (subs', rc) = add_leaf id_of r subs in (node cs subs' shared, rc)

-- `sub__add_shared`, at the node: the group is made if it is new.
unfoldable pub add_to_group :
    (ℕ → Option Bytes) → Request → Bytes → List SubShared → List SubShared × Rc
unfolding add_leaf
add_to_group id_of r name [] =
    let (subs', rc) = add_leaf id_of r [] in (record { name = name; subs = subs' } ∷ [], rc)
add_to_group id_of r name (g ∷ gs) =
    let (subs', rc) = add_leaf id_of r g.subs in
    let (gs', rc') = add_to_group id_of r name gs in
    if bytes_eq g.name name then (record g { subs = subs' } ∷ gs, rc) else (g ∷ gs', rc')

unfoldable pub add_shared : (ℕ → Option Bytes) → Request → Bytes → SubHier → SubHier × Rc
unfolding add_to_group
add_shared id_of r name (node cs subs shared) =
    let (shared', rc) = add_to_group id_of r name shared in (node cs subs shared', rc)

abbrev pub add_at : (ℕ → Option Bytes) → Request → Option Bytes → SubHier → SubHier × Rc
add_at id_of r none = add_normal id_of r
add_at id_of r (some name) = add_shared id_of r name

-- The loop of `sub__add_context`: the walk to the node, which is made if it is not there, and what
-- is done there. A level that is too long ends it.
unfoldable pub at_path : List Bytes → (SubHier → SubHier × Rc) → SubHier → SubHier × Rc
at_path [] f n = f n
at_path (t ∷ ts) f n =
    if ltb 65535 (length t) then (n, inval) else elim (find_child t (children_of n)) [
      | none ↦
          let (b, rc) = at_path ts f new_hier in
          (with_children n (add_child t b (children_of n)), rc)
      | some b ↦
          let (b', rc) = at_path ts f b in (with_children n (set_child t b' (children_of n)), rc)
    ]

-- What the two functions do outside the tree for a new subscription.
unfoldable pub count_sub : Request → Bytes → List Bytes → Option Bytes → Broker → Broker
unfolding remember_sub
count_sub r filter path sharename b =
    let c = b.client r.client in
    let entry : ClientSub = record { topic_filter = filter; hier = path; shared = sharename } in
    let c' = record c { subs = remember_sub entry c.subs } in
    let clients = λ (i : ℕ). if i == r.client then c' else b.client i in
    elim sharename [
      | none ↦ record b { client = clients; subscription_count = b.subscription_count +ℤ pos 1 }
      | some g ↦ record b {
        client = clients;
        shared_subscription_count = b.shared_subscription_count +ℤ pos 1;
      }
    ]

-- The code that a client is told, whether or not it had the subscription.
abbrev pub told : Protocol → Rc → Rc
told mqtt31 rc = rc
told mqtt5 rc = rc
told p rc = success

abbrev pub finish_add : Request → Bytes → List Bytes → Option Bytes → Broker → Rc → Broker × Rc
finish_add r filter path sharename b inval = (b, inval)
finish_add r filter path sharename b success =
    (count_sub r filter path sharename b, told (b.client r.client).context.protocol_version success)
finish_add r filter path sharename b rc = (b, told (b.client r.client).context.protocol_version rc)

-- `sub__add` for a client with an identifier. The first level leads from the table of roots to a
-- node, and again from this node down.
unfoldable pub sub_add : Request → Bytes → Broker → Broker × Rc
sub_add r filter b = elim (topic_tokenise filter) [
  | failed rc ↦ (b, rc)
  | tokens topics sharename ↦
      let path = head_of topics ∷ topics in
      let (n, rc) =
        at_path path (add_at (λ i. (b.client i).context.id) r sharename) (node b.root [] []) in
      finish_add r filter path sharename (record b { root = children_of n }) rc
]
