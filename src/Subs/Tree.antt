-- ===== src/Subs/Tree.antt =====
-- The data of src/subs.c: `struct mosquitto__subhier`, `mosquitto__subshared` and
-- `mosquitto__subleaf` of src/mosquitto_broker_internal.h, and the uses of uthash on them.
use adaptive_mqtt_transmit_p.Common.{
  ℕ, Bool, true, false, Option, none, some, List, [], ◌∷◌, if◌then◌else◌,
}
use adaptive_mqtt_transmit_p.Common.Bytes.{Bytes, bytes_eq}

-- `struct mosquitto__subleaf`; a client is named by a number, as by its address in the source.
pub record Leaf : Type 0 where
  pub client : ℕ
  pub identifier : ℕ
  pub qos : ℕ
  pub no_local : Bool
  pub retain_as_published : Bool

-- `struct mosquitto__subshared`: a group of a shared subscription.
pub record SubShared : Type 0 where
  pub name : Bytes
  pub subs : List Leaf

-- `struct mosquitto__subhier`: the children, the subscriptions and the shared ones.
mutual
  pub data SubHier : Type 0 where
    node : SubHiers → List Leaf → List SubShared → SubHier

  pub data SubHiers : Type 0 where
    no_child : SubHiers
    child : Bytes → SubHier → SubHiers → SubHiers

abbrev pub children_of : SubHier → SubHiers
children_of (node cs subs shared) = cs

abbrev pub subs_of : SubHier → List Leaf
subs_of (node cs subs shared) = subs

abbrev pub shared_of : SubHier → List SubShared
shared_of (node cs subs shared) = shared

abbrev pub with_children : SubHier → SubHiers → SubHier
with_children (node cs subs shared) cs' = node cs' subs shared

-- What `sub__add_hier_entry` allocates.
abbrev pub new_hier : SubHier
new_hier = node no_child [] []

-- `HASH_FIND`
unfoldable pub find_child : Bytes → SubHiers → Option SubHier
find_child name no_child = none
find_child name (child f b cs) = if bytes_eq f name then some b else find_child name cs

-- A node that is found is changed where it is.
unfoldable pub set_child : Bytes → SubHier → SubHiers → SubHiers
set_child name b' no_child = no_child
set_child name b' (child f b cs) =
    if bytes_eq f name then child f b' cs else child f b (set_child name b' cs)

-- `HASH_ADD_KEYPTR` puts a new node behind the others.
unfoldable pub add_child : Bytes → SubHier → SubHiers → SubHiers
add_child name b' no_child = child name b' no_child
add_child name b' (child f b cs) = child f b (add_child name b' cs)

-- `HASH_DELETE`
unfoldable pub delete_child : Bytes → SubHiers → SubHiers
delete_child name no_child = no_child
delete_child name (child f b cs) = if bytes_eq f name then cs else child f b (delete_child name cs)

abbrev pub has_children : SubHiers → Bool
has_children no_child = false
has_children (child f b cs) = true

abbrev pub has_subs {ℓ} : {A : Type ℓ} → List A → Bool
has_subs [] = false
has_subs (x ∷ xs) = true
