-- ===== src/Subs/Remove.antt =====
-- `sub__remove` of src/subs.c: a subscription is taken out of the tree.
pub mod Taken
pub mod Node
pub mod Unsubscribed
use adaptive_mqtt_transmit_p.Common.{
  ℕ, Bool, true, false, not, Option, none, some, List, [], ◌∷◌, ◌==◌, if◌then◌else◌, ◌&&◌,
}
use adaptive_mqtt_transmit_p.Common.Bytes.{Bytes, bytes_eq}
use adaptive_mqtt_transmit_p.Common.Int.{pos, ◌-ℤ◌}
use adaptive_mqtt_transmit_p.Broker.Types.{Rc, success, no_subscribers}
use adaptive_mqtt_transmit_p.Subs.Tokens.{Tokens, failed, tokens, topic_tokenise, head_of}
use adaptive_mqtt_transmit_p.Subs.Tree.{
  Leaf, SubShared, SubHier, node, SubHiers, children_of, with_children, find_child, set_child,
  delete_child, has_children, has_subs,
}
use adaptive_mqtt_transmit_p.Subs.Add.{Client, ClientSub, Broker}

-- The first subscription of the client leaves the list; was there one?
unfoldable pub remove_leaf : ℕ → List Leaf → List Leaf × Bool
remove_leaf i [] = ([], false)
remove_leaf i (leaf ∷ leaves) =
    let (leaves', removed) = remove_leaf i leaves in
    if leaf.client == i then (leaves, true) else (leaf ∷ leaves', removed)

-- `sub__remove_normal`, at the node.
unfoldable pub remove_normal : ℕ → SubHier → SubHier × Bool
unfolding remove_leaf
remove_normal i (node cs subs shared) =
    let (subs', removed) = remove_leaf i subs in (node cs subs' shared, removed)

-- The group of the name; one without subscriptions is freed.
unfoldable pub remove_from_group : ℕ → Bytes → List SubShared → List SubShared × Bool
unfolding remove_leaf
remove_from_group i name [] = ([], false)
remove_from_group i name (g ∷ gs) =
    let (subs', removed) = remove_leaf i g.subs in
    let (gs', removed') = remove_from_group i name gs in
    if not (bytes_eq g.name name)
    then (g ∷ gs', removed')
    else if not removed
    then (g ∷ gs, false)
    else if has_subs subs'
    then (record g { subs = subs' } ∷ gs, true)
    else (gs, true)

-- `sub__remove_shared`, at the node.
unfoldable pub remove_shared : ℕ → Bytes → SubHier → SubHier × Bool
unfolding remove_from_group
remove_shared i name (node cs subs shared) =
    let (shared', removed) = remove_from_group i name shared in (node cs subs shared', removed)

abbrev pub remove_at : ℕ → Option Bytes → SubHier → SubHier × Bool
remove_at i none = remove_normal i
remove_at i (some name) = remove_shared i name

-- `!branch->children && !branch->subs && !branch->shared`
abbrev pub is_bare : SubHier → Bool
is_bare (node cs subs shared) =
    not (has_children cs) && not (has_subs subs) && not (has_subs shared)

-- The branch is freed if nothing is left of it.
unfoldable pub put_branch : Bytes → SubHier → SubHiers → SubHiers
unfolding set_child delete_child
put_branch t b cs = if is_bare b then delete_child t cs else set_child t b cs

-- `sub__remove_recurse`, where `f` is what is done at the node.
unfoldable pub remove_recurse : (SubHier → SubHier × Bool) → List Bytes → SubHier → SubHier × Bool
remove_recurse f [] n = f n
remove_recurse f (t ∷ ts) n = elim (find_child t (children_of n)) [
  | none ↦ (n, false)
  | some b ↦
      let (b', removed) = remove_recurse f ts b in
      (with_children n (put_branch t b' (children_of n)), removed)
]

abbrev pub is_same_path : List Bytes → List Bytes → Bool
is_same_path [] [] = true
is_same_path [] (u ∷ us) = false
is_same_path (t ∷ ts) [] = false
is_same_path (t ∷ ts) (u ∷ us) = bytes_eq t u && is_same_path ts us

-- Whether an entry of `context->subs` is the one that is cleared: for a subscription that is not
-- shared only the node is compared.
abbrev pub is_entry : List Bytes → Option Bytes → Option ClientSub → Bool
is_entry path sharename none = false
is_entry path none (some c) = is_same_path c.hier path
is_entry path (some name) (some c) = elim c.shared [
  | none ↦ false
  | some g ↦ is_same_path c.hier path && bytes_eq g name
]

-- The first such entry is cleared.
unfoldable pub forget_sub :
    (Option ClientSub → Bool) → List (Option ClientSub) → List (Option ClientSub)
forget_sub p [] = []
forget_sub p (c ∷ cs) = if p c then none ∷ cs else c ∷ forget_sub p cs

-- What is done outside the tree where a subscription was removed.
unfoldable pub uncount_sub : ℕ → List Bytes → Option Bytes → Broker → Broker
unfolding forget_sub bytes_eq
uncount_sub i path sharename b =
    let c = b.client i in
    let c' = record c { subs = forget_sub (is_entry path sharename) c.subs } in
    let clients = λ (j : ℕ). if j == i then c' else b.client j in
    elim sharename [
      | none ↦ record b { client = clients; subscription_count = b.subscription_count -ℤ pos 1 }
      | some g ↦ record b {
        client = clients;
        shared_subscription_count = b.shared_subscription_count -ℤ pos 1;
      }
    ]

-- The code of `sub__remove_recurse`, which at a node further down is not looked at.
abbrev pub remove_code : List Bytes → Bool → Rc
remove_code [] false = no_subscribers
remove_code topics removed = success

-- `sub__remove` of the client `i`; `reason` is what `*reason` holds, `MQTT_RC_NO_SUBSCRIPTION_EXISTED`
-- is 17.
unfoldable pub sub_remove : ℕ → Bytes → ℕ → Broker → Broker × ℕ × Rc
sub_remove i filter reason b = elim (topic_tokenise filter) [
  | failed rc ↦ (b, reason, rc)
  | tokens topics sharename ↦ elim (find_child (head_of topics) b.root) [
    | none ↦ (b, reason, success)
    | some n ↦
        let (n', removed) = remove_recurse (remove_at i sharename) topics n in
        let b' = record b { root = set_child (head_of topics) n' b.root } in
        (
          if removed then uncount_sub i (head_of topics ∷ topics) sharename b' else b',
          if removed then 0 else 17,
          remove_code topics removed,
        )
  ]
]
