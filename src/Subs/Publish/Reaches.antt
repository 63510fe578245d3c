-- ===== src/Subs/Publish/Reaches.antt =====
-- A subscription and a publication together: `sub__add`, then the search of `sub__messages_queue`.
use adaptive_mqtt_transmit_p.Common.{
  ℕ, ◌+◌, Bool, true, false, Option, none, some, List, [], ◌∷◌, if◌then◌else◌, ◌≡◌, ◌≢◌, refl, ap,
  arith, Bool-cases, Option-cases, inl, inr, All,
}
use adaptive_mqtt_transmit_p.Common.Bytes.{Bytes, bytes_eq, bytes_eq_iff}
use adaptive_mqtt_transmit_p.Broker.Types.{Rc, success, inval}
use adaptive_mqtt_transmit_p.Topic.{sub_topic_check, pub_topic_check, topic_matches_sub, Answer}
use adaptive_mqtt_transmit_p.Topic.Levels.{IsText, first_level, matches_levels, matches_spec}
use adaptive_mqtt_transmit_p.Topic.Validity.{
  sub_topic_check-success_iff, pub_topic_check-has_wildcard,
}
use adaptive_mqtt_transmit_p.Topic.Matching.{topic_matches_sub-matches_spec}
use adaptive_mqtt_transmit_p.Subs.Tokens.{head_of, topic_tokenise-levels, share}
use adaptive_mqtt_transmit_p.Subs.Tree.{
  Leaf, SubHier, node, SubHiers, no_child, child, children_of, subs_of, find_child,
}
use adaptive_mqtt_transmit_p.Subs.Search.Weight.{
  IsWell, is_plain, weight, leaves_weight, total, matching, at_child, find-Fresh, total-none,
}
use adaptive_mqtt_transmit_p.Subs.Search.Keeps.{find_child-IsWell}
use adaptive_mqtt_transmit_p.Subs.Search.Visits.{visited, serve, weights, weights-visited}
use adaptive_mqtt_transmit_p.Subs.Search.Delivers.{sub_search-delivers}
use adaptive_mqtt_transmit_p.Subs.Add.{
  Broker, Request, new_leaf, add_leaf, add_normal, is_same_id, at_path, sub_add, finish_add,
  count_sub,
}
use adaptive_mqtt_transmit_p.Subs.Add.Weight.{AreShort, node_at, total-at_path}
use adaptive_mqtt_transmit_p.Subs.Add.Shape.{HashIsLast, at_path-IsWell}
use adaptive_mqtt_transmit_p.Subs.Publish.{search_root}
use adaptive_mqtt_transmit_p.Subs.Publish.Levels.{
  topics_of, topics_of-cons, path_of, topics_of-plain, path_of-HashIsLast, path_of-AreShort,
  matches_root, matches_root-path_of,
}

-- No subscription of a node is of the client with this identifier.
abbrev pub IsNew : (ℕ → Option Bytes) → Bytes → List Leaf → Type 0
IsNew id_of i leaves = All (λ leaf. is_same_id (id_of leaf.client) i ≡ false) leaves

add_normal-children :
    (id_of : ℕ → Option Bytes) (r : Request) (n : SubHier)
    → children_of (add_normal id_of r n).0 ≡ children_of n
unfolding add_normal
add_normal-children id_of r (node cs subs shared) = refl

-- The nodes under the root of the topic's first level that the search serves.
unfoldable pub nodes_for : List Bytes → SubHiers → List SubHier
nodes_for topics root = elim (find_child (head_of topics) root) [
  | none ↦ []
  | some n ↦ visited topics n
]

module _ (w : Leaf → ℕ) (skip : Leaf → Bool) where
  pub leaf_weight : Leaf → ℕ
  leaf_weight leaf = if skip leaf then 0 else w leaf

  -- A new subscription adds its weight to its node.
  add_leaf-weight :
      (id_of : ℕ → Option Bytes) (r : Request) (leaves : List Leaf)
      → IsNew id_of r.id leaves
      → (leaves_weight w skip true (add_leaf id_of r leaves).0
          ≡ leaves_weight w skip true leaves + leaf_weight (new_leaf r))
        × ((add_leaf id_of r leaves).1 ≡ success)
  unfolding add_leaf leaves_weight leaf_weight
  add_leaf-weight id_of r [] h = (omega arith, refl)
  add_leaf-weight id_of r (leaf ∷ leaves) h =
      let (a, b) = add_leaf-weight id_of r leaves h.1 in rw h.0 (omega (arith, a), b)

  add_normal-weight :
      (id_of : ℕ → Option Bytes) (r : Request) (n : SubHier)
      → IsNew id_of r.id (subs_of n)
      → weight w skip true (add_normal id_of r n).0
        ≡ weight w skip true n + leaf_weight (new_leaf r)
  unfolding add_normal weight
  add_normal-weight id_of r (node cs subs shared) h =
      omega (arith, (add_leaf-weight id_of r subs h).0)

  -- The nodes under the root of the topic's first level are those that the search may visit.
  abbrev pub reached : List Bytes → SubHiers → ℕ
  reached topics root = total w skip true (λ path. matches_root path topics) root

  reached-at_child :
      (t : Bytes) (ts : List Bytes) (root : SubHiers)
      → IsWell root
      → reached (t ∷ ts) root
        ≡ at_child w skip true t (λ b. matching w skip true (t ∷ ts) (children_of b)) root
  unfolding total matching matches_root matches_levels at_child find_child
  reached-at_child t ts no_child h = refl
  reached-at_child t ts (child f (node below subs shared) cs) h =
      let g = λ (b : SubHier). matching w skip true (t ∷ ts) (children_of b) in
      let b = node below subs shared in
      elim (Bool-cases (bytes_eq f t)) [
        | inl e ↦
            let q : f ≡ t = (bytes_eq_iff f t).0 e in
            rw (e, at_child) omega
              (arith, reached-at_child t ts cs h.3, find-Fresh w skip true t g cs (rw q at h.0))
        | inr n ↦
            rw (n, at_child) omega
              (arith, total-none w skip true below, reached-at_child t ts cs h.3)
      ]

  weights-nodes_for :
      (t : Bytes) (ts : List Bytes) (root : SubHiers)
      → All (λ l. is_plain l ≡ true) (t ∷ ts)
      → IsWell root
      → weights w skip true (nodes_for (t ∷ ts) root) ≡ reached (t ∷ ts) root
  unfolding nodes_for at_child weights
  weights-nodes_for t ts root plain h =
      rw (reached-at_child t ts root h) (elim (Option-cases (find_child t root)) [
        | inl e ↦ rw (e, nodes_for, at_child) refl
        | inr (b, e) ↦
            rw (e, nodes_for, at_child)
              (weights-visited w skip true (t ∷ ts) b plain (find_child-IsWell t b root h e))
      ])

-- The search of `sub__messages_queue` serves these nodes.
search_root-serves :
    {S : Type 0} (send : Leaf → S → S × Bool) (skips : Leaf → S → Bool) (t : Bytes)
    (ts : List Bytes) (root : SubHiers) (s : S)
    → All (λ l. is_plain l ≡ true) (t ∷ ts)
    → IsWell root
    → (search_root send skips true (t ∷ ts) root s).1
      ≡ (serve send skips true (nodes_for (t ∷ ts) root) s false).0
unfolding search_root nodes_for serve
search_root-serves send skips t ts root s plain h = elim (Option-cases (find_child t root)) [
  | inl e ↦ rw (e, search_root, nodes_for) refl
  | inr (b, e) ↦
      rw (e, search_root, nodes_for)
        (sub_search-delivers send skips true (t ∷ ts) b s plain
          (find_child-IsWell t b root h e)).0.0
]

-- What is assumed of a filter that a client subscribes to.
abbrev pub IsFilter : Bytes → Type 0
IsFilter f =
    IsText f
    × (f ≢ [])
    × (sub_topic_check (some f) ≡ success)
    × (bytes_eq (first_level f) share ≡ false)

abbrev pub IsTopic : Bytes → Type 0
IsTopic t =
    (t ≢ []) × (pub_topic_check (some t) ≡ success) × (bytes_eq (first_level t) share ≡ false)

-- The identifier of a client of the broker.
abbrev pub id_in : Broker → ℕ → Option Bytes
id_in b i = (b.client i).context.id

finish_add-root :
    (r : Request) (f : Bytes) (path : List Bytes) (b : Broker) (rc : Rc)
    → (finish_add r f path none b rc).0.root ≡ b.root
unfolding count_sub
finish_add-root r f path b success = refl
finish_add-root r f path b inval = refl
finish_add-root r f path b rc = refl

-- The tree after a subscription.
sub_add-root :
    (r : Request) (f : Bytes) (b : Broker)
    → f ≢ []
    → bytes_eq (first_level f) share ≡ false
    → (sub_add r f b).0.root
      ≡ children_of (at_path (path_of f) (add_normal (id_in b) r) (node b.root [] [])).0
unfolding sub_add
sub_add-root r f b n g =
    let p = at_path (path_of f) (add_normal (id_in b) r) (node b.root [] []) in
    let b' : Broker = record b { root = children_of p.0 } in
    rw (topic_tokenise-levels f n g, sub_add) (finish_add-root r f (path_of f) b' p.1)

path_of-good : (f : Bytes) → IsFilter f → HashIsLast (path_of f) × AreShort (path_of f)
path_of-good f (text, n, e, g) =
    let (ls, short) = (sub_topic_check-success_iff f text).0 e in
    (path_of-HashIsLast f ls, path_of-AreShort f short.0)

-- A subscription to a filter that is accepted keeps the tree well-formed.
pub sub_add-IsWell :
    (r : Request) (f : Bytes) (b : Broker)
    → IsFilter f
    → IsWell b.root
    → IsWell (sub_add r f b).0.root
sub_add-IsWell r f b h wl = rw (sub_add-root r f b h.1 h.3) (
    at_path-IsWell (add_normal (id_in b) r) (add_normal-children (id_in b) r) (path_of f)
      (node b.root [] []) (path_of-good f h).0 wl)

-- What reaches the subscriptions on a topic after one was added.
reached-sub_add :
    (w : Leaf → ℕ) (skip : Leaf → Bool) (r : Request) (f t : Bytes) (b : Broker)
    → IsFilter f
    → IsTopic t
    → IsNew (id_in b) r.id (subs_of (node_at (path_of f) (node b.root [] [])))
    → reached w skip (topics_of t) (sub_add r f b).0.root
      ≡ reached w skip (topics_of t) b.root
        + (if matches_spec f t then leaf_weight w skip (new_leaf r) else 0)
reached-sub_add w skip r f t b h k new =
    let n = node b.root [] [] in
    let step =
      total-at_path w skip true (add_normal (id_in b) r) (add_normal-children (id_in b) r)
        (leaf_weight w skip (new_leaf r)) (head_of (topics_of f)) (topics_of f)
        (λ path. matches_root path (topics_of t)) n (path_of-good f h).1
        (add_normal-weight w skip (id_in b) r (node_at (path_of f) n) new) in
    rw (sub_add-root r f b h.1 h.3) rw (← matches_root-path_of f t h.1 k.0) step

-- The nodes that a publication on a topic reaches.
abbrev pub nodes_of : Bytes → SubHiers → List SubHier
nodes_of t root = nodes_for (topics_of t) root

module _ (w : Leaf → ℕ) (skip : Leaf → Bool) where
  weights-nodes_of :
      (t : Bytes) (root : SubHiers)
      → IsTopic t
      → IsWell root
      → weights w skip true (nodes_of t root) ≡ reached w skip (topics_of t) root
  weights-nodes_of t root k h =
      let (x, xs, e) = topics_of-cons t in
      let plain = topics_of-plain t (pub_topic_check-has_wildcard t k.1) in
      rw e (weights-nodes_for w skip x xs root (rw e at plain) h)

module _ {S : Type 0} (send : Leaf → S → S × Bool) (skips : Leaf → S → Bool) where
  publication-serves :
      (t : Bytes) (root : SubHiers) (s : S)
      → IsTopic t
      → IsWell root
      → (search_root send skips true (topics_of t) root s).1
        ≡ (serve send skips true (nodes_of t root) s false).0
  publication-serves t root s k h =
      let (x, xs, e) = topics_of-cons t in
      let plain = topics_of-plain t (pub_topic_check-has_wildcard t k.1) in
      rw e (search_root-serves send skips x xs root s (rw e at plain) h)

  -- After a client has subscribed to a filter that it had not, a publication on a topic serves the
  -- nodes of a list, one after the other up to the first that reports an error, whatever
  -- `subs__send` does; and compared with the nodes before, this list has the new subscription
  -- besides, once, exactly if mosquitto_topic_matches_sub matches the two: for any weights of the
  -- subscriptions, those not to be skipped, its sum is greater by the weight of the new one.
  pub subscription-reaches :
      (r : Request) (f t : Bytes) (b : Broker) (s : S)
      → IsFilter f
      → IsTopic t
      → IsWell b.root
      → IsNew (id_in b) r.id (subs_of (node_at (path_of f) (node b.root [] [])))
      → let after = (sub_add r f b).0.root in
        ((search_root send skips true (topics_of t) after s).1
          ≡ (serve send skips true (nodes_of t after) s false).0)
        × ((w : Leaf → ℕ) (skip : Leaf → Bool)
            → weights w skip true (nodes_of t after)
              ≡ weights w skip true (nodes_of t b.root)
                + (if (topic_matches_sub f t).1 then leaf_weight w skip (new_leaf r) else 0))
  subscription-reaches r f t b s h k wl new =
      let well = sub_add-IsWell r f b h wl in
      let same =
        ap (λ (a : Answer). a.1) (topic_matches_sub-matches_spec f t h.0 h.1 k.0 h.2 k.1) in
      (
        publication-serves t (sub_add r f b).0.root s k well,
        λ w skip. rw same (
            omega (
              arith,
              weights-nodes_of w skip t (sub_add r f b).0.root k well,
              weights-nodes_of w skip t b.root k wl,
              reached-sub_add w skip r f t b h k new,
            )),
      )
