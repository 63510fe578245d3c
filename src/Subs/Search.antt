-- ===== src/Subs/Search.antt =====
-- `subs__shared_process`, `subs__process` and `sub__search` of src/subs.c, over what `subs__send`
-- does for one subscription.

pub mod Weight
pub mod Keeps
pub mod Visits
pub mod Steps
pub mod Delivers
pub mod Fair
pub mod Preserves
use adaptive_mqtt_transmit_p.Common.{
  ℕ, Bool, true, false, Option, none, some, List, [], ◌∷◌, ◌++◌, if◌then◌else◌, ◌||◌,
}
use adaptive_mqtt_transmit_p.Common.Bytes.{Bytes}
use adaptive_mqtt_transmit_p.Topic.Validity.{is_last}
use adaptive_mqtt_transmit_p.Broker.Types.{Rc, success, nomem, no_subscribers}
use adaptive_mqtt_transmit_p.Subs.Tree.{
  Leaf, SubShared, SubHier, node, SubHiers, children_of, subs_of, shared_of, with_children,
  find_child, set_child, has_children, has_subs,
}

-- One level of a topic stands for itself; these two are the wildcards of a filter.
abbrev pub plus_level : Bytes
plus_level = b'+' ∷ []

abbrev pub hash_level : Bytes
hash_level = b'#' ∷ []

-- What a step of the search holds: the code to return at once, or whether there are subscribers.
pub data Outcome : Type 0 where
  stop : Rc → Outcome
  going : Bool → Outcome

-- The tests of the code that a branch returns.
abbrev pub settle : Rc → Bool → Outcome
settle success have_subscribers = going true
settle no_subscribers have_subscribers = going have_subscribers
settle r have_subscribers = stop r

-- `send` is `subs__send`, which tells of an error; `skips` the test of `subs__process` for a client
-- that has no identifier or does not want its own messages; `has_source` that `source_id` is given.
module _ {S : Type 0} (send : Leaf → S → S × Bool) (skips : Leaf → S → Bool)
    (has_source : Bool) where
  -- The first subscription of a group gets the message and goes to the end.
  unfoldable pub serve_group : List Leaf → S → List Leaf × S × Bool
  serve_group [] s = ([], s, false)
  serve_group (leaf ∷ leaves) s =
      let (s', failed) = send leaf s in (leaves ++ leaf ∷ [], s', failed)

  -- `subs__shared_process`, one round for each group.
  unfoldable pub shared_process : List SubShared → S → List SubShared × S × Bool
  unfolding serve_group
  shared_process [] s = ([], s, false)
  shared_process (g ∷ gs) s =
      let (subs', s1, failed1) = serve_group g.subs s in
      let (gs', s2, failed2) = shared_process gs s1 in
      (record g { subs = subs' } ∷ gs', s2, failed1 || failed2)

  unfoldable pub process_leaves : List Leaf → S → S × Bool
  process_leaves [] s = (s, false)
  process_leaves (leaf ∷ leaves) s =
      let (s1, failed1) = if skips leaf s then (s, false) else send leaf s in
      let (s2, failed2) = process_leaves leaves s1 in (s2, failed1 || failed2)

  unfoldable pub subs_process : SubHier → S → SubHier × S × Rc
  unfolding shared_process process_leaves
  subs_process (node cs subs shared) s =
      let (shared', s1, failed1) = shared_process shared s in
      let (s2, failed2) = if has_source then process_leaves subs s1 else (s1, false) in
      (
        node cs subs shared',
        s2,
        if has_subs subs || has_subs shared
            then (if failed1 || failed2 then nomem else success)
            else no_subscribers,
      )

  -- The code for one found branch: the search below it, and the branch itself at the end of the topic.
  unfoldable pub search_branch :
      (SubHier → S → SubHier × S × Rc) → Bool → SubHier → S → Bool → SubHier × S × Outcome
  unfolding subs_process
  search_branch search_below ends b s have =
      let (b1, s1, r1) = search_below b s in
      elim (settle r1 have) [
        | stop r ↦ (b1, s1, stop r)
        | going have1 ↦
            if ends
            then (let (b2, s2, r2) = subs_process b1 s1 in (b2, s2, settle r2 have1))
            else (b1, s1, going have1)
      ]

  -- The child of a name, if there is one.
  unfoldable pub search_child :
      Bytes → (SubHier → S → SubHier × S × Rc) → Bool → SubHier → S → Bool → SubHier × S × Outcome
  unfolding search_branch
  search_child name search_below ends n s have = elim (find_child name (children_of n)) [
    | none ↦ (n, s, going have)
    | some b ↦
        let (b', s', o) = search_branch search_below ends b s have in
        (with_children n (set_child name b' (children_of n)), s', o)
  ]

  -- `Check for # match` and the end of the function.
  unfoldable pub search_hash : SubHier → S → Bool → SubHier × S × Rc
  unfolding subs_process
  search_hash n s have = elim (find_child hash_level (children_of n)) [
    | none ↦ (n, s, if have then success else no_subscribers)
    | some b ↦
        if has_children (children_of b)
        then (n, s, if have then success else no_subscribers)
        else (let (b', s', r) = subs_process b s in
            (
              with_children n (set_child hash_level b' (children_of n)),
              s',
              elim (settle r have) [
                | stop r' ↦ r'
                | going have1 ↦ if have1 then success else no_subscribers
              ],
            ))
  ]

  -- What follows a step, unless it returns.
  unfoldable pub proceed :
      SubHier × S × Outcome → (SubHier → S → Bool → SubHier × S × Rc) → SubHier × S × Rc
  proceed (n, s, stop r) next = (n, s, r)
  proceed (n, s, going have) next = next n s have

  -- `sub__search`
  unfoldable pub sub_search : List Bytes → SubHier → S → SubHier × S × Rc
  sub_search [] n s = search_hash n s false
  sub_search (t ∷ ts) n s =
      let below = sub_search ts in
      proceed (search_child t below (is_last ts) n s false)
        λ n1 s1 have1. proceed (search_child plus_level below (is_last ts) n1 s1 have1) search_hash
