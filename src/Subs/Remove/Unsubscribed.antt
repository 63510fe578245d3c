-- ===== src/Subs/Remove/Unsubscribed.antt =====
-- What `sub__remove` does to the tree as a whole.
use adaptive_mqtt_transmit_p.Common.{
  ℕ, ◌≡◌, ◌≢◌, refl, sym, ◌∙◌, Option, none, List, [], ◌∷◌, Bool-cases, Option-cases, inl, inr,
}
use adaptive_mqtt_transmit_p.Common.Bytes.{Bytes, bytes_eq, bytes_eq_iff}
use adaptive_mqtt_transmit_p.Subs.Tokens.{tokens, topic_tokenise, head_of}
use adaptive_mqtt_transmit_p.Subs.Tree.{
  SubHier, SubHiers, node, children_of, find_child, set_child, new_hier,
}
use adaptive_mqtt_transmit_p.Subs.Search.Weight.{IsWell}
use adaptive_mqtt_transmit_p.Subs.Search.Keeps.{find_child-set_child, find_child-IsWell}
use adaptive_mqtt_transmit_p.Subs.Add.{Broker}
use adaptive_mqtt_transmit_p.Subs.Add.Weight.{node_at}
use adaptive_mqtt_transmit_p.Subs.Remove.{remove_at, remove_recurse, sub_remove}
use adaptive_mqtt_transmit_p.Subs.Remove.Taken.{IsUnsubscribed, remove_at-IsUnsubscribed}
use adaptive_mqtt_transmit_p.Subs.Remove.Node.{
  IsAlike, IsAlike-moved, differs_below, same_child, find-set_same, node_at-found, node_at-new,
  remove_recurse-node, remove_recurse-other, remove_at-new, remove_at-children, root-found,
  root-missing,
}

-- The tree with its table of roots as one node.
abbrev pub whole : SubHiers → SubHier
whole root = node root [] []

node_at-missing :
    (t : Bytes) (us : List Bytes) (n : SubHier)
    → find_child t (children_of n) ≡ none
    → node_at (t ∷ us) n ≡ new_hier
unfolding node_at
node_at-missing t us n e = rw (node_at, e) (node_at-new us)

module _ (i : ℕ) (filter : Bytes) (reason : ℕ) (b : Broker) (topics : List Bytes)
    (sharename : Option Bytes) (t : topic_tokenise filter ≡ tokens topics sharename)
    (well : IsWell b.root) where
  abbrev first : Bytes
  first = head_of topics

  at_node :
      node_at (first ∷ topics) (whole (sub_remove i filter reason b).0.root)
      ≡ (remove_at i sharename (node_at (first ∷ topics) (whole b.root))).0
  at_node = elim (Option-cases (find_child first b.root)) [
    | inl e ↦
        rw
          (
            root-missing i filter reason b topics sharename t e,
            node_at-missing first topics (whole b.root) e,
          )
          (sym (remove_at-new i sharename))
    | inr (n, e) ↦
        let n' = (remove_recurse (remove_at i sharename) topics n).0 in
        let after = whole (set_child first n' b.root) in
        rw
          (
            root-found i filter reason b topics sharename n t e,
            node_at-found first topics (whole b.root) n e,
          )
          (node_at-found first topics after n' (find-set_same first n n' b.root e)
            ∙ remove_recurse-node (remove_at i sharename) (remove_at-new i sharename)
                (remove_at-children i sharename) topics n (find_child-IsWell first n b.root well e))
  ]

  elsewhere :
      (other : List Bytes)
      → other ≢ first ∷ topics
      → IsAlike
          (node_at other (whole (sub_remove i filter reason b).0.root))
          (node_at other (whole b.root))
  unfolding node_at
  elsewhere [] d = (refl, refl)
  elsewhere (u ∷ us) d = elim (Option-cases (find_child first b.root)) [
    | inl e ↦
        rw (root-missing i filter reason b topics sharename t e)
          (same_child u us (whole b.root) (whole b.root) refl)
    | inr (n, e) ↦
        let n' = (remove_recurse (remove_at i sharename) topics n).0 in
        let after = whole (set_child first n' b.root) in
        rw (root-found i filter reason b topics sharename n t e)
          (elim (Bool-cases (bytes_eq first u)) [
            | inr m ↦
                same_child u us after (whole b.root) (find_child-set_child first u n' b.root m)
            | inl same ↦
                let q : first ≡ u = (bytes_eq_iff first u).0 same in
                rw (sym q) (
                  IsAlike-moved (node_at (first ∷ us) after) (node_at us n')
                    (node_at (first ∷ us) (whole b.root)) (node_at us n)
                    (node_at-found first us after n' (find-set_same first n n' b.root e))
                    (node_at-found first us (whole b.root) n e)
                    (remove_recurse-other (remove_at i sharename) (remove_at-new i sharename)
                      (remove_at-children i sharename) topics us n
                      (find_child-IsWell first n b.root well e)
                      (differs_below first u topics us q d)))
          ])
  ]

  -- `sub__remove` takes the client's subscription out of the tree: at the node of the filter the
  -- first subscription of the client leaves the list, or the group of the filter, which is freed if
  -- it was the last one; the others there keep their places. Every other node keeps its
  -- subscriptions; nodes that are freed have none. For a filter that is cut into levels and a
  -- well-formed tree.
  pub sub_remove-node_at :
      let after = whole (sub_remove i filter reason b).0.root in
      IsUnsubscribed i sharename
        (node_at (first ∷ topics) (whole b.root))
        (node_at (first ∷ topics) after)
      × ((other : List Bytes)
          → other ≢ first ∷ topics
          → IsAlike (node_at other after) (node_at other (whole b.root)))
  sub_remove-node_at = (
    rw at_node (remove_at-IsUnsubscribed i sharename (node_at (first ∷ topics) (whole b.root))),
    elsewhere,
  )
