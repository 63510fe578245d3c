-- ===== src/Subs/Search/Preserves.antt =====
-- What `subs__send` keeps, the search of the tree keeps.
use adaptive_mqtt_transmit_p.Common.{
  Bool, false, List, [], ◌∷◌, ◌≡◌, refl, if_rule, Option-cases, inl, inr, ◌⊎◌,
}
use adaptive_mqtt_transmit_p.Common.Bytes.{Bytes}
use adaptive_mqtt_transmit_p.Broker.Types.{Rc}
use adaptive_mqtt_transmit_p.Topic.Validity.{is_last}
use adaptive_mqtt_transmit_p.Subs.Tree.{
  Leaf, SubShared, SubHier, node, children_of, find_child, has_children,
}
use adaptive_mqtt_transmit_p.Subs.Search.{
  plus_level, hash_level, Outcome, stop, going, settle, serve_group, shared_process, process_leaves,
  subs_process, search_branch, search_child, search_hash, proceed, sub_search,
}

Outcome-cases : (o : Outcome) → ((r : Rc) × (o ≡ stop r)) ⊎ ((have : Bool) × (o ≡ going have))
Outcome-cases (stop r) = inl (r, refl)
Outcome-cases (going have) = inr (have, refl)

module _ {S : Type 0} (send : Leaf → S → S × Bool) (skips : Leaf → S → Bool) (has_source : Bool)
    (P : S → Type 0) (keeps : (leaf : Leaf) (s : S) → P s → P (send leaf s).0) where
  serve_group_keeps :
      (leaves : List Leaf) (s : S) → P s → P (serve_group send skips has_source leaves s).1
  unfolding serve_group
  serve_group_keeps [] s h = h
  serve_group_keeps (leaf ∷ leaves) s h = keeps leaf s h

  shared_process_keeps :
      (gs : List SubShared) (s : S) → P s → P (shared_process send skips has_source gs s).1
  unfolding shared_process
  shared_process_keeps [] s h = h
  shared_process_keeps (g ∷ gs) s h = shared_process_keeps gs _ (serve_group_keeps g.subs s h)

  process_leaves_keeps :
      (leaves : List Leaf) (s : S) → P s → P (process_leaves send skips has_source leaves s).0
  unfolding process_leaves
  process_leaves_keeps [] s h = h
  process_leaves_keeps (leaf ∷ leaves) s h =
      process_leaves_keeps leaves _
        (if_rule (λ (x : S × Bool). P x.0) (skips leaf s) h (keeps leaf s h))

  subs_process_keeps : (b : SubHier) (s : S) → P s → P (subs_process send skips has_source b s).1
  unfolding subs_process
  subs_process_keeps (node cs subs shared) s h =
      let k = shared_process_keeps shared s h in
      if_rule (λ (x : S × Bool). P x.0) has_source (process_leaves_keeps subs _ k) k

  search_branch_keeps :
      (below : SubHier → S → SubHier × S × Rc) (ends : Bool) (b : SubHier) (s : S) (have : Bool)
      → P (below b s).1
      → P (search_branch send skips has_source below ends b s have).1
  unfolding search_branch
  search_branch_keeps below ends b s have h = elim (Outcome-cases (settle (below b s).2 have)) [
    | inl (r, e) ↦ rw (e, search_branch) h
    | inr (have1, e) ↦
        rw (e, search_branch)
          (if_rule (λ (x : SubHier × S × Outcome). P x.1) ends
            (subs_process_keeps (below b s).0 (below b s).1 h) h)
  ]

  search_child_keeps :
      (name : Bytes) (below : SubHier → S → SubHier × S × Rc) (ends : Bool) (n : SubHier) (s : S)
      (have : Bool)
      → P s
      → ((b : SubHier) → P (below b s).1)
      → P (search_child send skips has_source name below ends n s have).1
  unfolding search_child
  search_child_keeps name below ends n s have h k =
      elim (Option-cases (find_child name (children_of n))) [
        | inl e ↦ rw (e, search_child) h
        | inr (b, e) ↦ rw (e, search_child) (search_branch_keeps below ends b s have (k b))
      ]

  search_hash_keeps :
      (n : SubHier) (s : S) (have : Bool) → P s → P (search_hash send skips has_source n s have).1
  unfolding search_hash
  search_hash_keeps n s have h = elim (Option-cases (find_child hash_level (children_of n))) [
    | inl e ↦ rw (e, search_hash) h
    | inr (b, e) ↦
        rw (e, search_hash)
          (if_rule (λ (x : SubHier × S × Rc). P x.1) (has_children (children_of b)) h
            (subs_process_keeps b s h))
  ]

  proceed_keeps :
      (x : SubHier × S × Outcome) (next : SubHier → S → Bool → SubHier × S × Rc)
      → P x.1
      → ((n : SubHier) (s : S) (have : Bool) → P s → P (next n s have).1)
      → P (proceed send skips has_source x next).1
  unfolding proceed
  proceed_keeps (n, s, stop r) next h k = h
  proceed_keeps (n, s, going have) next h k = k n s have h

  pub sub_search_keeps :
      (ts : List Bytes) (n : SubHier) (s : S) → P s → P (sub_search send skips has_source ts n s).1
  unfolding sub_search
  sub_search_keeps [] n s h = search_hash_keeps n s false h
  sub_search_keeps (t ∷ ts) n s h =
      let below = sub_search send skips has_source ts in
      proceed_keeps (search_child send skips has_source t below (is_last ts) n s false) _
        (search_child_keeps t below (is_last ts) n s false h (λ b. sub_search_keeps ts b s h))
        λ n1 s1 have1 h1.
          proceed_keeps
            (search_child send skips has_source plus_level below (is_last ts) n1 s1 have1) _
            (search_child_keeps plus_level below (is_last ts) n1 s1 have1 h1
              (λ b. sub_search_keeps ts b s1 h1))
            (λ n2 s2 have2 h2. search_hash_keeps n2 s2 have2 h2)
