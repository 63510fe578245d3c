-- ===== src/Subs/Search/Delivers.antt =====
-- `sub__search` serves the nodes whose filters match the topic, one after the other, and no others.
use adaptive_mqtt_transmit_p.Common.{
  ℕ, Bool, true, false, List, [], ◌∷◌, ◌++◌, ◌≡◌, refl, sym, ap, ◌∙◌, inl, inr, All,
}
use adaptive_mqtt_transmit_p.Common.Bytes.{Bytes}
use adaptive_mqtt_transmit_p.Broker.Types.{Rc}
use adaptive_mqtt_transmit_p.Subs.Tree.{Leaf, SubHier, children_of}
use adaptive_mqtt_transmit_p.Subs.Search.{
  plus_level, hash_level, Outcome, stop, going, search_child, search_hash, proceed, sub_search,
}
use adaptive_mqtt_transmit_p.Topic.Validity.{is_last}
use adaptive_mqtt_transmit_p.Subs.Search.Weight.{IsWell, is_plain, matching, plus_not_hash}
use adaptive_mqtt_transmit_p.Subs.Search.Keeps.{find_child-IsWell, hash-childless}
use adaptive_mqtt_transmit_p.Subs.Search.Visits.{
  at_name, visited, code_of, serve, serve_from, serve-append, weights, weights-visited,
}
use adaptive_mqtt_transmit_p.Subs.Search.Steps.{
  differs, SameSubs, at_name-same, walk, end, Visits, Ends, below_child, search_child_lem,
  search_child-others, search_hash_lem,
}

module _ {S : Type 0} (send : Leaf → S → S × Bool) (skips : Leaf → S → Bool)
    (has_source : Bool) where
  proceed_rule :
      (n : SubHier) (bs : List SubHier) (x : SubHier × S × Outcome)
      (next : SubHier → S → Bool → SubHier × S × Rc)
      → SameSubs x.0 n
      → ((have : Bool) → Ends send skips has_source x.0 bs (x.1, going have) (next x.0 x.1 have))
      → Ends send skips has_source n bs (x.1, x.2) (proceed send skips has_source x next)
  unfolding proceed serve_from
  proceed_rule n bs (n', s, stop r) next same h = (refl, same)
  proceed_rule n bs (n', s, going have) next same h =
      let (e, (p, q)) = h have in (e, (p ∙ same.0, q ∙ same.1))

  -- The nodes that are served first, then others.
  Ends-append :
      (n : SubHier) (bs cs : List SubHier) (s : S) (have : Bool) (o : S × Outcome)
      (r : SubHier × S × Rc)
      → o ≡ walk send skips has_source bs s have
      → Ends send skips has_source n cs o r
      → Ends send skips has_source n (bs ++ cs) (s, going have) r
  unfolding serve_from
  Ends-append n bs cs s have o r e (f, same) = (
    f
        ∙ ap (λ x. end send skips has_source (serve_from send skips has_source cs x)) e
        ∙ ap (end send skips has_source) (sym (serve-append send skips has_source bs cs s have)),
    same,
  )

  proceed-append :
      (n : SubHier) (bs cs : List SubHier) (s : S) (have : Bool) (x : SubHier × S × Outcome)
      (next : SubHier → S → Bool → SubHier × S × Rc)
      → Visits send skips has_source n s have bs x
      → ((have' : Bool) → Ends send skips has_source x.0 cs (x.1, going have') (next x.0 x.1 have'))
      → Ends send skips has_source n
          (bs ++ cs)
          (s, going have)
          (proceed send skips has_source x next)
  proceed-append n bs cs s have x next (e, same) h =
      Ends-append n bs cs s have (x.1, x.2) (proceed send skips has_source x next) e
        (proceed_rule n cs x next same h)

  -- The three steps for a topic that goes on, over any search below a child that does its part.
  levels_lem :
      (t : Bytes) (ts : List Bytes) (below : SubHier → S → SubHier × S × Rc) (n : SubHier) (s : S)
      → is_plain t ≡ true
      → IsWell (children_of n)
      → ((b : SubHier) (s' : S)
          → IsWell (children_of b)
          → Ends send skips has_source b (visited ts b) (s', going false) (below b s'))
      → Ends send skips has_source n
          (visited (t ∷ ts) n)
          (s, going false)
          (proceed send skips has_source
            (search_child send skips has_source t below (is_last ts) n s false)
            λ n1 s1 have1.
              proceed send skips has_source
                (search_child send skips has_source plus_level below (is_last ts) n1 s1 have1)
                (search_hash send skips has_source))
  unfolding visited
  levels_lem t ts below n s plain h ih =
      let cs = children_of n in
      let x1 = search_child send skips has_source t below (is_last ts) n s false in
      let (a1, k1) =
        search_child_lem send skips has_source t ts below n s false
          (λ b e. ih b s (find_child-IsWell t b cs h e)) in
      let plus_same =
        search_child-others send skips has_source t plus_level below (is_last ts) n s false
          (differs t plus_level plain (inl refl)) in
      let hash_same =
        search_child-others send skips has_source t hash_level below (is_last ts) n s false
          (differs t hash_level plain (inr refl)) in
      let plus = at_name plus_level (below_child send skips has_source ts) cs in
      let hash = at_name hash_level (λ b. b ∷ []) cs in
      proceed-append n (at_name t (below_child send skips has_source ts) cs) (plus ++ hash) s false
        x1
        (λ n1 s1 have1.
          proceed send skips has_source
            (search_child send skips has_source plus_level below (is_last ts) n1 s1 have1)
            (search_hash send skips has_source))
        (a1, k1)
        λ have1.
          let x2 =
            search_child send skips has_source plus_level below (is_last ts) x1.0 x1.1 have1 in
          let (a2, k2) =
            search_child_lem send skips has_source plus_level ts below x1.0 x1.1 have1
              (λ b e. ih b x1.1 (find_child-IsWell plus_level b cs h (sym plus_same ∙ e))) in
          let hash_same' =
            search_child-others send skips has_source plus_level hash_level below (is_last ts) x1.0
              x1.1 have1 plus_not_hash
            ∙ hash_same in
          let plus_at =
            at_name-same plus_level (below_child send skips has_source ts) (children_of x1.0) cs
              plus_same in
          let hash_at = at_name-same hash_level (λ b. b ∷ []) (children_of x2.0) cs hash_same' in
          proceed-append x1.0 plus hash x1.1 have1 x2 (search_hash send skips has_source)
            (a2 ∙ ap (λ bs. walk send skips has_source bs x1.1 have1) plus_at, k2)
            λ have2. rw (← hash_at) (
              search_hash_lem send skips has_source x2.0 x2.1 have2
                (λ b e. hash-childless b cs h (sym hash_same' ∙ e)))

  sub_search_lem :
      (ts : List Bytes) (n : SubHier) (s : S)
      → All (λ t. is_plain t ≡ true) ts
      → IsWell (children_of n)
      → Ends send skips has_source n
          (visited ts n)
          (s, going false)
          (sub_search send skips has_source ts n s)
  unfolding sub_search visited
  sub_search_lem [] n s plain h =
      search_hash_lem send skips has_source n s false (λ b e. hash-childless b (children_of n) h e)
  sub_search_lem (t ∷ ts) n s plain h =
      levels_lem t ts (sub_search send skips has_source ts) n s plain.0 h
        λ b s' h'. sub_search_lem ts b s' plain.1 h'

  -- For a topic without wildcards, on a well-formed tree, and whatever `send` does: `sub__search`
  -- serves the nodes of a list one after the other, up to the first that reports an error, and
  -- returns the code of this walk send skips has_source; and these are the nodes whose path matches the topic, each once:
  -- whatever weight the subscriptions have, the list has the same sum as those nodes of the tree.
  pub sub_search-delivers :
      (ts : List Bytes) (n : SubHier) (s : S)
      → All (λ t. is_plain t ≡ true) ts
      → IsWell (children_of n)
      → let y = sub_search send skips has_source ts n s in
        let x = serve send skips has_source (visited ts n) s false in
        ((y.1 ≡ x.0) × (y.2 ≡ code_of x.1))
        × ((w : Leaf → ℕ) (skip : Leaf → Bool)
            → weights w skip has_source (visited ts n)
              ≡ matching w skip has_source ts (children_of n))
  unfolding serve_from
  sub_search-delivers ts n s plain h = (
    (let e = (sub_search_lem ts n s plain h).0 in
        (ap (λ (z : S × Rc). z.0) e, ap (λ (z : S × Rc). z.1) e)),
    λ w skip. weights-visited w skip has_source ts n plain h,
  )
