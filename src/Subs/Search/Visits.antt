-- ===== src/Subs/Search/Visits.antt =====
-- The nodes that `sub__search` serves, and what it is to serve them one after the other.
use adaptive_mqtt_transmit_p.Common.{
  ℕ, ◌+◌, Bool, true, false, none, some, List, [], ◌∷◌, ◌++◌, if◌then◌else◌, ◌≡◌, refl, sym, ap,
  ◌∙◌, arith, ◌||◌, All, Bool-cases, Option-cases, inl, inr,
}
use adaptive_mqtt_transmit_p.Common.Bytes.{Bytes}
use adaptive_mqtt_transmit_p.Broker.Types.{Rc, success, no_subscribers}
use adaptive_mqtt_transmit_p.Topic.Validity.{is_last}
use adaptive_mqtt_transmit_p.Subs.Tree.{
  Leaf, SubHier, node, SubHiers, children_of, subs_of, shared_of, find_child,
}
use adaptive_mqtt_transmit_p.Subs.Search.{
  plus_level, hash_level, Outcome, stop, going, settle, subs_process,
}
use adaptive_mqtt_transmit_p.Subs.Search.Weight.{
  IsWell, is_plain, weight, matching, below_child, at_child, matching_step, matching_end,
}
use adaptive_mqtt_transmit_p.Subs.Search.Keeps.{find_child-IsWell}

unfoldable pub at_name : Bytes → (SubHier → List SubHier) → SubHiers → List SubHier
at_name name f cs = elim (find_child name cs) [ none ↦ [] | some b ↦ f b ]

-- The nodes in the order of the search.
unfoldable pub visited : List Bytes → SubHier → List SubHier
unfolding at_name
visited [] n = at_name hash_level (λ b. b ∷ []) (children_of n)
visited (t ∷ ts) n =
    let below = λ (b : SubHier). visited ts b ++ (if is_last ts then b ∷ [] else []) in
    at_name t below (children_of n)
    ++ (at_name plus_level below (children_of n)
        ++ at_name hash_level (λ b. b ∷ []) (children_of n))

-- The code that a search returns.
abbrev pub code_of : Outcome → Rc
code_of (stop r) = r
code_of (going have) = if have then success else no_subscribers

module _ {S : Type 0} (send : Leaf → S → S × Bool) (skips : Leaf → S → Bool)
    (has_source : Bool) where
  -- `subs__process` on one node after the other, up to the first that reports an error.
  unfoldable pub serve : List SubHier → S → Bool → S × Outcome
  serve [] s have = (s, going have)
  serve (b ∷ bs) s have =
      let (b', s', r) = subs_process send skips has_source b s in
      elim (settle r have) [ stop r' ↦ (s', stop r') | going have' ↦ serve bs s' have' ]

  -- From an outcome on, which may already be an error.
  unfoldable pub serve_from : List SubHier → S × Outcome → S × Outcome
  serve_from bs (s, stop r) = (s, stop r)
  serve_from bs (s, going have) = serve bs s have

  pub serve-cons :
      (b : SubHier) (bs : List SubHier) (s : S) (have : Bool)
      → let x = subs_process send skips has_source b s in
        serve (b ∷ bs) s have ≡ serve_from bs (x.1, settle x.2 have)
  unfolding serve serve_from
  serve-cons b bs s have = refl

  serve_from-append :
      (bs cs : List SubHier) (x : S × Outcome)
      → ((s : S) (have : Bool) → serve (bs ++ cs) s have ≡ serve_from cs (serve bs s have))
      → serve_from (bs ++ cs) x ≡ serve_from cs (serve_from bs x)
  unfolding serve_from
  serve_from-append bs cs (s, stop r) ih = refl
  serve_from-append bs cs (s, going have) ih = ih s have

  pub serve-append :
      (bs cs : List SubHier) (s : S) (have : Bool)
      → serve (bs ++ cs) s have ≡ serve_from cs (serve bs s have)
  unfolding serve serve_from
  serve-append [] cs s have = refl
  serve-append (b ∷ bs) cs s have =
      let x = subs_process send skips has_source b s in
      serve-cons b (bs ++ cs) s have
      ∙ (serve_from-append bs cs (x.1, settle x.2 have) (serve-append bs cs)
          ∙ ap (serve_from cs) (sym (serve-cons b bs s have)))

  -- What a call for the nodes returns, put on what was found before.
  abbrev pub settled : Bool → S × Outcome → S × Outcome
  settled have (s, o) = (s, settle (code_of o) have)

  settle_step :
      (bs : List SubHier) (r : Rc) (s : S) (h have : Bool)
      → ((h have : Bool) → serve bs s (h || have) ≡ settled have (serve bs s h))
      → serve_from bs (s, settle r (h || have)) ≡ settled have (serve_from bs (s, settle r h))
  unfolding serve_from
  settle_step bs success s h have ih = ih true have
  settle_step bs no_subscribers s h have ih = ih h have
  settle_step bs _ s h have ih = refl

  serve-settled :
      (bs : List SubHier) (s : S) (h have : Bool)
      → serve bs s (h || have) ≡ settled have (serve bs s h)
  unfolding serve
  serve-settled [] s true have = refl
  serve-settled [] s false have = refl
  serve-settled (b ∷ bs) s h have =
      let x = subs_process send skips has_source b s in
      serve-cons b bs s (h || have)
      ∙ (settle_step bs x.2 x.1 h have (serve-settled bs x.1)
          ∙ ap (settled have) (sym (serve-cons b bs s h)))

  -- A walk that starts with what was found before.
  pub serve_after :
      (bs : List SubHier) (s : S) (have : Bool) → serve bs s have ≡ settled have (serve bs s false)
  serve_after bs s have = serve-settled bs s false have

  -- Nodes with the same subscriptions are served alike.
  pub same_process :
      (m n : SubHier) (s : S)
      → subs_of m ≡ subs_of n
      → shared_of m ≡ shared_of n
      → ((subs_process send skips has_source m s).1 ≡ (subs_process send skips has_source n s).1)
        × ((subs_process send skips has_source m s).2 ≡ (subs_process send skips has_source n s).2)
  unfolding subs_process
  same_process (node ms subs shared) (node ns subs' shared') s p q = rw (p, q) (refl, refl)

-- The sum of a weight over a list of nodes.
module _ (w : Leaf → ℕ) (skip : Leaf → Bool) (has_source : Bool) where
  unfoldable pub weights : List SubHier → ℕ
  weights [] = 0
  weights (b ∷ bs) = weight w skip has_source b + weights bs

  weights-append : (bs cs : List SubHier) → weights (bs ++ cs) ≡ weights bs + weights cs
  unfolding weights
  weights-append [] cs = omega arith
  weights-append (b ∷ bs) cs = omega (arith, weights-append bs cs)

  weights-at_name :
      (name : Bytes) (f : SubHier → List SubHier) (g : SubHier → ℕ) (cs : SubHiers)
      → ((b : SubHier) → find_child name cs ≡ some b → weights (f b) ≡ g b)
      → weights (at_name name f cs) ≡ at_child w skip has_source name g cs
  unfolding weights at_child at_name
  weights-at_name name f g cs h = elim (Option-cases (find_child name cs)) [
    | inl e ↦ rw (e, at_child, at_name) refl
    | inr (b, e) ↦ rw (e, at_child, at_name) (h b e)
  ]

  weights-hash : (b : SubHier) → weights (b ∷ []) ≡ weight w skip has_source b
  unfolding weights
  weights-hash b = omega arith

  weights-below :
      (ts : List Bytes) (b : SubHier)
      → weights (visited ts b) ≡ matching w skip has_source ts (children_of b)
      → weights (visited ts b ++ (if is_last ts then b ∷ [] else []))
        ≡ below_child w skip has_source ts b
  unfolding below_child weights
  weights-below ts b ih = elim (Bool-cases (is_last ts)) [
    | inl e ↦ rw e (omega (arith, ih, weights-append (visited ts b) (b ∷ []), weights-hash b))
    | inr e ↦ rw e (omega (arith, ih, weights-append (visited ts b) []))
  ]

  -- The nodes visited are those whose path matches the topic.
  pub weights-visited :
      (ts : List Bytes) (n : SubHier)
      → All (λ t. is_plain t ≡ true) ts
      → IsWell (children_of n)
      → weights (visited ts n) ≡ matching w skip has_source ts (children_of n)
  unfolding visited
  weights-visited [] n plain h =
      weights-at_name hash_level (λ b. b ∷ []) (weight w skip has_source) (children_of n)
        (λ b e. weights-hash b)
      ∙ sym (matching_end w skip has_source (children_of n) h)
  weights-visited (t ∷ ts) n plain h =
      let cs = children_of n in
      let below = λ (b : SubHier). visited ts b ++ (if is_last ts then b ∷ [] else []) in
      let hash = at_name hash_level (λ b. b ∷ []) cs in
      let g = below_child w skip has_source ts in
      let ih = λ (b : SubHier) (h' : IsWell (children_of b)). weights-visited ts b plain.1 h' in
      let child = λ (name : Bytes).
        weights-at_name name below g cs
          (λ b e. weights-below ts b (ih b (find_child-IsWell name b cs h e))) in
      omega (
        arith,
        weights-append (at_name t below cs) (at_name plus_level below cs ++ hash),
        weights-append (at_name plus_level below cs) hash,
        child t,
        child plus_level,
        weights-at_name hash_level (λ b. b ∷ []) (weight w skip has_source) cs
            (λ b e. weights-hash b),
        matching_step w skip has_source t ts cs h plain.0,
      )
