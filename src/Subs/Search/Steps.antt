-- ===== src/Subs/Search/Steps.antt =====
-- The steps of `sub__search`: what is served at one child of a node, and at its child `#`.
use adaptive_mqtt_transmit_p.Common.{
  Bool, true, false, some, List, [], ◌∷◌, ◌++◌, if◌then◌else◌, ◌≡◌, refl, sym, ap, ◌∙◌, arith,
  Bool-cases, Option-cases, inl, inr, ◌⊎◌,
}
use adaptive_mqtt_transmit_p.Common.Bytes.{Bytes, bytes_eq, bytes_eq_iff, bytes_eq_refl}
use adaptive_mqtt_transmit_p.Broker.Types.{Rc}
use adaptive_mqtt_transmit_p.Subs.Tree.{
  Leaf, SubHier, node, SubHiers, children_of, subs_of, shared_of, with_children, find_child,
  has_children,
}
use adaptive_mqtt_transmit_p.Subs.Search.{
  plus_level, hash_level, Outcome, stop, going, settle, subs_process, search_branch, search_child,
  search_hash,
}
use adaptive_mqtt_transmit_p.Topic.Validity.{is_last}
use adaptive_mqtt_transmit_p.Subs.Search.Weight.{is_plain, plain_differs}
use adaptive_mqtt_transmit_p.Subs.Search.Keeps.{find_child-set_child}
use adaptive_mqtt_transmit_p.Subs.Search.Visits.{
  at_name, visited, code_of, serve, serve_from, serve-cons, serve-append, serve_after, same_process,
}

children_with :
    (n : SubHier) (cs : SubHiers) (name : Bytes)
    → find_child name (children_of (with_children n cs)) ≡ find_child name cs
children_with (node cs' subs shared) cs name = refl

-- A plain level is not the name of a wildcard.
pub differs :
    (t c : Bytes) → is_plain t ≡ true → (c ≡ plus_level) ⊎ (c ≡ hash_level) → bytes_eq t c ≡ false
differs t c plain e = elim (Bool-cases (bytes_eq t c)) [
  | inl same ↦ ground (
    arith,
    (bytes_eq_iff t c).0 same,
    plain_differs t c t plain ((bytes_eq_iff t c).0 same) e,
    bytes_eq_refl t,
  )
  | inr n ↦ n
]

-- The subscriptions of a node have not changed.
abbrev pub SameSubs : SubHier → SubHier → Type 0
SameSubs m n = (subs_of m ≡ subs_of n) × (shared_of m ≡ shared_of n)

same-with_children : (n : SubHier) (cs : SubHiers) → SameSubs (with_children n cs) n
same-with_children (node ds subs shared) cs = (refl, refl)

Outcome-cases : (o : Outcome) → ((r : Rc) × (o ≡ stop r)) ⊎ ((have : Bool) × (o ≡ going have))
Outcome-cases (stop r) = inl (r, refl)
Outcome-cases (going have) = inr (have, refl)

pub at_name-same :
    (name : Bytes) (f : SubHier → List SubHier) (cs cs' : SubHiers)
    → find_child name cs ≡ find_child name cs'
    → at_name name f cs ≡ at_name name f cs'
unfolding at_name
at_name-same name f cs cs' e = rw (e, at_name) refl

module _ {S : Type 0} (send : Leaf → S → S × Bool) (skips : Leaf → S → Bool)
    (has_source : Bool) where
  abbrev pub walk : List SubHier → S → Bool → S × Outcome
  walk bs s have = serve send skips has_source bs s have

  -- The state and the code in which a walk ends.
  abbrev pub end : S × Outcome → S × Rc
  end (s, o) = (s, code_of o)

  -- What is shown of a step: it serves the nodes `bs`.
  abbrev pub Visits : SubHier → S → Bool → List SubHier → SubHier × S × Outcome → Type 0
  Visits n s have bs (n', s', o) = ((s', o) ≡ walk bs s have) × SameSubs n' n

  -- What is shown of what returns: it serves `bs` from an outcome on.
  abbrev pub Ends : SubHier → List SubHier → S × Outcome → SubHier × S × Rc → Type 0
  Ends n bs x (n', s', r) = ((s', r) ≡ end (serve_from send skips has_source bs x)) × SameSubs n' n

  nothing_more : (x : S × Outcome) → serve_from send skips has_source [] x ≡ x
  unfolding serve_from serve
  nothing_more (s, stop r) = refl
  nothing_more (s, going have) = refl

  process_one :
      (m b : SubHier) (s : S) (have : Bool)
      → SameSubs m b
      → let x = subs_process send skips has_source m s in
        (x.1, settle x.2 have) ≡ walk (b ∷ []) s have
  process_one m b s have same =
      let (p, q) = same_process send skips has_source m b s same.0 same.1 in
      let x = subs_process send skips has_source b s in
      rw (p, q)
        (sym (nothing_more (x.1, settle x.2 have))
          ∙ sym (serve-cons send skips has_source b [] s have))

  search_branch_rule :
      (below : SubHier → S → SubHier × S × Rc) (ends : Bool) (b : SubHier) (s : S) (have : Bool)
      → SameSubs (below b s).0 b
      → let x = below b s in
        let y = search_branch send skips has_source below ends b s have in
        (y.1, y.2)
        ≡ serve_from send skips has_source (if ends then b ∷ [] else []) (x.1, settle x.2 have)
  unfolding search_branch serve_from serve
  search_branch_rule below ends b s have same = elim (Outcome-cases (settle (below b s).2 have)) [
    | inl (r, e) ↦ rw (e, search_branch) refl
    | inr (h, e) ↦ elim (Bool-cases ends) [
      | inl l ↦ rw (e, search_branch, l) (process_one (below b s).0 b (below b s).1 h same)
      | inr l ↦ rw (e, search_branch, l) refl
    ]
  ]

  -- The nodes at and below a child.
  abbrev pub below_child : List Bytes → SubHier → List SubHier
  below_child ts b = visited ts b ++ (if is_last ts then b ∷ [] else [])

  search_branch_lem :
      (ts : List Bytes) (below : SubHier → S → SubHier × S × Rc) (b : SubHier) (s : S) (have : Bool)
      → Ends b (visited ts b) (s, going false) (below b s)
      → let y = search_branch send skips has_source below (is_last ts) b s have in
        (y.1, y.2) ≡ walk (below_child ts b) s have
  unfolding serve_from
  search_branch_lem ts below b s have (e, same) =
      let last = if is_last ts then b ∷ [] else [] in
      let from_settled : ((below b s).1, settle (below b s).2 have) ≡ walk (visited ts b) s have =
        ap (λ (x : S × Rc). (x.0, settle x.1 have)) e
        ∙ sym (serve_after send skips has_source (visited ts b) s have) in
      search_branch_rule below (is_last ts) b s have same
      ∙ (ap (serve_from send skips has_source last) from_settled
          ∙ sym (serve-append send skips has_source (visited ts b) last s have))

  pub search_child_lem :
      (name : Bytes) (ts : List Bytes) (below : SubHier → S → SubHier × S × Rc) (n : SubHier)
      (s : S) (have : Bool)
      → ((b : SubHier)
          → find_child name (children_of n) ≡ some b
          → Ends b (visited ts b) (s, going false) (below b s))
      → Visits n s have
          (at_name name (below_child ts) (children_of n))
          (search_child send skips has_source name below (is_last ts) n s have)
  unfolding search_child at_name serve
  search_child_lem name ts below n s have h =
      elim (Option-cases (find_child name (children_of n))) [
        | inl e ↦ rw (e, search_child, at_name) (refl, (refl, refl))
        | inr (b, e) ↦
            rw (e, search_child, at_name)
              (search_branch_lem ts below b s have (h b e), same-with_children n _)
      ]

  -- A search below one name leaves the children of other names alone.
  pub search_child-others :
      (name other : Bytes) (below : SubHier → S → SubHier × S × Rc) (ends : Bool) (n : SubHier)
      (s : S) (have : Bool)
      → bytes_eq name other ≡ false
      → find_child other
          (children_of (search_child send skips has_source name below ends n s have).0)
        ≡ find_child other (children_of n)
  unfolding search_child
  search_child-others name other below ends n s have d =
      elim (Option-cases (find_child name (children_of n))) [
        | inl e ↦ rw (e, search_child) refl
        | inr (b, e) ↦
            rw (e, search_child)
              (children_with n _ other ∙ find_child-set_child name other _ (children_of n) d)
      ]

  pub search_hash_lem :
      (n : SubHier) (s : S) (have : Bool)
      → ((b : SubHier)
          → find_child hash_level (children_of n) ≡ some b
          → has_children (children_of b) ≡ false)
      → Ends n
          (at_name hash_level (λ b. b ∷ []) (children_of n))
          (s, going have)
          (search_hash send skips has_source n s have)
  unfolding search_hash at_name serve_from serve
  search_hash_lem n s have h = elim (Option-cases (find_child hash_level (children_of n))) [
    | inl e ↦ rw (e, search_hash, at_name) (refl, (refl, refl))
    | inr (b, e) ↦
        let leafless : has_children (children_of b) ≡ false = h b e in
        rw (e, search_hash, at_name) rw leafless
          (ap end (process_one b b s have (refl, refl)), same-with_children n _)
  ]
