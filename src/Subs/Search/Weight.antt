-- ===== src/Subs/Search/Weight.antt =====
-- What a search of the tree is to deliver: the sum over all nodes whose path, read as a filter,
-- matches the topic.
use mathlib.Core.Path.{fun_ext}
use adaptive_mqtt_transmit_p.Common.{
  ℕ, ◌+◌, Bool, true, false, none, some, List, [], ◌∷◌, if◌then◌else◌, ◌||◌, ◌&&◌, ◌≡◌, refl, arith,
  Bool-cases, inl, inr, ◌⊎◌,
}
use adaptive_mqtt_transmit_p.Common.Bytes.{Bytes, bytes_eq, bytes_eq_iff, bytes_eq_refl}
use adaptive_mqtt_transmit_p.Topic.Levels.{matches_levels}
use adaptive_mqtt_transmit_p.Subs.Tree.{
  Leaf, SubShared, SubHier, node, SubHiers, no_child, child, children_of, find_child, has_children,
}
use adaptive_mqtt_transmit_p.Subs.Search.{plus_level, hash_level}
use adaptive_mqtt_transmit_p.Topic.Validity.{is_last}

-- The names of a level are distinct, and nothing stands below a `#`, as in every tree that is built
-- from filters that mosquitto_sub_topic_check accepts.
abbrev pub Fresh : Bytes → SubHiers → Type 0
Fresh f no_child = Unit {0}
Fresh f (child g b cs) = (bytes_eq g f ≡ false) × Fresh f cs

abbrev pub IsWell : SubHiers → Type 0
IsWell no_child = Unit {0}
IsWell (child f (node below subs shared) cs) =
    Fresh f cs × (bytes_eq f hash_level && has_children below ≡ false) × IsWell below × IsWell cs

-- No level of the topic is a wildcard.
abbrev pub is_plain : Bytes → Bool
is_plain t = if bytes_eq t plus_level then false else if bytes_eq t hash_level then false else true

pub hash_not_plus : bytes_eq hash_level plus_level ≡ false
unfolding bytes_eq
hash_not_plus = refl

pub plus_not_hash : bytes_eq plus_level hash_level ≡ false
unfolding bytes_eq
plus_not_hash = refl

matches_levels-cons :
    (f t : Bytes) (path ts : List Bytes) (takes : Bool)
    → bytes_eq f hash_level ≡ false
    → (bytes_eq f plus_level || bytes_eq f t) ≡ takes
    → matches_levels (f ∷ path) (t ∷ ts) ≡ takes && matches_levels path ts
unfolding matches_levels
matches_levels-cons f t path ts takes n e = rw n (rw e refl)

matches_levels-nil : (ts : List Bytes) → matches_levels [] ts ≡ is_last ts
unfolding matches_levels
matches_levels-nil [] = refl
matches_levels-nil (t ∷ ts) = refl

-- A plain level is no wildcard.
pub plain_differs :
    (t c f : Bytes)
    → is_plain t ≡ true
    → f ≡ c
    → (c ≡ plus_level) ⊎ (c ≡ hash_level)
    → bytes_eq f t ≡ false
plain_differs t c f plain q e = elim (Bool-cases (bytes_eq f t)) [
  | inl same ↦
      ground (arith, (bytes_eq_iff f t).0 same, bytes_eq_refl plus_level, bytes_eq_refl hash_level)
  | inr n ↦ n
]

-- A weight for each subscription, such as 1 for those of one client and 0 for the others.
module _ (w : Leaf → ℕ) (skip : Leaf → Bool) (has_source : Bool) where
  -- A group of a shared subscription counts by the one whose turn it is.
  abbrev pub head_weight : List Leaf → ℕ
  head_weight [] = 0
  head_weight (leaf ∷ leaves) = w leaf

  unfoldable pub shared_weight : List SubShared → ℕ
  shared_weight [] = 0
  shared_weight (g ∷ gs) = head_weight g.subs + shared_weight gs

  unfoldable pub leaves_weight : List Leaf → ℕ
  leaves_weight [] = 0
  leaves_weight (leaf ∷ leaves) = (if skip leaf then 0 else w leaf) + leaves_weight leaves

  unfoldable pub weight : SubHier → ℕ
  weight (node cs subs shared) =
      shared_weight shared + (if has_source then leaves_weight subs else 0)

  -- The sum over all nodes whose path passes the test.
  unfoldable pub total : (List Bytes → Bool) → SubHiers → ℕ
  total p no_child = 0
  total p (child f (node below subs shared) cs) =
      (if p (f ∷ []) then weight (node below subs shared) else 0)
      + total (λ path. p (f ∷ path)) below
      + total p cs

  unfoldable pub matching : List Bytes → SubHiers → ℕ
  matching topic cs = total (λ path. matches_levels path topic) cs

  pub total-none : (cs : SubHiers) → total (λ path. false) cs ≡ 0
  unfolding total
  total-none no_child = refl
  total-none (child f (node below subs shared) cs) = omega (arith, total-none below, total-none cs)

  -- What the code visits: below a child and, at the end of the topic, the child itself.
  unfoldable pub below_child : List Bytes → SubHier → ℕ
  below_child ts b = matching ts (children_of b) + (if is_last ts then weight b else 0)

  unfoldable pub at_child : Bytes → (SubHier → ℕ) → SubHiers → ℕ
  at_child name f cs = elim (find_child name cs) [ none ↦ 0 | some b ↦ f b ]

  pub find-Fresh : (f : Bytes) (g : SubHier → ℕ) (cs : SubHiers) → Fresh f cs → at_child f g cs ≡ 0
  unfolding at_child find_child
  find-Fresh f g no_child h = refl
  find-Fresh f g (child e b cs) h = ground (arith, find-Fresh f g cs h.1)

  total-childless :
      (p : List Bytes → Bool) (cs : SubHiers) → has_children cs ≡ false → total p cs ≡ 0
  unfolding total
  total-childless p no_child h = refl
  total-childless p (child f (node b s g) cs) h = cc

  -- A child of another name.
  pub at_child-skip :
      (name f : Bytes) (g : SubHier → ℕ) (b : SubHier) (cs : SubHiers)
      → bytes_eq f name ≡ false
      → at_child name g (child f b cs) ≡ at_child name g cs
  unfolding at_child find_child
  at_child-skip name f g b cs e = ground arith

  pub at_child-take :
      (f : Bytes) (g : SubHier → ℕ) (b : SubHier) (cs : SubHiers)
      → at_child f g (child f b cs) ≡ g b
  unfolding at_child find_child
  at_child-take f g b cs = ground (arith, bytes_eq_refl f)

  matching_end_step :
      (f : Bytes) (below : SubHiers) (subs : List Leaf) (shared : List SubShared) (cs : SubHiers)
      → IsWell (child f (node below subs shared) cs)
      → matching [] cs ≡ at_child hash_level weight cs
      → matching [] (child f (node below subs shared) cs)
        ≡ at_child hash_level weight (child f (node below subs shared) cs)
  unfolding matching total matches_levels
  matching_end_step f below subs shared cs h ih = elim (Bool-cases (bytes_eq f hash_level)) [
    | inl e ↦
        let q : f ≡ hash_level = (bytes_eq_iff f hash_level).0 e in
        let fresh : Fresh hash_level cs = rw q at h.0 in
        rw q ground (
          arith,
          ih,
          bytes_eq_refl hash_level,
          at_child-take hash_level weight (node below subs shared) cs,
          total-childless (λ path. true) below,
          find-Fresh hash_level weight cs fresh,
          h.1,
        )
    | inr n ↦
        rw n rw (at_child-skip hash_level f weight (node below subs shared) cs n) ground
          (arith, ih, total-none below)
  ]

  -- What the search of the tree visits for a topic with the first level `t`.
  abbrev visited : Bytes → List Bytes → SubHiers → ℕ
  visited t ts cs =
      at_child t (below_child ts) cs
      + at_child plus_level (below_child ts) cs
      + at_child hash_level weight cs

  step_hash :
      (t : Bytes) (ts : List Bytes) (below : SubHiers) (subs : List Leaf) (shared : List SubShared)
      (cs : SubHiers)
      → IsWell (child hash_level (node below subs shared) cs)
      → bytes_eq hash_level t ≡ false
      → matching (t ∷ ts) cs ≡ visited t ts cs
      → matching (t ∷ ts) (child hash_level (node below subs shared) cs)
        ≡ visited t ts (child hash_level (node below subs shared) cs)
  unfolding matching total matches_levels
  step_hash t ts below subs shared cs h ht ih =
      let b = node below subs shared in
      ground (
        arith,
        bytes_eq_refl hash_level,
        at_child-take hash_level weight b cs,
        at_child-skip t hash_level (below_child ts) b cs ht,
        at_child-skip plus_level hash_level (below_child ts) b cs hash_not_plus,
        total-childless (λ path. true) below,
        find-Fresh hash_level weight cs h.0,
      )

  -- A child that is no `#` counts with all below it if it is `+` or the level of the topic.
  matching-child :
      (t f : Bytes) (ts : List Bytes) (b : SubHier) (cs : SubHiers) (takes : Bool)
      → bytes_eq f hash_level ≡ false
      → (bytes_eq f plus_level || bytes_eq f t) ≡ takes
      → matching (t ∷ ts) (child f b cs)
        ≡ (if takes then below_child ts b else 0) + matching (t ∷ ts) cs
  unfolding matching total below_child
  matching-child t f ts (node below subs shared) cs true n e =
      rw (fun_ext (λ path. matches_levels-cons f t path ts true n e)) rw
        (matches_levels-cons f t [] ts true n e) rw (matches_levels-nil ts) (omega arith)
  matching-child t f ts (node below subs shared) cs false n e =
      rw (fun_ext (λ path. matches_levels-cons f t path ts false n e)) rw
        (matches_levels-cons f t [] ts false n e) rw (total-none below) refl

  -- A child that is no `#`, by its name.
  step_named :
      (t f : Bytes) (ts : List Bytes) (b : SubHier) (cs : SubHiers)
      → Fresh f cs
      → is_plain t ≡ true
      → bytes_eq f hash_level ≡ false
      → matching (t ∷ ts) cs ≡ visited t ts cs
      → matching (t ∷ ts) (child f b cs) ≡ visited t ts (child f b cs)
  step_named t f ts b cs h plain n ih = elim (Bool-cases (bytes_eq f plus_level)) [
    | inl e ↦
        let q : f ≡ plus_level = (bytes_eq_iff f plus_level).0 e in
        ground (
          arith,
          q,
          matching-child t f ts b cs true n (rw e refl),
          at_child-take plus_level (below_child ts) b cs,
          find-Fresh plus_level (below_child ts) cs (rw q at h),
          at_child-skip t f (below_child ts) b cs (plain_differs t plus_level f plain q (inl refl)),
          at_child-skip hash_level f weight b cs n,
        )
    | inr m ↦ elim (Bool-cases (bytes_eq f t)) [
      | inl e ↦
          let q : f ≡ t = (bytes_eq_iff f t).0 e in
          ground (
            arith,
            q,
            matching-child t f ts b cs true n (rw m e),
            at_child-take t (below_child ts) b cs,
            find-Fresh t (below_child ts) cs (rw q at h),
            at_child-skip plus_level f (below_child ts) b cs m,
            at_child-skip hash_level f weight b cs n,
          )
      | inr k ↦ ground (
        arith,
        matching-child t f ts b cs false n (rw m k),
        at_child-skip t f (below_child ts) b cs k,
        at_child-skip plus_level f (below_child ts) b cs m,
        at_child-skip hash_level f weight b cs n,
      )
    ]
  ]

  matching_nothing :
      (t : Bytes) (ts : List Bytes) → matching (t ∷ ts) no_child ≡ visited t ts no_child
  unfolding matching total at_child find_child
  matching_nothing t ts = refl

  pub matching_step :
      (t : Bytes) (ts : List Bytes) (cs : SubHiers)
      → IsWell cs
      → is_plain t ≡ true
      → matching (t ∷ ts) cs ≡ visited t ts cs
  matching_step t ts no_child h plain = matching_nothing t ts
  matching_step t ts (child f (node below subs shared) cs) h plain =
      let ih = matching_step t ts cs h.3 plain in
      elim (Bool-cases (bytes_eq f hash_level)) [
        | inl e ↦
            let q : f ≡ hash_level = (bytes_eq_iff f hash_level).0 e in
            let differs = plain_differs t hash_level hash_level plain refl (inr refl) in
            rw q (step_hash t ts below subs shared cs (rw q at h) differs ih)
        | inr n ↦ step_named t f ts (node below subs shared) cs h.0 plain n ih
      ]

  pub matching_end : (cs : SubHiers) → IsWell cs → matching [] cs ≡ at_child hash_level weight cs
  unfolding matching total at_child find_child
  matching_end no_child h = refl
  matching_end (child f (node below subs shared) cs) h =
      matching_end_step f below subs shared cs h (matching_end cs h.3)
