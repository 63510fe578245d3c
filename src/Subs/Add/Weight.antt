-- ===== src/Subs/Add/Weight.antt =====
-- What a change at one path does to the sum over the paths of the tree.
use adaptive_mqtt_transmit_p.Common.{
  ℕ, ◌+◌, ◌≤◌, Bool, false, none, some, List, [], ◌∷◌, if◌then◌else◌, ltb, ◌≡◌, refl, ap, arith,
  Bool-cases, Option-cases, inl, inr, All, length,
}
use adaptive_mqtt_transmit_p.Common.Bytes.{Bytes, bytes_eq, bytes_eq_iff}
use adaptive_mqtt_transmit_p.Broker.Types.{Rc}
use adaptive_mqtt_transmit_p.Subs.Tree.{
  Leaf, SubHier, node, SubHiers, no_child, child, children_of, with_children, new_hier, find_child,
  set_child, add_child,
}
use adaptive_mqtt_transmit_p.Subs.Search.Weight.{weight, shared_weight, leaves_weight, total}
use adaptive_mqtt_transmit_p.Subs.Add.{at_path}

-- The levels of a path are short enough for the tree.
abbrev pub AreShort : List Bytes → Type 0
AreShort ts = All (λ t. length t ≤ 65535) ts

-- The node at the end of a path, a new one if there is none.
unfoldable pub node_at : List Bytes → SubHier → SubHier
node_at [] n = n
node_at (t ∷ ts) n = elim (find_child t (children_of n)) [
  | none ↦ node_at ts new_hier
  | some b ↦ node_at ts b
]

short_enough : (t : Bytes) → length t ≤ 65535 → ltb 65535 (length t) ≡ false
short_enough t h = ground arith

module _ (w : Leaf → ℕ) (skip : Leaf → Bool) (has_source : Bool) where
  -- A child of the name `t` in the sum.
  abbrev part : (List Bytes → Bool) → Bytes → SubHier → ℕ
  part p t b =
      (if p (t ∷ []) then weight w skip has_source b else 0)
      + total w skip has_source (λ path. p (t ∷ path)) (children_of b)

  total-child :
      (p : List Bytes → Bool) (f : Bytes) (b : SubHier) (cs : SubHiers)
      → total w skip has_source p (child f b cs) ≡ part p f b + total w skip has_source p cs
  unfolding total
  total-child p f (node below subs shared) cs = refl

  total-set_child :
      (p : List Bytes → Bool) (t : Bytes) (b b' : SubHier) (cs : SubHiers)
      → find_child t cs ≡ some b
      → total w skip has_source p (set_child t b' cs) + part p t b
        ≡ total w skip has_source p cs + part p t b'
  unfolding find_child set_child
  total-set_child p t b b' no_child e = cc
  total-set_child p t b b' (child f c cs) e = elim (Bool-cases (bytes_eq f t)) [
    | inl same ↦
        let q : f ≡ t = (bytes_eq_iff f t).0 same in
        let r : some c ≡ some b = rw same at e in
        let k : c ≡ b = cc in
        rw same (
          omega (
            arith,
            total-child p f b' cs,
            total-child p f c cs,
            ap (λ x. part p x b') q,
            ap (λ x. part p x c) q,
            ap (part p t) k,
          ))
    | inr n ↦ rw n (
        omega (
          arith,
          total-child p f c cs,
          total-child p f c (set_child t b' cs),
          total-set_child p t b b' cs (rw n at e),
        ))
  ]

  total-add_child :
      (p : List Bytes → Bool) (t : Bytes) (b' : SubHier) (cs : SubHiers)
      → total w skip has_source p (add_child t b' cs) ≡ total w skip has_source p cs + part p t b'
  unfolding add_child
  total-add_child p t b' no_child = omega (arith, total-child p t b' no_child)
  total-add_child p t b' (child f c cs) = omega (
    arith,
    total-child p f c cs,
    total-child p f c (add_child t b' cs),
    total-add_child p t b' cs,
  )

  part-new_hier : (p : List Bytes → Bool) (t : Bytes) → part p t new_hier ≡ 0
  unfolding weight shared_weight leaves_weight total
  part-new_hier p t = ground arith

  module _ (f : SubHier → SubHier × Rc)
      (keeps : (b : SubHier) → children_of (f b).0 ≡ children_of b) (δ : ℕ) where
    -- The change at the end of the path is worth δ.
    abbrev pub Adds : List Bytes → SubHier → Type 0
    Adds ts n =
        weight w skip has_source (f (node_at ts n)).0 ≡ weight w skip has_source (node_at ts n) + δ

    weight-with_children :
        (n : SubHier) (cs : SubHiers)
        → weight w skip has_source (with_children n cs) ≡ weight w skip has_source n
    unfolding weight
    weight-with_children (node cs' subs shared) cs = refl

    children-with_children : (n : SubHier) (cs : SubHiers) → children_of (with_children n cs) ≡ cs
    children-with_children (node cs' subs shared) cs = refl

    total-at_path_step :
        (p : List Bytes → Bool) (t : Bytes) (ts : List Bytes) (n : SubHier)
        → length t ≤ 65535
        → ((b : SubHier)
            → node_at ts b ≡ node_at (t ∷ ts) n
            → part p t (at_path ts f b).0 ≡ part p t b + (if p (t ∷ ts) then δ else 0))
        → total w skip has_source p (children_of (at_path (t ∷ ts) f n).0)
          ≡ total w skip has_source p (children_of n) + (if p (t ∷ ts) then δ else 0)
    unfolding at_path node_at
    total-at_path_step p t ts n short ih =
        let cs = children_of n in
        rw (short_enough t short) elim (Option-cases (find_child t cs)) [
          | inl e ↦
              rw (e, at_path) rw
                (children-with_children n (add_child t (at_path ts f new_hier).0 cs)) omega
                (
                  arith,
                  total-add_child p t (at_path ts f new_hier).0 cs,
                  part-new_hier p t,
                  ih new_hier (rw (e, node_at) refl),
                )
          | inr (b, e) ↦
              rw (e, at_path) rw (children-with_children n (set_child t (at_path ts f b).0 cs))
                omega
                (arith, total-set_child p t b (at_path ts f b).0 cs e, ih b (rw (e, node_at) refl))
        ]

    weight-at_path :
        (t : Bytes) (ts : List Bytes) (n : SubHier)
        → weight w skip has_source (at_path (t ∷ ts) f n).0 ≡ weight w skip has_source n
    unfolding at_path
    weight-at_path t ts n = elim (Bool-cases (ltb 65535 (length t))) [
      | inl e ↦ rw e refl
      | inr short ↦ rw short elim (Option-cases (find_child t (children_of n))) [
        | inl e ↦ rw (e, at_path) (weight-with_children n _)
        | inr (b, e) ↦ rw (e, at_path) (weight-with_children n _)
      ]
    ]

    part-at_path :
        (ts : List Bytes) (p : List Bytes → Bool) (t : Bytes) (n : SubHier)
        → AreShort ts
        → Adds ts n
        → part p t (at_path ts f n).0 ≡ part p t n + (if p (t ∷ ts) then δ else 0)
    unfolding at_path node_at
    part-at_path [] p t n short a = rw (keeps n) (ground (arith, a))
    part-at_path (t' ∷ ts) p t n short a =
        let q = λ (path : List Bytes). p (t ∷ path) in
        let below =
          total-at_path_step q t' ts n short.0 λ b e. part-at_path ts q t' b short.1 (rw e a) in
        rw (weight-at_path t' ts n) (omega (arith, below))

    -- The sum grows by δ if the path passes the test, and stays as it is otherwise.
    pub total-at_path :
        (t : Bytes) (ts : List Bytes) (p : List Bytes → Bool) (n : SubHier)
        → AreShort (t ∷ ts)
        → Adds (t ∷ ts) n
        → total w skip has_source p (children_of (at_path (t ∷ ts) f n).0)
          ≡ total w skip has_source p (children_of n) + (if p (t ∷ ts) then δ else 0)
    total-at_path t ts p n short a =
        total-at_path_step p t ts n short.0 λ b e. part-at_path ts p t b short.1 (rw e a)
