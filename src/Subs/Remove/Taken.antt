-- ===== src/Subs/Remove/Taken.antt =====
-- What it means that a subscription of a client is taken out of a node.
use adaptive_mqtt_transmit_p.Common.{
  ℕ, ◌≡◌, refl, ap, true, false, Option, none, some, List, [], ◌∷◌, ◌++◌, ◌==◌, ==_iff, ◌⊎◌, inl,
  inr, All, Bool-cases, if◌then◌else◌, Bool,
}
use adaptive_mqtt_transmit_p.Common.Bytes.{Bytes, bytes_eq}
use adaptive_mqtt_transmit_p.Subs.Tree.{
  Leaf, SubShared, SubHier, node, children_of, subs_of, shared_of, has_subs,
}
use adaptive_mqtt_transmit_p.Subs.Remove.{
  remove_leaf, remove_normal, remove_from_group, remove_shared, remove_at,
}

-- No subscription of the list is the client's.
abbrev pub Lacks : ℕ → List Leaf → Type 0
Lacks i leaves = All (λ leaf. (leaf.client == i) ≡ false) leaves

-- `after` is `before` without the first subscription of the client.
abbrev pub Loses : ℕ → List Leaf → List Leaf → Type 0
Loses i before after =
    (xs ys : List Leaf) × (leaf : Leaf) × Lacks i xs
    × (leaf.client ≡ i)
    × (before ≡ xs ++ leaf ∷ ys)
    × (after ≡ xs ++ ys)

-- The list without the client's first subscription, if it has one.
abbrev pub IsWithout : ℕ → List Leaf → List Leaf → Type 0
IsWithout i before after = (Lacks i before × (after ≡ before)) ⊎ Loses i before after

-- The groups without the client's first subscription in the group of the name, if there is one; a
-- group that has none left is gone.
abbrev pub IsWithoutIn : ℕ → Bytes → List SubShared → List SubShared → Type 0
IsWithoutIn i name before after =
    (All (λ g. bytes_eq g.name name ≡ false) before × (after ≡ before))
    ⊎ (gs hs : List SubShared) × (g : SubShared) × All (λ g'. bytes_eq g'.name name ≡ false) gs
      × (bytes_eq g.name name ≡ true)
      × (before ≡ gs ++ g ∷ hs)
      × ((Lacks i g.subs × (after ≡ before))
          ⊎ (left : List Leaf) × Loses i g.subs left
            × (after ≡ gs ++ (if has_subs left then record g { subs = left } ∷ hs else hs)))

abbrev pub IsUnsubscribed : ℕ → Option Bytes → SubHier → SubHier → Type 0
IsUnsubscribed i none m n =
    IsWithout i (subs_of m) (subs_of n)
    × (shared_of n ≡ shared_of m)
    × (children_of n ≡ children_of m)
IsUnsubscribed i (some name) m n =
    IsWithoutIn i name (shared_of m) (shared_of n)
    × (subs_of n ≡ subs_of m)
    × (children_of n ≡ children_of m)

remove_leaf_cases :
    (i : ℕ) (leaves : List Leaf)
    → (Lacks i leaves × (remove_leaf i leaves ≡ (leaves, false)))
      ⊎ (left : List Leaf) × Loses i leaves left × (remove_leaf i leaves ≡ (left, true))
unfolding remove_leaf
remove_leaf_cases i [] = inl (tt, refl)
remove_leaf_cases i (leaf ∷ leaves) = elim (Bool-cases (leaf.client == i)) [
  | inl y ↦
      rw y (inr (leaves, ([], leaves, leaf, tt, (==_iff leaf.client i).0 y, refl, refl), refl))
  | inr n ↦ elim (remove_leaf_cases i leaves) [
    | inl (lacks, e) ↦ rw (n, e) (inl ((refl, lacks), refl))
    | inr (left, (xs, ys, l, ax, c, p, q), e) ↦
        let cons = λ (ls : List Leaf). leaf ∷ ls in
        rw (n, e) (inr (leaf ∷ left, (leaf ∷ xs, ys, l, (n, ax), c, ap cons p, ap cons q), refl))
  ]
]

remove_leaf-IsWithout : (i : ℕ) (leaves : List Leaf) → IsWithout i leaves (remove_leaf i leaves).0
remove_leaf-IsWithout i leaves = elim (remove_leaf_cases i leaves) [
  | inl (lacks, e) ↦ inl (lacks, ap (λ (x : List Leaf × Bool). x.0) e)
  | inr (left, loses, e) ↦ rw e (inr loses)
]

remove_from_group-IsWithoutIn :
    (i : ℕ) (name : Bytes) (gs : List SubShared)
    → IsWithoutIn i name gs (remove_from_group i name gs).0
unfolding remove_from_group
remove_from_group-IsWithoutIn i name [] = inl (tt, refl)
remove_from_group-IsWithoutIn i name (g ∷ gs) = elim (Bool-cases (bytes_eq g.name name)) [
  | inl y ↦ elim (remove_leaf_cases i g.subs) [
    | inl (lacks, e) ↦ rw (y, e) (inr ([], gs, g, tt, y, refl, inl (lacks, refl)))
    | inr (left, loses, e) ↦ elim (Bool-cases (has_subs left)) [
      | inl some_left ↦
          rw (y, e, some_left) (inr ([], gs, g, tt, y, refl, inr (left, loses, rw some_left refl)))
      | inr none_left ↦
          rw (y, e, none_left) (inr ([], gs, g, tt, y, refl, inr (left, loses, rw none_left refl)))
    ]
  ]
  | inr n ↦
      let cons = λ (hs : List SubShared). g ∷ hs in
      elim (remove_from_group-IsWithoutIn i name gs) [
        | inl (none_there, e) ↦ rw n (inl ((refl, none_there), ap cons e))
        | inr (fs, hs, h, ax, y, p, inl (lacks, e)) ↦
            rw n (inr (g ∷ fs, hs, h, (n, ax), y, ap cons p, inl (lacks, ap cons e)))
        | inr (fs, hs, h, ax, y, p, inr (left, loses, e)) ↦
            rw n (inr (g ∷ fs, hs, h, (n, ax), y, ap cons p, inr (left, loses, ap cons e)))
      ]
]

pub remove_at-IsUnsubscribed :
    (i : ℕ) (sharename : Option Bytes) (n : SubHier)
    → IsUnsubscribed i sharename n (remove_at i sharename n).0
unfolding remove_normal remove_shared
remove_at-IsUnsubscribed i none (node cs subs shared) = (remove_leaf-IsWithout i subs, refl, refl)
remove_at-IsUnsubscribed i (some name) (node cs subs shared) =
    (remove_from_group-IsWithoutIn i name shared, refl, refl)
