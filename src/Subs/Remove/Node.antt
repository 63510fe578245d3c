-- ===== src/Subs/Remove/Node.antt =====
-- What `sub__remove` leaves in the tree, node by node.
use adaptive_mqtt_transmit_p.Common.{
  ℕ, ◌≡◌, ◌≢◌, refl, sym, ap, ◌∙◌, Bool, true, false, Option, none, some, List, [], ◌∷◌, arith,
  if_rule, Bool-cases, Option-cases, inl, inr, if◌then◌else◌,
}
use adaptive_mqtt_transmit_p.Common.Bytes.{Bytes, bytes_eq, bytes_eq_iff}
use adaptive_mqtt_transmit_p.Subs.Tokens.{tokens, topic_tokenise, head_of}
use adaptive_mqtt_transmit_p.Subs.Tree.{
  SubHier, SubHiers, node, no_child, child, children_of, subs_of, shared_of, with_children,
  find_child, set_child, delete_child, new_hier,
}
use adaptive_mqtt_transmit_p.Subs.Search.Weight.{IsWell, Fresh}
use adaptive_mqtt_transmit_p.Subs.Search.Keeps.{find_child-set_child, find_child-IsWell}
use adaptive_mqtt_transmit_p.Subs.Add.{Broker}
use adaptive_mqtt_transmit_p.Subs.Add.Weight.{node_at}
use adaptive_mqtt_transmit_p.Subs.Remove.{
  remove_normal, remove_shared, remove_at, is_bare, put_branch, remove_recurse, uncount_sub,
  sub_remove,
}

pub find-set_same :
    (t : Bytes) (b b' : SubHier) (cs : SubHiers)
    → find_child t cs ≡ some b
    → find_child t (set_child t b' cs) ≡ some b'
unfolding find_child set_child
find-set_same t b b' no_child e = cc
find-set_same t b b' (child f c cs) e = ground (arith, find-set_same t b b' cs)

find_child-Fresh : (t : Bytes) (cs : SubHiers) → Fresh t cs → find_child t cs ≡ none
unfolding find_child
find_child-Fresh t no_child h = refl
find_child-Fresh t (child f c cs) h = rw h.0 (find_child-Fresh t cs h.1)

find-delete_same : (t : Bytes) (cs : SubHiers) → IsWell cs → find_child t (delete_child t cs) ≡ none
unfolding find_child delete_child
find-delete_same t no_child h = refl
find-delete_same t (child f (node below subs shared) cs) h = elim (Bool-cases (bytes_eq f t)) [
  | inl same ↦ rw same (find_child-Fresh t cs (rw ((bytes_eq_iff f t).0 same) at h.0))
  | inr n ↦ rw (n, n) (find-delete_same t cs h.3)
]

find-delete_other :
    (t u : Bytes) (cs : SubHiers)
    → bytes_eq t u ≡ false
    → find_child u (delete_child t cs) ≡ find_child u cs
unfolding find_child delete_child
find-delete_other t u no_child n = refl
find-delete_other t u (child f c cs) n = elim (Bool-cases (bytes_eq f t)) [
  | inl same ↦ rw (same, (bytes_eq_iff f t).0 same, n) refl
  | inr m ↦ rw m (ap (λ r. if bytes_eq f u then some c else r) (find-delete_other t u cs n))
]

is_bare-new : (b : SubHier) → is_bare b ≡ true → b ≡ new_hier
is_bare-new (node no_child [] []) h = refl
is_bare-new (node (child f c cs) subs shared) h = ground (arith, h)
is_bare-new (node no_child (leaf ∷ subs) shared) h = ground (arith, h)
is_bare-new (node no_child [] (g ∷ shared)) h = ground (arith, h)

find-put_other :
    (t u : Bytes) (b : SubHier) (cs : SubHiers)
    → bytes_eq t u ≡ false
    → find_child u (put_branch t b cs) ≡ find_child u cs
unfolding put_branch
find-put_other t u b cs n =
    if_rule (λ ds. find_child u ds ≡ find_child u cs) (is_bare b) (find-delete_other t u cs n)
      (find_child-set_child t u b cs n)

-- The rest of a path below a child, whether or not there is one.
node_at-put :
    (t : Bytes) (us : List Bytes) (b b' : SubHier) (cs : SubHiers) (n : SubHier)
    → IsWell cs
    → find_child t cs ≡ some b
    → node_at (t ∷ us) (with_children n (put_branch t b' cs)) ≡ node_at us b'
unfolding node_at put_branch
node_at-put t us b b' cs (node ds subs shared) h e = elim (Bool-cases (is_bare b')) [
  | inl bare ↦ rw (bare, node_at, find-delete_same t cs h, is_bare-new b' bare) refl
  | inr n ↦ rw (n, node_at, find-set_same t b b' cs e) refl
]

pub node_at-new : (us : List Bytes) → node_at us new_hier ≡ new_hier
unfolding node_at find_child
node_at-new [] = refl
node_at-new (u ∷ us) = node_at-new us

-- Two nodes with the same subscriptions.
abbrev pub IsAlike : SubHier → SubHier → Type 0
IsAlike m n = (subs_of m ≡ subs_of n) × (shared_of m ≡ shared_of n)

pub same_node : (m n : SubHier) → m ≡ n → IsAlike m n
same_node m n e = (ap subs_of e, ap shared_of e)

pub IsAlike-moved : (m m' n n' : SubHier) → m ≡ m' → n ≡ n' → IsAlike m' n' → IsAlike m n
IsAlike-moved m m' n n' p q h =
    (ap subs_of p ∙ (h.0 ∙ sym (ap subs_of q)), ap shared_of p ∙ (h.1 ∙ sym (ap shared_of q)))

pub differs_below : (t u : Bytes) (ts us : List Bytes) → t ≡ u → u ∷ us ≢ t ∷ ts → us ≢ ts
differs_below t u ts us q d = λ k. d cc

pub node_at-found :
    (t : Bytes) (us : List Bytes) (n b : SubHier)
    → find_child t (children_of n) ≡ some b
    → node_at (t ∷ us) n ≡ node_at us b
unfolding node_at
node_at-found t us n b e = rw (node_at, e) refl

pub same_child :
    (u : Bytes) (us : List Bytes) (m n : SubHier)
    → find_child u (children_of m) ≡ find_child u (children_of n)
    → IsAlike (node_at (u ∷ us) m) (node_at (u ∷ us) n)
unfolding node_at
same_child u us m n e =
    same_node (node_at (u ∷ us) m) (node_at (u ∷ us) n)
      (ap (λ (o : Option SubHier). elim o [ none ↦ node_at us new_hier | some b ↦ node_at us b ]) e)

children_of-with : (n : SubHier) (cs : SubHiers) → children_of (with_children n cs) ≡ cs
children_of-with (node ds subs shared) cs = refl

module _ (f : SubHier → SubHier × Bool) (none_there : (f new_hier).0 ≡ new_hier)
    (keeps : (n : SubHier) → children_of (f n).0 ≡ children_of n) where
  pub remove_recurse-node :
      (ts : List Bytes) (n : SubHier)
      → IsWell (children_of n)
      → node_at ts (remove_recurse f ts n).0 ≡ (f (node_at ts n)).0
  unfolding remove_recurse node_at
  remove_recurse-node [] n h = refl
  remove_recurse-node (t ∷ ts) n h = elim (Option-cases (find_child t (children_of n))) [
    | inl e ↦ rw (remove_recurse, e, node_at, e, node_at-new ts) (sym none_there)
    | inr (b, e) ↦
        rw (remove_recurse, e)
          (node_at-put t ts b (remove_recurse f ts b).0 (children_of n) n h e
            ∙ rw (node_at, e)
                (remove_recurse-node ts b (find_child-IsWell t b (children_of n) h e)))
  ]

  found :
      (t : Bytes) (ts : List Bytes) (n b : SubHier)
      → find_child t (children_of n) ≡ some b
      → (remove_recurse f (t ∷ ts) n).0
        ≡ with_children n (put_branch t (remove_recurse f ts b).0 (children_of n))
  unfolding remove_recurse
  found t ts n b e = rw (remove_recurse, e) refl

  remove_recurse-top :
      (t : Bytes) (ts : List Bytes) (n : SubHier) → IsAlike (remove_recurse f (t ∷ ts) n).0 n
  unfolding remove_recurse
  remove_recurse-top t ts (node cs subs shared) = elim (Option-cases (find_child t cs)) [
    | inl e ↦ rw (remove_recurse, e) (refl, refl)
    | inr (b, e) ↦ rw (remove_recurse, e) (refl, refl)
  ]

  pub remove_recurse-other :
      (ts us : List Bytes) (n : SubHier)
      → IsWell (children_of n)
      → us ≢ ts
      → IsAlike (node_at us (remove_recurse f ts n).0) (node_at us n)
  unfolding remove_recurse node_at
  remove_recurse-other [] [] n h d = ground (arith, d refl)
  remove_recurse-other [] (u ∷ us) n h d = same_child u us (f n).0 n (ap (find_child u) (keeps n))
  remove_recurse-other (t ∷ ts) [] n h d = remove_recurse-top t ts n
  remove_recurse-other (t ∷ ts) (u ∷ us) n h d =
      elim (Option-cases (find_child t (children_of n))) [
        | inl e ↦ rw (remove_recurse, e) (refl, refl)
        | inr (b, e) ↦
            let left = with_children n (put_branch t (remove_recurse f ts b).0 (children_of n)) in
            rw (found t ts n b e) (elim (Bool-cases (bytes_eq t u)) [
              | inr m ↦ same_child u us left n (
                  ap (find_child u) (children_of-with n _)
                  ∙ find-put_other t u (remove_recurse f ts b).0 (children_of n) m)
              | inl same ↦
                  let q : t ≡ u = (bytes_eq_iff t u).0 same in
                  rw (sym q) (
                    IsAlike-moved (node_at (t ∷ us) left) (node_at us (remove_recurse f ts b).0)
                      (node_at (t ∷ us) n) (node_at us b)
                      (node_at-put t us b (remove_recurse f ts b).0 (children_of n) n h e)
                      (node_at-found t us n b e)
                      (remove_recurse-other ts us b (find_child-IsWell t b (children_of n) h e)
                        (differs_below t u ts us q d)))
            ])
      ]

pub remove_at-new :
    (i : ℕ) (sharename : Option Bytes) → (remove_at i sharename new_hier).0 ≡ new_hier
unfolding remove_normal remove_shared
remove_at-new i none = refl
remove_at-new i (some name) = refl

pub remove_at-children :
    (i : ℕ) (sharename : Option Bytes) (n : SubHier)
    → children_of (remove_at i sharename n).0 ≡ children_of n
unfolding remove_normal remove_shared
remove_at-children i none (node cs subs shared) = refl
remove_at-children i (some name) (node cs subs shared) = refl

uncount_sub-root :
    (i : ℕ) (path : List Bytes) (sharename : Option Bytes) (b : Broker)
    → (uncount_sub i path sharename b).root ≡ b.root
unfolding uncount_sub
uncount_sub-root i path none b = refl
uncount_sub-root i path (some name) b = refl

-- The tree behind `sub__remove`, where the root of the filter is there.
pub root-found :
    (i : ℕ) (filter : Bytes) (reason : ℕ) (b : Broker) (topics : List Bytes)
    (sharename : Option Bytes) (n : SubHier)
    → topic_tokenise filter ≡ tokens topics sharename
    → find_child (head_of topics) b.root ≡ some n
    → (sub_remove i filter reason b).0.root
      ≡ set_child (head_of topics) (remove_recurse (remove_at i sharename) topics n).0 b.root
unfolding sub_remove
root-found i filter reason b topics sharename n t e =
    let r = remove_recurse (remove_at i sharename) topics n in
    let b' = record b { root = set_child (head_of topics) r.0 b.root } in
    rw (sub_remove, t, e)
      (if_rule (λ (x : Broker). x.root ≡ b'.root) r.1
        (uncount_sub-root i (head_of topics ∷ topics) sharename b') refl)

pub root-missing :
    (i : ℕ) (filter : Bytes) (reason : ℕ) (b : Broker) (topics : List Bytes)
    (sharename : Option Bytes)
    → topic_tokenise filter ≡ tokens topics sharename
    → find_child (head_of topics) b.root ≡ none
    → (sub_remove i filter reason b).0.root ≡ b.root
unfolding sub_remove
root-missing i filter reason b topics sharename t e = rw (sub_remove, t, e) refl
