-- ===== src/Subs/Add/Shape.antt =====
-- A change at one path keeps the tree well-formed.
use adaptive_mqtt_transmit_p.Common.{
  false, not, none, some, List, [], ◌∷◌, ltb, ◌&&◌, ◌≡◌, refl, arith, Bool-cases, Option-cases, inl,
  inr, length,
}
use adaptive_mqtt_transmit_p.Common.Bytes.{Bytes, bytes_eq, bytes_eq_iff, bytes_eq_refl}
use adaptive_mqtt_transmit_p.Broker.Types.{Rc}
use adaptive_mqtt_transmit_p.Subs.Tree.{
  SubHier, node, SubHiers, no_child, child, children_of, with_children, new_hier, find_child,
  set_child, add_child, has_children,
}
use adaptive_mqtt_transmit_p.Subs.Search.{hash_level}
use adaptive_mqtt_transmit_p.Topic.Validity.{is_last}
use adaptive_mqtt_transmit_p.Subs.Search.Weight.{Fresh, IsWell}
use adaptive_mqtt_transmit_p.Subs.Search.Keeps.{find_child-IsWell, hash-childless}
use adaptive_mqtt_transmit_p.Subs.Add.{at_path}

-- `#` stands only at the end of a path.
abbrev pub HashIsLast : List Bytes → Type 0
HashIsLast [] = Unit {0}
HashIsLast (t ∷ ts) = (bytes_eq t hash_level && not (is_last ts) ≡ false) × HashIsLast ts

-- What a node of the name `t` must be.
abbrev Suits : Bytes → SubHier → Type 0
Suits t b = (bytes_eq t hash_level && has_children (children_of b) ≡ false) × IsWell (children_of b)

IsWell-child :
    (t : Bytes) (b : SubHier) (cs : SubHiers)
    → Fresh t cs
    → Suits t b
    → IsWell cs
    → IsWell (child t b cs)
IsWell-child t (node below subs shared) cs f s h = (f, s.0, s.1, h)

set_child-Fresh :
    (f t : Bytes) (b : SubHier) (cs : SubHiers) → Fresh f cs → Fresh f (set_child t b cs)
unfolding set_child
set_child-Fresh f t b no_child h = tt
set_child-Fresh f t b (child g c cs) h = elim (Bool-cases (bytes_eq g t)) [
  | inl e ↦ rw e h
  | inr n ↦ rw n (h.0, set_child-Fresh f t b cs h.1)
]

set_child-IsWell :
    (t : Bytes) (b : SubHier) (cs : SubHiers) → Suits t b → IsWell cs → IsWell (set_child t b cs)
unfolding set_child
set_child-IsWell t b no_child s h = tt
set_child-IsWell t b (child g (node below subs shared) cs) s h = elim (Bool-cases (bytes_eq g t)) [
  | inl e ↦ rw e (IsWell-child g b cs h.0 (rw ((bytes_eq_iff g t).0 e) s) h.3)
  | inr n ↦ rw n (set_child-Fresh g t b cs h.0, h.1, h.2, set_child-IsWell t b cs s h.3)
]

add_child-Fresh :
    (f t : Bytes) (b : SubHier) (cs : SubHiers)
    → bytes_eq t f ≡ false
    → Fresh f cs
    → Fresh f (add_child t b cs)
unfolding add_child
add_child-Fresh f t b no_child n h = (n, tt)
add_child-Fresh f t b (child g c cs) n h = (h.0, add_child-Fresh f t b cs n h.1)

bytes_eq_sym : (a b : Bytes) → bytes_eq a b ≡ false → bytes_eq b a ≡ false
bytes_eq_sym a b n = elim (Bool-cases (bytes_eq b a)) [
  | inl e ↦ ground (arith, (bytes_eq_iff b a).0 e, bytes_eq_refl a, n)
  | inr k ↦ k
]

add_child-IsWell :
    (t : Bytes) (b : SubHier) (cs : SubHiers)
    → find_child t cs ≡ none
    → Suits t b
    → IsWell cs
    → IsWell (add_child t b cs)
unfolding add_child find_child
add_child-IsWell t b no_child e s h = IsWell-child t b no_child tt s tt
add_child-IsWell t b (child g (node below subs shared) cs) e s h =
    elim (Bool-cases (bytes_eq g t)) [
      | inl same ↦ let z : some (node below subs shared) ≡ none = rw same at e in cc
      | inr n ↦ (
        add_child-Fresh g t b cs (bytes_eq_sym g t n) h.0,
        h.1,
        h.2,
        add_child-IsWell t b cs (rw n at e) s h.3,
      )
    ]

children-with_children : (n : SubHier) (cs : SubHiers) → children_of (with_children n cs) ≡ cs
children-with_children (node cs' subs shared) cs = refl

hash_child :
    (t : Bytes) (b : SubHier) (cs : SubHiers)
    → IsWell cs
    → find_child t cs ≡ some b
    → (bytes_eq t hash_level && has_children (children_of b) ≡ false)
hash_child t b cs h e = elim (Bool-cases (bytes_eq t hash_level)) [
  | inl same ↦
      let q : t ≡ hash_level = (bytes_eq_iff t hash_level).0 same in
      rw same (hash-childless b cs h (rw q at e))
  | inr n ↦ rw n refl
]

module _ (f : SubHier → SubHier × Rc)
    (keeps : (b : SubHier) → children_of (f b).0 ≡ children_of b) where
  at_end : (b : SubHier) → (at_path [] f b).0 ≡ (f b).0
  unfolding at_path
  at_end b = refl

  childless-at_path :
      (t : Bytes) (ts : List Bytes) (b : SubHier)
      → HashIsLast (t ∷ ts)
      → (bytes_eq t hash_level && has_children (children_of b) ≡ false)
      → (bytes_eq t hash_level && has_children (children_of (at_path ts f b).0) ≡ false)
  childless-at_path t [] b g s = rw (at_end b) rw (keeps b) s
  childless-at_path t (t' ∷ ts) b g s = ground (arith, g.0)

  pub at_path-IsWell :
      (ts : List Bytes) (n : SubHier)
      → HashIsLast ts
      → IsWell (children_of n)
      → IsWell (children_of (at_path ts f n).0)
  unfolding at_path
  at_path-IsWell [] n g h = rw (keeps n) h
  at_path-IsWell (t ∷ ts) n g h = elim (Bool-cases (ltb 65535 (length t))) [
    | inl e ↦ rw e h
    | inr short ↦ rw short elim (Option-cases (find_child t (children_of n))) [
      | inl e ↦
          let w = at_path-IsWell ts new_hier g.1 tt in
          let s = childless-at_path t ts new_hier g (ground arith) in
          rw (e, at_path) rw
            (children-with_children n (add_child t (at_path ts f new_hier).0 (children_of n)))
            (add_child-IsWell t (at_path ts f new_hier).0 (children_of n) e (s, w) h)
      | inr (b, e) ↦
          let w = at_path-IsWell ts b g.1 (find_child-IsWell t b (children_of n) h e) in
          let s = childless-at_path t ts b g (hash_child t b (children_of n) h e) in
          rw (e, at_path) rw
            (children-with_children n (set_child t (at_path ts f b).0 (children_of n)))
            (set_child-IsWell t (at_path ts f b).0 (children_of n) (s, w) h)
    ]
  ]
