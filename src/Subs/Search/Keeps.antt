-- ===== src/Subs/Search/Keeps.antt =====
-- Replacing a child leaves the other children as they are.
use mathlib.Core.Path.{subst}
use adaptive_mqtt_transmit_p.Common.{false, some, ◌≡◌, refl, arith, Bool-cases, inl, inr}
use adaptive_mqtt_transmit_p.Common.Bytes.{Bytes, bytes_eq, bytes_eq_iff}
use adaptive_mqtt_transmit_p.Subs.Tree.{
  SubHier, node, SubHiers, no_child, child, children_of, find_child, set_child, has_children,
}
use adaptive_mqtt_transmit_p.Subs.Search.{hash_level}
use adaptive_mqtt_transmit_p.Subs.Search.Weight.{IsWell}

pub find_child-set_child :
    (name other : Bytes) (b : SubHier) (cs : SubHiers)
    → bytes_eq name other ≡ false
    → find_child other (set_child name b cs) ≡ find_child other cs
unfolding find_child set_child
find_child-set_child name other b no_child n = refl
find_child-set_child name other b (child f b' cs) n = ground (
  arith,
  find_child-set_child name other b cs n,
  bytes_eq_iff f name,
  bytes_eq_iff f other,
  bytes_eq_iff name other,
)

pub find_child-IsWell :
    (name : Bytes) (b : SubHier) (cs : SubHiers)
    → IsWell cs
    → find_child name cs ≡ some b
    → IsWell (children_of b)
unfolding find_child
find_child-IsWell name b no_child h e = cc
find_child-IsWell name b (child f (node below subs shared) cs) h e =
    elim (Bool-cases (bytes_eq f name)) [
      | inl same ↦
          let q : some (node below subs shared) ≡ some b = rw same at e in
          let r : node below subs shared ≡ b = cc in subst (λ x. IsWell (children_of x)) r h.2
      | inr n ↦ find_child-IsWell name b cs h.3 (rw n at e)
    ]

pub hash-childless :
    (b : SubHier) (cs : SubHiers)
    → IsWell cs
    → find_child hash_level cs ≡ some b
    → has_children (children_of b) ≡ false
unfolding find_child
hash-childless b no_child h e = cc
hash-childless b (child f (node below subs shared) cs) h e =
    elim (Bool-cases (bytes_eq f hash_level)) [
      | inl same ↦
          let q : some (node below subs shared) ≡ some b = rw same at e in
          let r : node below subs shared ≡ b = cc in
          subst (λ x. has_children (children_of x) ≡ false) r (ground (arith, h.1))
      | inr n ↦ hash-childless b cs h.3 (rw n at e)
    ]
