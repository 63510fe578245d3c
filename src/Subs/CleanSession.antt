-- ===== src/Subs/CleanSession.antt =====
-- `sub__clean_session` of src/subs.c: all subscriptions of a client are taken out of the tree.
use adaptive_mqtt_transmit_p.Common.{ℕ, Option, none, some, List, [], ◌∷◌, ◌==◌, if◌then◌else◌}
use adaptive_mqtt_transmit_p.Common.Bytes.{Bytes}
use adaptive_mqtt_transmit_p.Common.Int.{pos, ◌-ℤ◌}
use adaptive_mqtt_transmit_p.Subs.Tree.{find_child, set_child}
use adaptive_mqtt_transmit_p.Subs.Add.{ClientSub, Broker}
use adaptive_mqtt_transmit_p.Subs.Remove.{remove_at, remove_recurse}

-- The counter of the subscriptions of this kind.
abbrev pub count_down : Option Bytes → Broker → Broker
count_down none b = record b { subscription_count = b.subscription_count -ℤ pos 1 }
count_down (some g) b = record b {
  shared_subscription_count = b.shared_subscription_count -ℤ pos 1;
}

-- One entry of `context->subs`. The nodes that are left with nothing are freed from this one
-- upwards, up to the root: on the way back of `remove_recurse`. A pointer to a node that has been
-- freed before is not defined in the source; here it finds nothing.
unfoldable pub clean_entry : ℕ → List Bytes → Option Bytes → Broker → Broker
clean_entry i [] shared b = b
clean_entry i (first ∷ topics) shared b = elim (find_child first b.root) [
  | none ↦ b
  | some n ↦
      let (n', removed) = remove_recurse (remove_at i shared) topics n in
      let b' = record b { root = set_child first n' b.root } in
      if removed then count_down shared b' else b'
]

unfoldable pub clean_loop : ℕ → List (Option ClientSub) → Broker → Broker
unfolding clean_entry
clean_loop i [] b = b
clean_loop i (none ∷ cs) b = clean_loop i cs b
clean_loop i (some c ∷ cs) b = clean_loop i cs (clean_entry i c.hier c.shared b)

-- `sub__clean_session`
unfoldable pub sub_clean_session : ℕ → Broker → Broker
unfolding clean_loop
sub_clean_session i b =
    let b' = clean_loop i (b.client i).subs b in
    let c' = record (b.client i) { subs = [] } in
    record b' { client = λ j. if j == i then c' else b.client j }
