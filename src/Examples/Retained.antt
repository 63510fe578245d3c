-- ===== src/Examples/Retained.antt =====
-- The example for retained messages: `a/b` gets one where `a` has one.
use adaptive_mqtt_transmit_p.Common.{
  ◌≡◌, refl, ◌≢◌, List, [], ◌∷◌, some, none, arith, All, true, Option,
}
use adaptive_mqtt_transmit_p.Common.Int.{pos}
use adaptive_mqtt_transmit_p.Broker.Types.{Stored}
use adaptive_mqtt_transmit_p.Common.Bytes.{Bytes, bytes_eq}
use adaptive_mqtt_transmit_p.Subs.Add.Weight.{AreShort}
use adaptive_mqtt_transmit_p.Subs.Search.Weight.{is_plain}
use adaptive_mqtt_transmit_p.Retain.Search.{process_message, retain_search}
use adaptive_mqtt_transmit_p.Retain.Exact.{retain_search-retain_store}
use adaptive_mqtt_transmit_p.Retain.{
  RetainHier, find_branch, set_branch, add_branch, set_retained, retain_node, no_branch, branch,
  Retains, retained_at, retained_message, retain_store,
}
use adaptive_mqtt_transmit_p.Retain.Lookup.{retain_store-retained_at}
use adaptive_mqtt_transmit_p.Examples.{stored, database}

abbrev retains : Retains
retains = record {
  hiers =
      branch []
        (retain_node
          (branch []
            (retain_node
              (branch (b'a' ∷ []) (retain_node no_branch (some (stored 7 700))) no_branch) none)
            no_branch)
          none)
        no_branch;
  retained_count = pos 1;
}

abbrev topics : List Bytes
topics = [] ∷ (b'a' ∷ []) ∷ (b'b' ∷ []) ∷ []

topics-AreShort : AreShort ([] ∷ topics)
topics-AreShort = (omega arith, (omega arith, (omega arith, (omega arith, tt))))

retain_store-retained_at_example :
    let after =
      retain_node
        (retain_store (b'a' ∷ b'/' ∷ b'b' ∷ []) (stored 9 900) topics retains database).0.hiers
        none in
    (retained_at ([] ∷ topics) after ≡ retained_message (stored 9 900))
    × ((other : List Bytes)
        → other ≢ [] ∷ topics
        → retained_at other after ≡ retained_at other (retain_node retains.hiers none))
retain_store-retained_at_example =
    retain_store-retained_at (b'a' ∷ b'/' ∷ b'b' ∷ []) (stored 9 900) topics retains database
      topics-AreShort

abbrev stored_in : Retains
stored_in = (retain_store (b'a' ∷ b'/' ∷ b'b' ∷ []) (stored 9 900) topics retains database).0

-- The node below which `a` and `a/b` stand.
abbrev root_after : RetainHier
root_after =
    retain_node
      (branch []
        (retain_node
          (branch (b'a' ∷ [])
            (retain_node
              (branch (b'b' ∷ []) (retain_node no_branch (some (stored 9 900))) no_branch)
              (some (stored 7 700)))
            no_branch)
          none)
        no_branch)
      none

root_found : find_branch [] stored_in.hiers ≡ some root_after
unfolding retain_store set_retained find_branch set_branch add_branch bytes_eq
root_found = refl

topics_plain : All (λ l. is_plain l ≡ true) topics
unfolding bytes_eq
topics_plain = (refl, (refl, (refl, tt)))

-- The messages that are handed on.
abbrev collect : Stored → List Stored → Option Stored × List Stored
collect r s = (some r, r ∷ s)

retain_search-retain_store_example :
    (retain_search collect topics 0 root_after []).1
    ≡ (process_message collect (retained_message (stored 9 900)) []).1
retain_search-retain_store_example =
    retain_search-retain_store collect (b'a' ∷ b'/' ∷ b'b' ∷ []) (stored 9 900) []
      ((b'a' ∷ []) ∷ (b'b' ∷ []) ∷ []) retains database root_after [] topics_plain topics-AreShort
      root_found
