-- ===== src/Examples/Subscriptions.antt =====
-- The examples for subscriptions: one broker, two clients and two filters.
use adaptive_mqtt_transmit_p.Common.{
  ℕ, ◌≡◌, ◌≢◌, ◌+◌, refl, some, none, List, [], ◌∷◌, true, false, Bool, All,
}
use adaptive_mqtt_transmit_p.Common.Int.{pos}
use adaptive_mqtt_transmit_p.Common.Bytes.{Bytes, bytes_eq}
use adaptive_mqtt_transmit_p.Broker.Types.{normal_mode}
use adaptive_mqtt_transmit_p.Topic.Levels.{levels, add_front}
use adaptive_mqtt_transmit_p.Subs.Tree.{
  Leaf, SubHier, SubHiers, node, no_child, child, children_of, subs_of, find_child,
}
use adaptive_mqtt_transmit_p.Subs.Search.Weight.{IsWell, is_plain}
use adaptive_mqtt_transmit_p.Subs.Search.Fair.{serve_rounds, send_each, serve_rounds-each}
use adaptive_mqtt_transmit_p.Subs.Add.{Broker, Client, Request, sub_add}
use adaptive_mqtt_transmit_p.Subs.Add.Weight.{node_at}
use adaptive_mqtt_transmit_p.Subs.Tokens.{
  tokens, topic_tokenise, take_share, topic_array, token_loop, behind_slash, count_tokens,
  count_slashes,
}
use adaptive_mqtt_transmit_p.Topic.Levels.{first_level}
use adaptive_mqtt_transmit_p.Subs.Remove.{sub_remove}
use adaptive_mqtt_transmit_p.Subs.Remove.Node.{IsAlike}
use adaptive_mqtt_transmit_p.Subs.Remove.Taken.{IsUnsubscribed}
use adaptive_mqtt_transmit_p.Subs.Remove.Unsubscribed.{whole, sub_remove-node_at}
use adaptive_mqtt_transmit_p.Subs.Publish.Levels.{path_of}
use adaptive_mqtt_transmit_p.Subs.Publish.Reaches.{IsFilter, IsTopic, IsNew, id_in, sub_add-IsWell}
use adaptive_mqtt_transmit_p.Examples.{subscriber, no_messages}
use adaptive_mqtt_transmit_p.Examples.Topics.{
  filter, topic, filter_accepted, topic_accepted, filter_text, filter_not_empty, topic_not_empty,
  filter_not_shared, topic_not_shared,
}

abbrev leaf : ℕ → Leaf
leaf i = record {
  client = i;
  identifier = 0;
  qos = 1;
  no_local = false;
  retain_as_published = false;
}

-- The filters `a/b` of client 4 and `a/+` of client 5.
abbrev pub tree : SubHiers
tree =
    child []
      (node
        (child []
          (node
            (child (b'a' ∷ [])
              (node
                (child (b'b' ∷ []) (node no_child (leaf 4 ∷ []) [])
                  (child (b'+' ∷ []) (node no_child (leaf 5 ∷ []) []) no_child))
                [] [])
              no_child)
            [] [])
          no_child)
        [] [])
      no_child

abbrev pub client : ℕ → Client
client i = record {
  context = record (subscriber no_messages normal_mode) { id = some (i ∷ []) };
  last_mid = 0;
  subs = [];
}

abbrev pub broker : Broker
broker = record {
  root = tree;
  subscription_count = pos 2;
  shared_subscription_count = pos 0;
  client = client;
}

abbrev pub request : Request
request = record { client = 6; id = 6 ∷ []; qos = 1; identifier = 0; options = 0 }

-- Each call of this `send` is counted.
abbrev count : Leaf → ℕ → ℕ × Bool
count leaf s = (s + 1, false)

abbrev never : Leaf → ℕ → Bool
never leaf s = false

pub tree-IsWell : IsWell tree
unfolding bytes_eq
tree-IsWell =
    (tt, refl, (tt, refl, (tt, refl, ((refl, tt), refl, tt, (tt, refl, tt, tt)), tt), tt), tt)

abbrev pub topics : List Bytes
topics = [] ∷ (b'a' ∷ []) ∷ (b'b' ∷ []) ∷ []

-- The node that the search for `a/b` starts from.
abbrev pub start : SubHier
start =
    node
      (child []
        (node
          (child (b'a' ∷ [])
            (node
              (child (b'b' ∷ []) (node no_child (leaf 4 ∷ []) [])
                (child (b'+' ∷ []) (node no_child (leaf 5 ∷ []) []) no_child))
              [] [])
            no_child)
          [] [])
        no_child)
      [] []

pub start-IsWell : IsWell (children_of start)
unfolding bytes_eq
start-IsWell = (tt, refl, (tt, refl, ((refl, tt), refl, tt, (tt, refl, tt, tt)), tt), tt)

pub topics_plain : All (λ l. is_plain l ≡ true) topics
unfolding bytes_eq
topics_plain = (refl, (refl, (refl, tt)))

serve_rounds-each_example :
    serve_rounds count never true 2 (leaf 4 ∷ leaf 5 ∷ []) 0
    ≡ (leaf 4 ∷ leaf 5 ∷ [], send_each count never true (leaf 4 ∷ leaf 5 ∷ []) 0)
serve_rounds-each_example = serve_rounds-each count never true (leaf 4 ∷ leaf 5 ∷ []) 0

pub filter-IsFilter : IsFilter filter
filter-IsFilter = (filter_text, filter_not_empty, filter_accepted, filter_not_shared)

pub topic-IsTopic : IsTopic topic
topic-IsTopic = (topic_not_empty, topic_accepted, topic_not_shared)

sub_add-IsWell_example : IsWell (sub_add request filter broker).0.root
sub_add-IsWell_example = sub_add-IsWell request filter broker filter-IsFilter tree-IsWell

pub request-IsNew :
    IsNew (id_in broker) (6 ∷ []) (subs_of (node_at (path_of filter) (node tree [] [])))
unfolding node_at find_child bytes_eq levels add_front
request-IsNew = tt

topic_cut : topic_tokenise topic ≡ tokens topics none
unfolding topic_tokenise take_share topic_array token_loop first_level behind_slash count_tokens
    count_slashes bytes_eq
topic_cut = refl

-- Client 4 gives up `a/b`, and the tree keeps the branch of client 5.
sub_remove-node_at_example :
    let after = whole (sub_remove 4 topic 0 broker).0.root in
    IsUnsubscribed 4 none (node_at ([] ∷ topics) (whole broker.root)) (node_at ([] ∷ topics) after)
    × ((other : List Bytes)
        → other ≢ [] ∷ topics
        → IsAlike (node_at other after) (node_at other (whole broker.root)))
sub_remove-node_at_example = sub_remove-node_at 4 topic 0 broker topics none topic_cut tree-IsWell
