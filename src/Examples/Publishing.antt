-- ===== src/Examples/Publishing.antt =====
-- The examples for a publication on `a/b`, which the program's own `subs__send` hands on.
use adaptive_mqtt_transmit_p.Common.{ℕ, ◌≡◌, ◌+◌, some, false, true, Bool, if◌then◌else◌, [], ◌∷◌}
use adaptive_mqtt_transmit_p.Topic.{topic_matches_sub}
use adaptive_mqtt_transmit_p.Subs.Tree.{Leaf, children_of}
use adaptive_mqtt_transmit_p.Subs.Search.{sub_search}
use adaptive_mqtt_transmit_p.Subs.Search.Weight.{matching}
use adaptive_mqtt_transmit_p.Subs.Search.Visits.{visited, code_of, serve, weights}
use adaptive_mqtt_transmit_p.Subs.Search.Delivers.{sub_search-delivers}
use adaptive_mqtt_transmit_p.Subs.Add.{sub_add, new_leaf}
use adaptive_mqtt_transmit_p.Subs.Publish.{Publication, World, subs_send, skips_leaf, search_root}
use adaptive_mqtt_transmit_p.Subs.Publish.Levels.{topics_of}
use adaptive_mqtt_transmit_p.Subs.Publish.Reaches.{nodes_of, leaf_weight, subscription-reaches}
use adaptive_mqtt_transmit_p.Examples.{stored}
use adaptive_mqtt_transmit_p.Examples.Topics.{filter, topic}
use adaptive_mqtt_transmit_p.Examples.Subscriptions.{
  broker, request, topics, start, start-IsWell, topics_plain, filter-IsFilter, topic-IsTopic,
  tree-IsWell, request-IsNew,
}
use adaptive_mqtt_transmit_p.Examples.Exchange.{surroundings, state}

abbrev publication : Publication
publication = record {
  source_id = some (b'p' ∷ []);
  topic = topic;
  qos = 1;
  retain = false;
  stored = stored 9 900;
}

abbrev world : World
world = state.1

sub_search-delivers_example :
    let y =
      sub_search
        (subs_send surroundings publication)
        (skips_leaf publication)
        true
        topics
        start
        world in
    let x =
      serve
        (subs_send surroundings publication)
        (skips_leaf publication)
        true
        (visited topics start)
        world
        false in
    ((y.1 ≡ x.0) × (y.2 ≡ code_of x.1))
    × ((w : Leaf → ℕ) (skip : Leaf → Bool)
        → weights w skip true (visited topics start)
          ≡ matching w skip true topics (children_of start))
sub_search-delivers_example =
    sub_search-delivers (subs_send surroundings publication) (skips_leaf publication) true topics
      start world topics_plain start-IsWell

subscription-reaches_example :
    let after = (sub_add request filter broker).0.root in
    ((search_root
        (subs_send surroundings publication)
        (skips_leaf publication)
        true
        (topics_of topic)
        after
        world).1
      ≡ (serve
          (subs_send surroundings publication)
          (skips_leaf publication)
          true
          (nodes_of topic after)
          world
          false).0)
    × ((w : Leaf → ℕ) (skip : Leaf → Bool)
        → weights w skip true (nodes_of topic after)
          ≡ weights w skip true (nodes_of topic broker.root)
            + (if (topic_matches_sub filter topic).1
                then leaf_weight w skip (new_leaf request)
                else 0))
subscription-reaches_example =
    subscription-reaches (subs_send surroundings publication) (skips_leaf publication) request
      filter topic broker world filter-IsFilter topic-IsTopic tree-IsWell request-IsNew
