-- ===== src/Examples/Exchange.antt =====
-- The examples for the exchange of QoS 2: client 4 releases a message that goes to clients 4 and 5.
use adaptive_mqtt_transmit_p.Common.{ℕ, ◌≡◌, refl, some, [], ◌∷◌, false}
use adaptive_mqtt_transmit_p.Broker.Types.{
  success, not_found, wait_for_pubrel, normal_mode, ClientMsg, md_in,
}
use adaptive_mqtt_transmit_p.Subs.Publish.{Surroundings}
use adaptive_mqtt_transmit_p.Subs.Add.{Client}
use adaptive_mqtt_transmit_p.Common.Int.{pos}
use adaptive_mqtt_transmit_p.Retain.{Retains, no_branch}
use adaptive_mqtt_transmit_p.Qos2.{State, message_release_incoming, context_of}
use adaptive_mqtt_transmit_p.Qos2.Handlers.{PacketIo, complete_pubrel, answer}
use adaptive_mqtt_transmit_p.Qos2.Release.{message_release_incoming-once, without}
use adaptive_mqtt_transmit_p.Qos2.Again.{complete_pubrel-again}
use adaptive_mqtt_transmit_p.Wire.{got}
use adaptive_mqtt_transmit_p.Subs.Publish.{messages_queue, search_root, skips_leaf, subs_send}
use adaptive_mqtt_transmit_p.Subs.Tokens.{
  topic_tokenise, take_share, topic_array, token_loop, behind_slash,
}
use adaptive_mqtt_transmit_p.Subs.Tree.{find_child, set_child}
use adaptive_mqtt_transmit_p.Subs.Search.{sub_search, proceed, search_child, search_hash}
use adaptive_mqtt_transmit_p.Topic.Levels.{first_level}
use adaptive_mqtt_transmit_p.Broker.Delivery.{write_inflight_out_latest, write_inflight_out_single}
use adaptive_mqtt_transmit_p.Broker.Flow.{ready_for_flight}
use adaptive_mqtt_transmit_p.Broker.Insert.{
  accept, already_sent, decide, message_insert, refuses_offline,
}
use adaptive_mqtt_transmit_p.Broker.Queues.{count_msg}
use adaptive_mqtt_transmit_p.Broker.Store.{msg_store_ref_inc}
use adaptive_mqtt_transmit_p.Broker.Util.{decrement_send_quota}
use adaptive_mqtt_transmit_p.Broker.Withhold.{expire_slow_mode, withholds}
use adaptive_mqtt_transmit_p.Qos2.{release_queued}
use adaptive_mqtt_transmit_p.Qos2.Handlers.{send_pubcomp}
use adaptive_mqtt_transmit_p.Examples.{
  subscriber, no_messages, open_link, clock, database, message, stored,
}
use adaptive_mqtt_transmit_p.Examples.Subscriptions.{tree}

abbrev pub surroundings : Surroundings
surroundings = record {
  transport = open_link;
  clock = clock;
  acl_check = λ i p. success;
  upgrade_outgoing_qos = false;
}

abbrev io : PacketIo
io = record {
  surroundings = surroundings;
  pubcomp = λ c mid. (c.link, success);
  read_properties = λ p. got tt p;
}

abbrev published : ClientMsg
published = record (message 9 400 wait_for_pubrel) {
  direction = md_in;
  qos = 2;
  store = record (stored 9 400) { qos = 2; topic = some (b'a' ∷ b'/' ∷ b'b' ∷ []) };
}

abbrev client : ℕ → Client
client i = record {
  context = record (subscriber no_messages normal_mode) {
    id = some (i ∷ []);
    msgs_in = record no_messages { inflight = published ∷ message 8 100 wait_for_pubrel ∷ [] };
  };
  last_mid = 0;
  subs = [];
}

abbrev pub retains : Retains
retains = record { hiers = no_branch; retained_count = pos 0 }

abbrev pub state : State
state = (tree, record { db = database; retains = retains; client = client })

released : (message_release_incoming surroundings 4 9 state).1 ≡ success
unfolding message_release_incoming messages_queue search_root skips_leaf subs_send topic_tokenise
    take_share topic_array token_loop behind_slash find_child set_child sub_search proceed
    search_child search_hash first_level write_inflight_out_latest write_inflight_out_single
    ready_for_flight accept already_sent decide message_insert refuses_offline count_msg
    msg_store_ref_inc decrement_send_quota expire_slow_mode withholds release_queued
released = refl

message_release_incoming-once_example :
    let x = (message_release_incoming surroundings 4 9 state).0 in
    ((context_of 4 x).msgs_in.inflight ≡ without 9 (context_of 4 state).msgs_in.inflight)
    × (message_release_incoming surroundings 4 9 x ≡ (x, not_found))
message_release_incoming-once_example =
    message_release_incoming-once surroundings 4 9 state refl released

completed : (complete_pubrel io 4 9 state).1 ≡ success
unfolding complete_pubrel answer send_pubcomp
completed = rw (complete_pubrel, released) refl

complete_pubrel-again_example :
    let x = (complete_pubrel io 4 9 state).0 in complete_pubrel io 4 9 x ≡ answer io 4 9 x
complete_pubrel-again_example = complete_pubrel-again io 4 9 state refl completed
