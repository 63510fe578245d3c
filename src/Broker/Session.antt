-- ===== src/Broker/Session.antt =====
-- The end and the resumption of a session: `db__messages_delete` and `db__message_reconnect_reset`
-- of src/database.c.
pub mod Withheld
pub mod Limits
use adaptive_mqtt_transmit_p.Common.{
  ℕ, Bool, true, false, Option, none, some, List, [], ◌∷◌, ◌++◌, ltb, ◌==◌, if◌then◌else◌, ◌||◌,
}
use adaptive_mqtt_transmit_p.Common.Int.{pos}
use adaptive_mqtt_transmit_p.Broker.Types.{
  Context, ClientMsg, MsgData, MsgState, Db, Bridge, Direction, md_in, md_out, wait_for_pubcomp,
  resend_pubrel,
}
use adaptive_mqtt_transmit_p.Broker.Util.{decrement_quota}
use adaptive_mqtt_transmit_p.Broker.Flow.{msgs_of, with_msgs, ready_for_flight}
use adaptive_mqtt_transmit_p.Broker.Store.{msg_store_ref_dec}
use adaptive_mqtt_transmit_p.Broker.Queues.{to_publish, dequeue_first, uncount, count_msg}
use adaptive_mqtt_transmit_p.Broker.Withhold.{tail}

-- `db__messages_delete_list`: every message gives up its reference.
unfoldable pub delete_list : List ClientMsg → Db → Db
delete_list [] db = db
delete_list (m ∷ ms) db = delete_list ms (msg_store_ref_dec m.store db)

-- One direction of `db__messages_delete`. The list `storage` is not among those emptied.
unfoldable pub delete_direction : MsgData → Db → MsgData × Db
unfolding delete_list
delete_direction d db = (
  record d {
    inflight = [];
    queued = [];
    msg_bytes = pos 0;
    msg_bytes12 = pos 0;
    msg_count = pos 0;
    msg_count12 = pos 0;
  },
  delete_list d.queued (delete_list d.inflight db),
)

abbrev pub deletes_in : Context → Bool → Bool
deletes_in c force_free =
    force_free || (c.clean_start || elim c.bridge [ none ↦ false | some b ↦ b.clean_start ])

abbrev pub deletes_out : Context → Bool → Bool
deletes_out c force_free =
    force_free || elim c.bridge [ none ↦ c.clean_start | some b ↦ b.clean_start_local ]

unfoldable pub delete_if : Bool → Direction → Context → Db → Context × Db
unfolding delete_direction
delete_if false dir c db = (c, db)
delete_if true dir c db =
    let (d, db') = delete_direction (msgs_of c dir) db in (with_msgs c dir d, db')

-- `db__messages_delete`; it always returns MOSQ_ERR_SUCCESS.
unfoldable pub messages_delete : Context → Db → Bool → Context × Db
unfolding delete_if
messages_delete c db force_free =
    let (c', db') = delete_if (deletes_in c force_free) md_in c db in
    delete_if (deletes_out c force_free) md_out c' db'

-- The counters at zero and the whole quota, with which both resets begin.
unfoldable pub reset_counts : MsgData → MsgData
reset_counts d = record d {
  msg_bytes = pos 0;
  msg_bytes12 = pos 0;
  msg_count = pos 0;
  msg_count12 = pos 0;
  inflight_quota = d.inflight_maximum;
}

-- The state in which an outgoing message is tried again.
abbrev pub retry_state : ClientMsg → ClientMsg
retry_state m =
    if m.qos == 2
    then elim m.state [ wait_for_pubcomp ↦ record m { state = resend_pubrel } | _ ↦ to_publish m ]
    else to_publish m

-- A message of the inflight list, counted, and its part of the quota taken.
unfoldable pub count_inflight : MsgData → ClientMsg → MsgData
unfolding count_msg decrement_quota
count_inflight d m =
    let d' = count_msg m.qos m.store.payloadlen d in if ltb 0 m.qos then decrement_quota d' else d'

-- The first loop for the outgoing messages: what the list becomes, and the counters.
unfoldable pub reset_inflight_out : List ClientMsg → MsgData → List ClientMsg × MsgData
unfolding count_inflight
reset_inflight_out [] d = ([], d)
reset_inflight_out (m ∷ ms) d =
    let (ms', d') = reset_inflight_out ms (count_inflight d m) in (retry_state m ∷ ms', d')

-- The first loop for the incoming messages: those below QoS 2 are removed again.
unfoldable pub reset_inflight_in : List ClientMsg → MsgData → Db → List ClientMsg × MsgData × Db
unfolding count_inflight uncount
reset_inflight_in [] d db = ([], d, db)
reset_inflight_in (m ∷ ms) d db =
    let counted = count_inflight d m in
    let keep = m.qos == 2 in
    let (ms', d', db') =
      reset_inflight_in ms (if keep then counted else uncount m counted)
        (if keep then db else msg_store_ref_dec m.store db) in
    ((if keep then m ∷ ms' else ms'), d', db')

-- The second loop, over `queued`, which is `passed` and then the list walked over. The message that
-- moves up is the head of `queued`, which need not be the one that was found ready.
unfoldable pub requeue_loop : Db → Direction → Context → List ClientMsg → List ClientMsg → Context
unfolding count_msg dequeue_first
requeue_loop db dir c passed [] = c
requeue_loop db dir c passed (m ∷ rest) =
    let counted = with_msgs c dir (count_msg m.qos m.store.payloadlen (msgs_of c dir)) in
    let published = passed ++ to_publish m ∷ [] in
    let moved =
      with_msgs counted dir
        (dequeue_first (record (msgs_of counted dir) { queued = published ++ rest })) in
    let onward = requeue_loop db dir moved (tail published) rest in
    let waits = requeue_loop db dir counted (passed ++ m ∷ []) rest in
    if ready_for_flight db.config counted dir m.qos then onward else waits

-- `db__message_reconnect_reset_outgoing`
unfoldable pub reconnect_reset_outgoing : Context → Db → Context
unfolding reset_counts reset_inflight_out requeue_loop
reconnect_reset_outgoing c db =
    let (ms, d) = reset_inflight_out c.msgs_out.inflight (reset_counts c.msgs_out) in
    requeue_loop db md_out (record c { msgs_out = record d { inflight = ms } }) [] c.msgs_out.queued

-- `db__message_reconnect_reset_incoming`
unfoldable pub reconnect_reset_incoming : Context → Db → Context × Db
unfolding reset_counts reset_inflight_in requeue_loop
reconnect_reset_incoming c db =
    let (ms, d, db') = reset_inflight_in c.msgs_in.inflight (reset_counts c.msgs_in) db in
    (
      requeue_loop db' md_in (record c { msgs_in = record d { inflight = ms } }) []
          c.msgs_in.queued,
      db',
    )

-- `db__message_reconnect_reset`; both parts always return MOSQ_ERR_SUCCESS.
unfoldable pub message_reconnect_reset : Context → Db → Context × Db
unfolding reconnect_reset_outgoing reconnect_reset_incoming
message_reconnect_reset c db = reconnect_reset_incoming (reconnect_reset_outgoing c db) db
