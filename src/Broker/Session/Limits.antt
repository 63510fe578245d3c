-- ===== src/Broker/Session/Limits.antt =====
-- The limits of a connection when a session goes on in it: the taking over of the lists in
-- `connect__on_authorised` of src/handle_connect.c, and the receive maximum of
-- `property__process_connect` of src/property_broker.c.
use adaptive_mqtt_transmit_p.Common.{
  ℕ, ◌≡◌, refl, ◌∙◌, Bool, true, false, List, [], ◌∷◌, ◌==◌, ◌||◌, if◌then◌else◌,
}
use adaptive_mqtt_transmit_p.Broker.Types.{
  Context, ClientMsg, MsgData, Db, Rc, success, protocol, Direction, md_in, md_out,
}
use adaptive_mqtt_transmit_p.Broker.Session.{
  messages_delete, delete_if, deletes_in, deletes_out, message_reconnect_reset,
}

-- The receive maximum of a CONNECT packet; 0 is a protocol error.
unfoldable pub receive_maximum : ℕ → Context → Context × Rc
receive_maximum n c = if n == 0 then (c, protocol) else (
  record c { msgs_out = record c.msgs_out { inflight_maximum = n; inflight_quota = n } },
  success,
)

abbrev has_msgs : List ClientMsg → Bool
has_msgs [] = false
has_msgs (m ∷ ms) = true

-- The lists and counters of `found` with the limits of `own`.
abbrev with_limits_of : MsgData → MsgData → MsgData
with_limits_of own found = record found {
  inflight_maximum = own.inflight_maximum;
  inflight_quota = own.inflight_quota;
}

abbrev pub has_any : MsgData → MsgData → Bool
has_any d e =
    has_msgs d.inflight || (has_msgs d.queued || (has_msgs e.inflight || has_msgs e.queued))

abbrev pub with_lists : MsgData → MsgData → Context → Context
with_lists found_in found_out c = record c {
  msgs_in = with_limits_of c.msgs_in found_in;
  msgs_out = with_limits_of c.msgs_out found_out;
}

-- The connection takes over the messages of the one that is found under its identifier, unless
-- that has none in flight and none queued; the list `storage` is not asked about.
unfoldable pub take_over : MsgData → MsgData → Context → Db → Context × Db
unfolding message_reconnect_reset
take_over found_in found_out c db =
    if has_any found_in found_out
    then message_reconnect_reset (with_lists found_in found_out c) db
    else (c, db)

-- The limits and the withheld messages of the data are the same.
abbrev pub SameLimits : MsgData → MsgData → Type 0
SameLimits d e =
    (d.inflight_quota ≡ e.inflight_quota)
    × (d.inflight_maximum ≡ e.inflight_maximum)
    × (d.storage ≡ e.storage)

delete_if-SameLimits :
    (b : Bool) (dir : Direction) (c : Context) (db : Db)
    → SameLimits (delete_if b dir c db).0.msgs_out c.msgs_out
unfolding delete_if
delete_if-SameLimits false dir c db = (refl, refl, refl)
delete_if-SameLimits true md_in c db = (refl, refl, refl)
delete_if-SameLimits true md_out c db = (refl, refl, refl)

pub messages_delete-SameLimits :
    (c : Context) (db : Db) (force_free : Bool)
    → SameLimits (messages_delete c db force_free).0.msgs_out c.msgs_out
unfolding messages_delete
messages_delete-SameLimits c db force_free =
    let (c', db') = delete_if (deletes_in c force_free) md_in c db in
    let p = delete_if-SameLimits (deletes_out c force_free) md_out c' db' in
    let q = delete_if-SameLimits (deletes_in c force_free) md_in c db in
    (p.0 ∙ q.0, p.1 ∙ q.1, p.2 ∙ q.2)
