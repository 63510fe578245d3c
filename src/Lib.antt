-- ===== src/Lib.antt =====
-- The delivery of messages by an MQTT broker, a mosquitto with an adaptive transmit policy: a
-- subscriber that answers slowly is put in slow mode, and large messages for it wait on a list
-- `storage` of their own until it is fast again or they have waited long enough.
--
-- The parts of the program and the files that model them. A function of the source is the
-- definition of the same name without its `db__`, `util__` or `mosquitto__`.
--
-- - Broker/Types.antt: the data, from lib/mosquitto_internal.h and src/mosquitto_broker_internal.h.
--   A client is a `Context`, with one `MsgData` for each direction, which holds the lists `inflight`,
--   `queued` and `storage`, four counters and the send quota. `Db` is the global `db`.
-- - Broker/Util.antt: lib/util_mosq.c, the quotas, the state and the transfer mode.
-- - Broker/Flow.antt: db__ready_for_flight and db__ready_for_queue of src/database.c.
-- - Broker/Store.antt: the message store, db__msg_store_add to db__msg_store_compact and
--   db__message_store. A pointer to a stored message is its `db_id`.
-- - Broker/Queues.antt: db__message_remove, db__message_dequeue_first and
--   db__message_destorage_first, the moves between the lists.
-- - Broker/Delivery.antt: db__message_write_inflight_out_single, _all and _latest and
--   db__message_write_queued_out.
-- - Broker/Withhold.antt: the policy itself, in db__message_insert and
--   db__message_write_storage_out.
-- - Broker/Insert.antt: db__message_insert, which chooses a list for a message.
-- - Broker/Ack.antt: db__message_delete_outgoing and db__message_update_outgoing.
-- - Broker/Incoming.antt: db__message_store_find and db__message_remove_incoming.
-- - Broker/Session.antt: db__messages_delete and db__message_reconnect_reset.
--   Broker/Session/Limits.antt: of src/handle_connect.c, the messages that a connection takes over,
--   and of src/property_broker.c, its receive maximum.
-- - Broker/Counts.antt: what the counters stand for; the modules below it follow them through
--   every operation.
-- - Adaptive.antt: handle__pubackcomp of lib/handle_pubackcomp.c, from the measured latency to the
--   mode and the threshold, and the acknowledgement as a whole.
-- - Topic.antt: lib/util_topic.c, the checks of topics and filters and their matching;
--   Topic/Levels.antt says what a level is and when a filter matches.
-- - Subs.antt: src/topic_tok.c and src/subs.c. Subs/Tokens.antt cuts a text into levels, Subs/Tree.antt
--   has the tree of subscriptions, Subs/Add.antt sub__add, Subs/Remove.antt sub__remove,
--   Subs/CleanSession.antt sub__clean_session, Subs/Search.antt sub__search and Subs/Publish.antt
--   subs__send and sub__messages_queue.
-- - Retain.antt: retain__init, retain__store and retain__clean of src/retain.c, the tree of retained
--   messages; Retain/Search.antt: retain__search, retain__process and retain__queue.
-- - Qos2.antt: db__message_release_incoming and db__message_write_queued_in of src/database.c;
--   Qos2/Handlers.antt: handle__pubrel of lib/handle_pubrel.c and handle__pubrec of
--   lib/handle_pubrec.c, as the broker has them.
-- - System.antt: a client's life as a sequence of these calls, `run` on a list of `Event`s. A new
--   connection is a new life, in which `took_over` brings the lists of the old one.
-- - Wire.antt: lib/packet_datatypes.c, bytes, integers and strings of a packet.
-- - Examples.antt: a broker with one subscriber, on which the examples run.
--
-- How they interact: `subs_send` calls `message_insert`, which calls `write_inflight_out_latest`,
-- `write_queued_out` and `write_storage_out` in this order; an acknowledgement calls `take_sample`
-- and then `message_delete_outgoing`; `take_over` for a new connection calls
-- `message_reconnect_reset`; a PUBREL calls
-- `message_release_incoming`, which hands the message to `messages_queue` and so to `subs_send` and
-- `retain_store`.
--
-- A function that changes a client returns the changed client. A loop over a list from which it
-- removes is structural recursion on the rest of the list, so no fuel is needed. The functions that
-- put a packet on the connection (send__publish, send__pubrel, send__pubrec) are the parameter
-- `Transport`: they return a code and change only the sending side of the client. The clocks are the
-- parameter `Clock`, one reading for one call. Memory allocation is taken to succeed, and locks and
-- log lines are left out. Counters are integers without a bound; the wrap-around of `int` and `long`
-- is undefined in C. A client is a value, so a list is changed by nobody else.
--
-- Not modelled: sockets, TLS, configuration and persistence files, plugins, bridges beyond the
-- fields that delivery reads and the client library. What the plugins
-- decide, `mosquitto_acl_check`, is an argument.
pub mod Common
pub mod Broker
pub mod Adaptive
pub mod Topic
pub mod Subs
pub mod Retain
pub mod Qos2
pub mod System
pub mod Wire
pub mod Examples
