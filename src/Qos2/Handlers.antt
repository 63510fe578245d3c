-- ===== src/Qos2/Handlers.antt =====
-- handle__pubrel and handle__pubrec of lib/, as the broker has them.
use adaptive_mqtt_transmit_p.Common.{
  ℕ, Bool, true, false, not, ltb, ◌==◌, if◌then◌else◌, ◌&&◌, ◌||◌,
}
use adaptive_mqtt_transmit_p.Broker.Types.{
  Context, Db, Link, Rc, success, protocol, not_found, malformed_packet, wait_for_pubcomp,
  wait_for_pubrec, Protocol, mqtt31, mqtt5,
}
use adaptive_mqtt_transmit_p.Broker.Util.{increment_quota, is_active}
use adaptive_mqtt_transmit_p.Broker.Delivery.{Transport}
use adaptive_mqtt_transmit_p.Broker.Ack.{message_update_outgoing, message_delete_outgoing}
use adaptive_mqtt_transmit_p.Subs.Publish.{Surroundings}
use adaptive_mqtt_transmit_p.Wire.{Packet, Read, got, failed, then_read, read_uint16, read_byte}
use adaptive_mqtt_transmit_p.Qos2.{State, context_of, put_context, message_release_incoming}

-- What the packet handlers need besides: send__pubcomp as far as it puts the packet on the
-- connection, and property__read_all, whose properties are freed at once.
pub record PacketIo : Type 0 where
  pub surroundings : Surroundings
  pub pubcomp : Context → ℕ → Link × Rc
  pub read_properties : Packet → Read (Unit {0})

-- The packet that has been read, `command` its first byte.
pub record InPacket : Type 0 where
  pub command : ℕ
  pub packet : Packet

-- `CMD_PUBREL|2` and `CMD_PUBREC`.
abbrev pub cmd_pubrel : ℕ
cmd_pubrel = 0x62

abbrev pub cmd_pubrec : ℕ
cmd_pubrec = 0x50

abbrev pub is_mqtt31 : Protocol → Bool
is_mqtt31 mqtt31 = true
is_mqtt31 p = false

abbrev pub is_mqtt5 : Protocol → Bool
is_mqtt5 mqtt5 = true
is_mqtt5 p = false

-- The code of the packet, 0 if it has none, and what is behind it.
unfoldable pub read_reason : PacketIo → (ℕ → Bool) → Protocol → Packet → Read ℕ
read_reason io is_known p packet =
    if is_mqtt5 p && ltb 2 packet.remaining_length
    then then_read (read_byte packet) (λ code rest.
      if not (is_known code)
      then failed protocol
      else if ltb 3 rest.remaining_length
      then then_read (io.read_properties rest) (λ u behind. got code behind)
      else got code rest)
    else got 0 packet

-- The packet identifier, not 0, and the code; nothing may be left of the packet.
unfoldable pub read_ack : PacketIo → (ℕ → Bool) → Protocol → Packet → Read (ℕ × ℕ)
unfolding read_reason
read_ack io is_known p packet = then_read (read_uint16 packet) (λ mid rest.
    if mid == 0
    then failed protocol
    else then_read (read_reason io is_known p rest) (λ code behind.
      if ltb behind.pos behind.remaining_length
      then failed malformed_packet
      else got (mid, code) behind))

-- The codes of PUBREL: MQTT_RC_SUCCESS and MQTT_RC_PACKET_ID_NOT_FOUND.
abbrev pub is_pubrel_code : ℕ → Bool
is_pubrel_code code = code == 0 || code == 146

-- The codes of PUBREC: success, no matching subscribers, unspecified, implementation specific, not
-- authorized, topic name invalid, packet identifier in use, quota exceeded.
abbrev pub is_pubrec_code : ℕ → Bool
is_pubrec_code code =
    code == 0
    || code == 16
    || code == 128
    || code == 131
    || code == 135
    || code == 144
    || code == 145
    || code == 151

-- `send__pubcomp`: the receive quota is given back.
unfoldable pub send_pubcomp : PacketIo → Context → ℕ → Context × Rc
send_pubcomp io c mid =
    let c' : Context = record c { msgs_in = increment_quota c.msgs_in } in
    let (l, rc) = io.pubcomp c' mid in (record c' { link = l }, rc)

-- The end of `handle__pubrel`.
unfoldable pub answer : PacketIo → ℕ → ℕ → State → State × Rc
unfolding send_pubcomp
answer io i mid (root, s) =
    let (c, sent) = send_pubcomp io (s.client i).context mid in ((root, put_context i c s), sent)

-- A message that is not found is answered too.
abbrev pub answer_unless : PacketIo → ℕ → ℕ → State × Rc → State × Rc
answer_unless io i mid (x, success) = answer io i mid x
answer_unless io i mid (x, not_found) = answer io i mid x
answer_unless io i mid (x, e) = (x, e)

-- `handle__pubrel` behind the reading of the packet.
unfoldable pub complete_pubrel : PacketIo → ℕ → ℕ → State → State × Rc
complete_pubrel io i mid x =
    answer_unless io i mid (message_release_incoming io.surroundings i mid x)

-- `handle__pubrel` for the client `i`.
unfoldable pub handle_pubrel : PacketIo → ℕ → InPacket → State → State × Rc
unfolding complete_pubrel read_ack
handle_pubrel io i in_packet x =
    let c = context_of i x in
    if not (is_active c.state)
    then (x, protocol)
    else if not (is_mqtt31 c.protocol_version) && not (in_packet.command == cmd_pubrel)
    then (x, malformed_packet)
    else elim (read_ack io is_pubrel_code c.protocol_version in_packet.packet) [
      | failed rc ↦ (x, rc)
      | got (mid, code) rest ↦ complete_pubrel io i mid x
    ]

-- `handle__pubrec` behind the reading of the packet.
unfoldable pub complete_pubrec : Transport → Context → Db → ℕ → ℕ → Context × Db × Rc
complete_pubrec t c db mid code =
    let (c', rc) = message_update_outgoing c db mid wait_for_pubcomp 2 in
    let (l, sent) = t.pubrel c' mid in
    let answered : Context × Db × Rc = (record c' { link = l }, db, sent) in
    if ltb code 128
    then elim rc [ success ↦ answered | not_found ↦ answered | e ↦ (c', db, e) ]
    else message_delete_outgoing t c db mid wait_for_pubrec 2

-- `handle__pubrec`
unfoldable pub handle_pubrec : PacketIo → InPacket → Context → Db → Context × Db × Rc
unfolding complete_pubrec read_ack
handle_pubrec io in_packet c db =
    if not (is_active c.state)
    then (c, db, protocol)
    else if not (in_packet.command == cmd_pubrec)
    then (c, db, malformed_packet)
    else elim (read_ack io is_pubrec_code c.protocol_version in_packet.packet) [
      | failed rc ↦ (c, db, rc)
      | got (mid, code) rest ↦ complete_pubrec io.surroundings.transport c db mid code
    ]
