-- ===== src/Examples/Packets.antt =====
-- The examples for the packets of lib/packet_datatypes.c.
use adaptive_mqtt_transmit_p.Common.{ℕ, ◌≡◌, ◌<◌, ◌↔◌, arith, [], ◌∷◌}
use adaptive_mqtt_transmit_p.Common.Bytes.{Bytes}
use adaptive_mqtt_transmit_p.Broker.Types.{success}
use adaptive_mqtt_transmit_p.Wire.{
  Packet, got, read_binary, write_string, read_varint, write_varint, varint_bytes,
}
use adaptive_mqtt_transmit_p.Wire.Integers.{HasRoom, rewind}
use adaptive_mqtt_transmit_p.Wire.Strings.{read-write_string}
use adaptive_mqtt_transmit_p.Wire.Sizes.{write_varint-success_iff, read-write_varint}

abbrev buffer : Packet
buffer = record { payload = 0 ∷ 0 ∷ 0 ∷ 0 ∷ 0 ∷ 0 ∷ 0 ∷ []; pos = 1; remaining_length = 7 }

room : (n : ℕ) → n < 7 → HasRoom buffer n
room n lt = record { fits = omega (arith, lt); inside = omega arith; below_limit = omega arith }

read-write_string_example :
    let str : Bytes = b'a' ∷ b'/' ∷ b'b' ∷ [] in
    read_binary (rewind 1 (write_string buffer str)) ≡ got str (write_string buffer str)
read-write_string_example =
    read-write_string buffer (b'a' ∷ b'/' ∷ b'b' ∷ []) (omega arith) (room 5 (omega arith))

read-write_varint_example :
    read_varint (rewind 1 (write_varint buffer 16_384).0)
    ≡ got (16_384, 3) (write_varint buffer 16_384).0
unfolding varint_bytes
read-write_varint_example = read-write_varint buffer 16_384 (omega arith) (room 3 (omega arith))

write_varint-success_iff_example :
    (((write_varint buffer 300_000_000).1 ≡ success) ↔ (300_000_000 < 268_435_456))
    × ((write_varint buffer 300_000_000).0.pos ≡ 6)
unfolding varint_bytes
write_varint-success_iff_example = write_varint-success_iff buffer 300_000_000 (omega arith)
