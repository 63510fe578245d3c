-- ===== src/Wire.antt =====
-- lib/packet_datatypes.c: the integers and byte strings of a packet, read and written at a position.
pub mod Memory
pub mod Integers
pub mod Strings
pub mod Varint
pub mod Sizes
use adaptive_mqtt_transmit_p.Common.{
  ℕ, zero, suc, ◌+◌, ◌*◌, ◌/◌, ◌%◌, ◌^◌, Bool, List, [], ◌∷◌, ltb, ◌==◌, ◌&&◌, if◌then◌else◌, set,
  get_or, take, drop, length,
}
use adaptive_mqtt_transmit_p.Common.Bytes.{Bytes}
use adaptive_mqtt_transmit_p.Broker.Types.{Rc, success, malformed_packet}

-- `struct mosquitto__packet`: the buffer, the position in it, and how much of it may be read.
pub record Packet : Type 0 where
  pub payload : Bytes
  pub pos : ℕ
  pub remaining_length : ℕ

-- What a read gives: a value and the packet after it, or a code.
pub data Read (A : Type 0) : Type 0 where
  got : A → Packet → Read A
  failed : Rc → Read A

abbrev pub then_read : {A B : Type 0} → Read A → (A → Packet → Read B) → Read B
then_read (got a p) f = f a p
then_read (failed r) f = failed r

-- The test `pos + count > remaining_length`, a sum of 32 bits.
abbrev pub exceeds : Packet → ℕ → Bool
exceeds p count = ltb p.remaining_length ((p.pos + count) % 2 ^ 32)

abbrev pub advance : ℕ → Packet → Packet
advance count p = record p { pos = p.pos + count }

abbrev pub byte_at : Packet → ℕ → ℕ
byte_at p i = get_or p.payload i 0

-- `packet__read_byte`
unfoldable pub read_byte : Packet → Read ℕ
read_byte p = if exceeds p 1 then failed malformed_packet else got (byte_at p p.pos) (advance 1 p)

-- `packet__write_byte`; the source asserts that the position is in the buffer.
unfoldable pub write_byte : Packet → ℕ → Packet
write_byte p byte = record p { payload = set p.payload p.pos byte; pos = p.pos + 1 }

-- `packet__read_bytes`
unfoldable pub read_bytes : Packet → ℕ → Read Bytes
read_bytes p count =
    if exceeds p count
    then failed malformed_packet
    else got (take count (drop p.pos p.payload)) (advance count p)

-- `packet__write_bytes`
unfoldable pub write_bytes : Packet → Bytes → Packet
unfolding write_byte
write_bytes p [] = p
write_bytes p (b ∷ bs) = write_bytes (write_byte p b) bs

-- `packet__read_uint16`
unfoldable pub read_uint16 : Packet → Read ℕ
read_uint16 p =
    if exceeds p 2
    then failed malformed_packet
    else got ((byte_at p p.pos * 256 + byte_at p (p.pos + 1)) % 2 ^ 16) (advance 2 p)

-- `packet__write_uint16`
unfoldable pub write_uint16 : Packet → ℕ → Packet
unfolding write_byte
write_uint16 p word = write_byte (write_byte p (word / 256 % 256)) (word % 256)

-- `packet__read_uint32`: `val = (val << 8) + byte`, four times, in 32 bits.
abbrev pub shift_in : ℕ → ℕ → ℕ
shift_in val byte = (val * 256 + byte) % 2 ^ 32

unfoldable pub read_uint32 : Packet → Read ℕ
read_uint32 p =
    if exceeds p 4
    then failed malformed_packet
    else got
        (shift_in
          (shift_in (shift_in (shift_in 0 (byte_at p p.pos)) (byte_at p (p.pos + 1)))
            (byte_at p (p.pos + 2)))
          (byte_at p (p.pos + 3)))
        (advance 4 p)

-- `packet__write_uint32`
unfoldable pub write_uint32 : Packet → ℕ → Packet
unfolding write_byte
write_uint32 p word =
    write_byte
      (write_byte (write_byte (write_byte p (word / 16_777_216 % 256)) (word / 65_536 % 256))
        (word / 256 % 256))
      (word % 256)

-- `packet__read_binary`; an empty string is the null pointer of the source.
unfoldable pub read_binary : Packet → Read Bytes
unfolding read_uint16
read_binary p = then_read (read_uint16 p) λ slen p'.
    if slen == 0
    then got [] p'
    else if exceeds p' slen
    then failed malformed_packet
    else got (take slen (drop p'.pos p'.payload)) (advance slen p')

-- `packet__write_string`
unfoldable pub write_string : Packet → Bytes → Packet
unfolding write_uint16 write_bytes
write_string p str = write_bytes (write_uint16 p (length str % 2 ^ 16)) str

-- The loop of `packet__read_varint`, for as many rounds as are left.
unfoldable pub read_varint_loop : ℕ → ℕ → ℕ → ℕ → Packet → Read (ℕ × ℕ)
read_varint_loop zero mult word bytes p = failed malformed_packet
read_varint_loop (suc rounds) mult word bytes p =
    let byte = byte_at p p.pos in
    let word' = (word + byte % 128 * mult) % 2 ^ 32 in
    let further = read_varint_loop rounds (mult * 128 % 2 ^ 32) word' (bytes + 1) (advance 1 p) in
    if ltb p.pos p.remaining_length
    then (if ltb byte 128
        then (if ltb 1 (bytes + 1) && byte == 0
            then failed malformed_packet
            else got (word', bytes + 1) (advance 1 p))
        else further)
    else failed malformed_packet

-- `packet__read_varint`: the word and the number of its bytes.
unfoldable pub read_varint : Packet → Read (ℕ × ℕ)
unfolding read_varint_loop
read_varint p = read_varint_loop 4 1 0 0 p

-- The loop of `packet__write_varint`: the packet and the number of bytes written.
unfoldable pub write_varint_loop : ℕ → ℕ → Packet → ℕ → Packet × ℕ
unfolding write_byte
write_varint_loop zero count p word = (p, count)
write_varint_loop (suc rounds) count p word =
    let high = word / 128 in
    let p' = write_byte p (if ltb 0 high then word % 128 + 128 else word % 128) in
    let further = write_varint_loop rounds (count + 1) p' high in
    if ltb 0 high then further else (p', count + 1)

-- `packet__write_varint`
unfoldable pub write_varint : Packet → ℕ → Packet × Rc
unfolding write_varint_loop
write_varint p word =
    let (p', count) = write_varint_loop 5 0 p word in
    (p', if count == 5 then malformed_packet else success)

-- `packet__varint_bytes`
unfoldable pub varint_bytes : ℕ → ℕ
varint_bytes word =
    if ltb word 128
    then 1
    else if ltb word 16_384
    then 2
    else if ltb word 2_097_152
    then 3
    else if ltb word 268_435_456
    then 4
    else 5
