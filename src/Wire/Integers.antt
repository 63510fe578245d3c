-- ===== src/Wire/Integers.antt =====
-- The integers of fixed size and the strings in lib/packet_datatypes.c come back as they were written.
use adaptive_mqtt_transmit_p.Common.{
  ℕ, ◌+◌, ◌/◌, ◌%◌, ◌^◌, ◌<◌, ◌≤◌, ◌≡◌, ◌∙◌, ap, [], ◌∷◌, arith, length, get_or, false,
}
use adaptive_mqtt_transmit_p.Common.Bytes.{Bytes}
use adaptive_mqtt_transmit_p.Wire.{
  Packet, got, exceeds, byte_at, write_bytes, read_uint16, write_uint16, read_uint32, write_uint32,
}
use adaptive_mqtt_transmit_p.Wire.Memory.{byte_at-write_bytes}

-- There is room for `n` more bytes, for writing and for reading.
pub record HasRoom (p : Packet) (n : ℕ) : Type 0 where
  pub fits : p.pos + n ≤ p.remaining_length
  pub inside : p.remaining_length ≤ length p.payload
  pub below_limit : p.remaining_length < 2 ^ 32

-- The packet at an earlier position.
abbrev pub rewind : ℕ → Packet → Packet
rewind i p = record p { pos = i }

exceeds-HasRoom : (p : Packet) (n : ℕ) → HasRoom p n → exceeds p n ≡ false
exceeds-HasRoom p n h = ground (arith, h.fits, h.below_limit)

got-eq : (v w : ℕ) (q : Packet) (i : ℕ) → v ≡ w → i ≡ q.pos → got v (rewind i q) ≡ got w q
got-eq v w q i e k = ap (λ u. got u (rewind i q)) e ∙ ap (λ j. got w (rewind j q)) k

pub first_byte :
    (bs : Bytes) (p : Packet)
    → p.pos + length bs ≤ length p.payload
    → 0 < length bs
    → byte_at (write_bytes p bs) p.pos ≡ get_or bs 0 0
first_byte bs p inside nonempty =
    let place : p.pos ≡ p.pos + 0 = omega arith in
    ap (byte_at (write_bytes p bs)) place ∙ byte_at-write_bytes bs p 0 inside nonempty

-- A 16-bit number that is written where there is room is read back, and reading stops where
-- writing did.
read-write_uint16 :
    (p : Packet) (word : ℕ)
    → word < 65_536
    → HasRoom p 2
    → read_uint16 (rewind p.pos (write_uint16 p word)) ≡ got word (write_uint16 p word)
unfolding read_uint16 write_uint16 write_bytes
read-write_uint16 p word lt h =
    let bs = word / 256 % 256 ∷ word % 256 ∷ [] in
    let q = write_bytes p bs in
    let inside : p.pos + 2 ≤ length p.payload = omega (arith, h.fits, h.inside) in
    let b0 : byte_at q p.pos ≡ word / 256 % 256 = first_byte bs p inside (omega arith) in
    let b1 = byte_at-write_bytes bs p 1 inside (omega arith) in
    rw (exceeds-HasRoom p 2 h)
      (got-eq _ word q (p.pos + 2) (omega (arith, b0, b1, lt)) (omega arith))

-- A 32-bit number that is written where there is room is read back, and reading stops where
-- writing did.
read-write_uint32 :
    (p : Packet) (word : ℕ)
    → word < 4_294_967_296
    → HasRoom p 4
    → read_uint32 (rewind p.pos (write_uint32 p word)) ≡ got word (write_uint32 p word)
unfolding read_uint32 write_uint32 write_bytes
read-write_uint32 p word lt h =
    let bs = word / 16_777_216 % 256 ∷ word / 65_536 % 256 ∷ word / 256 % 256 ∷ word % 256 ∷ [] in
    let q = write_bytes p bs in
    let inside : p.pos + 4 ≤ length p.payload = omega (arith, h.fits, h.inside) in
    let b0 : byte_at q p.pos ≡ word / 16_777_216 % 256 = first_byte bs p inside (omega arith) in
    let b1 = byte_at-write_bytes bs p 1 inside (omega arith) in
    let b2 = byte_at-write_bytes bs p 2 inside (omega arith) in
    let b3 = byte_at-write_bytes bs p 3 inside (omega arith) in
    rw (exceeds-HasRoom p 4 h)
      (got-eq _ word q (p.pos + 4) (omega (arith, b0, b1, b2, b3, lt)) (omega arith))
