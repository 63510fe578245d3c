-- ===== src/Wire/Strings.antt =====
-- The strings in lib/packet_datatypes.c come back as they were written.
use adaptive_mqtt_transmit_p.Common.{
  ℕ, suc, ==_iff, ◌+◌, ◌*◌, ◌/◌, ◌%◌, ◌^◌, ◌<◌, ◌≤◌, ◌≡◌, ◌∙◌, ap, [], ◌∷◌, arith, length,
  length-drop, get_or, take, drop, ◌==◌, false, Bool-cases, inl, inr,
}
use adaptive_mqtt_transmit_p.Common.Bytes.{Bytes}
use adaptive_mqtt_transmit_p.Wire.{
  Packet, got, exceeds, byte_at, write_bytes, read_uint16, write_uint16, read_binary, write_string,
}
use adaptive_mqtt_transmit_p.Wire.Memory.{
  write_bytes-Written, byte_at-write_bytes, take-places, get_or-drop,
}
use adaptive_mqtt_transmit_p.Wire.Integers.{HasRoom, rewind, first_byte}

exceeds-fits :
    (q : Packet) (i n : ℕ)
    → i + n ≤ q.remaining_length
    → q.remaining_length < 2 ^ 32
    → exceeds (rewind i q) n ≡ false
exceeds-fits q i n fits limit = ground (arith, fits, limit)

-- A length and a string of that length, wherever they come from.
read_binary_lem :
    (q : Packet) (i : ℕ) (str : Bytes)
    → exceeds (rewind i q) 2 ≡ false
    → (byte_at q i * 256 + byte_at q (i + 1)) % 2 ^ 16 ≡ length str
    → exceeds (rewind (i + 2) q) (length str) ≡ false
    → take (length str) (drop (i + 2) q.payload) ≡ str
    → read_binary (rewind i q) ≡ got str (rewind (i + 2 + length str) q)
unfolding read_binary read_uint16
read_binary_lem q i [] room size more body =
    let place : i + 2 ≡ i + 2 + 0 = omega arith in
    rw (room, size) (ap (λ j. got [] (rewind j q)) place)
read_binary_lem q i (b ∷ bs) room size more body =
    rw (room, size)
      (elim (Bool-cases (length (b ∷ bs) == 0)) [
        | inl y ↦ let z : ⊥ = omega (arith, (==_iff (length (b ∷ bs)) 0).0 y) in elim z [ ]
        | inr n ↦ rw (n, more) (ap (λ u. got u (rewind (i + 2 + length (b ∷ bs)) q)) body)
      ])

-- A string of less than 65536 bytes that is written where there is room is read back, and reading
-- stops where writing did.
pub read-write_string :
    (p : Packet) (str : Bytes)
    → length str < 65_536
    → HasRoom p (2 + length str)
    → read_binary (rewind p.pos (write_string p str)) ≡ got str (write_string p str)
unfolding read_binary read_uint16 write_string write_uint16 write_bytes
read-write_string p str lt h =
    let n = length str % 2 ^ 16 in
    let bs = n / 256 % 256 ∷ n % 256 ∷ str in
    let q = write_bytes p bs in
    let w = write_bytes-Written p bs in
    let inside : p.pos + length bs ≤ length p.payload = omega (arith, h.fits, h.inside) in
    let b0 : byte_at q p.pos ≡ n / 256 % 256 = first_byte bs p inside (omega arith) in
    let b1 = byte_at-write_bytes bs p 1 inside (omega arith) in
    let size : (byte_at q p.pos * 256 + byte_at q (p.pos + 1)) % 2 ^ 16 ≡ length str =
      omega (arith, b0, b1, lt) in
    let body : take (length str) (drop (p.pos + 2) q.payload) ≡ str =
      take-places str (drop (p.pos + 2) q.payload)
        (omega (arith, inside, w.same_length, length-drop (p.pos + 2) q.payload))
        (λ i k.
          get_or-drop q.payload (p.pos + 2) i
          ∙ (let place : p.pos + 2 + i ≡ p.pos + (2 + i) = omega arith in ap (byte_at q) place)
          ∙ byte_at-write_bytes bs p (2 + i) inside (omega (arith, k))
          ∙ (let place : 2 + i ≡ suc (suc i) = omega arith in ap (λ j. get_or bs j 0) place)) in
    let fits = h.fits in
    let same = w.same_limit in
    let limit : q.remaining_length < 2 ^ 32 = omega (arith, h.below_limit, same) in
    let end : p.pos + 2 + length str ≡ q.pos = omega (arith, w.at) in
    read_binary_lem q p.pos str (exceeds-fits q p.pos 2 (omega (arith, fits, same)) limit) size
      (exceeds-fits q (p.pos + 2) (length str) (omega (arith, fits, same)) limit) body
    ∙ ap (λ j. got str (rewind j q)) end
