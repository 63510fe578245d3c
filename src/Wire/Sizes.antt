-- ===== src/Wire/Sizes.antt =====
-- What packet__write_varint of lib/packet_datatypes.c writes is read back, and has the size that
-- packet__varint_bytes foretells.
use native.Mathlib.Nat.{pow-suc}
use mathlib.Core.Path.{subst}
use adaptive_mqtt_transmit_p.Common.{
  ℕ, zero, suc, ◌+◌, ◌/◌, ◌%◌, ◌^◌, ◌<◌, ◌≤◌, ◌≡◌, ◌↔◌, refl, ◌∙◌, ap, sym, ◌∷◌, arith, length,
  if◌then◌else◌, ltb, ◌==◌, Bool-cases, inl, inr,
}
use adaptive_mqtt_transmit_p.Broker.Types.{malformed_packet, success}
use adaptive_mqtt_transmit_p.Wire.{
  Packet, got, write_bytes, read_varint, write_varint, varint_bytes,
}
use adaptive_mqtt_transmit_p.Wire.Memory.{write_bytes-Written, byte_at-write_bytes}
use adaptive_mqtt_transmit_p.Wire.Integers.{HasRoom, rewind}
use adaptive_mqtt_transmit_p.Wire.Varint.{encoding, write_loop_lem, Reads, Reads-encoding, got_at}

length-encoding : (w : ℕ) → w < 4_294_967_296 → length (encoding 5 w) ≡ varint_bytes w
unfolding encoding varint_bytes
length-encoding w lt = ground (arith, lt)

encoding-more :
    (rounds w : ℕ) → w < 128 ^ suc rounds → encoding (suc (suc rounds)) w ≡ encoding (suc rounds) w
unfolding encoding
encoding-more zero w lt = ground (arith, lt)
encoding-more (suc rounds) w lt = elim (Bool-cases (ltb 0 (w / 128))) [
  | inr last ↦ rw last refl
  | inl more ↦ rw more (
      ap (λ bs. (w % 128 + 128) ∷ bs)
        (encoding-more rounds (w / 128) (omega (arith, lt, pow-suc 128 (suc rounds)))))
]

-- The bytes written and the code, for a 32-bit number.
write_varint_lem :
    (p : Packet) (w : ℕ)
    → w < 4_294_967_296
    → write_varint p w
      ≡ (write_bytes p (encoding 5 w), if varint_bytes w == 5 then malformed_packet else success)
unfolding write_varint
write_varint_lem p w lt = rw (write_loop_lem 5 0 p w) (
    ap (λ n. (write_bytes p (encoding 5 w), if n == 5 then malformed_packet else success))
      (let count : 0 + length (encoding 5 w) ≡ varint_bytes w =
          omega (arith, length-encoding w lt) in
        count))

code-limit :
    (w : ℕ)
    → ((if varint_bytes w == 5 then malformed_packet else success) ≡ success) ↔ (w < 268_435_456)
unfolding varint_bytes
code-limit w = ground arith

-- A 32-bit number is written with success exactly if it is below 2 ^ 28, and in any case as many
-- bytes are written as packet__varint_bytes says.
pub write_varint-success_iff :
    (p : Packet) (w : ℕ)
    → w < 4_294_967_296
    → (((write_varint p w).1 ≡ success) ↔ (w < 268_435_456))
      × ((write_varint p w).0.pos ≡ p.pos + varint_bytes w)
write_varint-success_iff p w lt =
    rw (write_varint_lem p w lt)
      (code-limit w, omega (arith, (write_bytes-Written p (encoding 5 w)).at, length-encoding w lt))

-- A number below 2 ^ 28 that is written where there is room for it is read back with the number of
-- its bytes, and reading stops where writing did.
pub read-write_varint :
    (p : Packet) (w : ℕ)
    → w < 268_435_456
    → HasRoom p (varint_bytes w)
    → read_varint (rewind p.pos (write_varint p w).0) ≡ got (w, varint_bytes w) (write_varint p w).0
unfolding read_varint Reads
read-write_varint p w lt h =
    let bs = encoding 5 w in
    let q = write_bytes p bs in
    let written = write_bytes-Written p bs in
    let size = length-encoding w (omega (arith, lt)) in
    let inside : p.pos + length bs ≤ length p.payload = omega (arith, h.fits, h.inside, size) in
    rw (write_varint_lem p w (omega (arith, lt))) (
      subst (λ cs. Reads 4 w 1 0 0 q p.pos cs) (sym (encoding-more 3 w (omega (arith, lt))))
        (Reads-encoding 3 w 1 0 0 q p.pos (omega (arith, lt)) (inl refl) (omega (arith, lt)))
        (λ j k. byte_at-write_bytes bs p j inside k)
        (omega (arith, h.fits, size, written.same_limit))
      ∙ got_at q (omega arith) (omega (arith, size)) (omega (arith, written.at)))
