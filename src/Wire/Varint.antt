-- ===== src/Wire/Varint.antt =====
-- The integers of variable length in lib/packet_datatypes.c.
use native.Mathlib.Nat.{mul_comm, mul-add, mul_left_comm, pow-suc, mul-le-mul_right}
use adaptive_mqtt_transmit_p.Common.{
  ℕ, zero, suc, ◌+◌, ◌*◌, ◌/◌, ◌%◌, ◌^◌, ◌<◌, ◌≤◌, ◌≡◌, ◌⊎◌, refl, ◌∙◌, ap, [], ◌∷◌, arith, length,
  get_or, if◌then◌else◌, ltb, ◌==◌, ◌&&◌, true, false, Bool-cases, inl, inr,
}
use adaptive_mqtt_transmit_p.Common.Bytes.{Bytes}
use adaptive_mqtt_transmit_p.Wire.{
  Packet, Read, got, byte_at, write_byte, write_bytes, read_varint_loop, write_varint_loop,
}
use adaptive_mqtt_transmit_p.Wire.Integers.{rewind}

-- The bytes of a number: seven bits each, the lowest first, and the top bit on all but the last.
unfoldable pub encoding : ℕ → ℕ → Bytes
encoding zero word = []
encoding (suc rounds) word =
    let further = encoding rounds (word / 128) in
    if ltb 0 (word / 128) then (word % 128 + 128) ∷ further else word % 128 ∷ []

pub write_loop_lem :
    (rounds count : ℕ) (p : Packet) (word : ℕ)
    → write_varint_loop rounds count p word
      ≡ (write_bytes p (encoding rounds word), count + length (encoding rounds word))
unfolding write_varint_loop encoding write_bytes write_byte
write_loop_lem zero count p word = ap (λ n. (p, n)) (omega arith)
write_loop_lem (suc rounds) count p word = elim (Bool-cases (ltb 0 (word / 128))) [
  | inl more ↦ rw more (
      write_loop_lem rounds (count + 1) (write_byte p (word % 128 + 128)) (word / 128)
      ∙ ap (λ n. (write_bytes (write_byte p (word % 128 + 128)) (encoding rounds (word / 128)), n))
          (omega arith))
  | inr last ↦ rw last refl
]

digits : (w m : ℕ) → w * m ≡ w % 128 * m + w / 128 * (m * 128)
digits w m =
    let split : w ≡ w / 128 * 128 + w % 128 = omega arith in
    let spread = ap (λ n. m * n) split ∙ mul-add m (w / 128 * 128) (w % 128) in
    omega (arith, spread, mul_comm w m, mul_comm (w % 128) m, mul_left_comm m (w / 128) 128)

module _ (rounds mult word bytes : ℕ) (q : Packet) (i byte : ℕ) (here : byte_at q i ≡ byte)
    (inside : i < q.remaining_length) (small : word + byte % 128 * mult < 2 ^ 32) where
  inside_test : ltb i q.remaining_length ≡ true
  inside_test = ground (arith, inside)

  sum_fits : (word + byte % 128 * mult) % 2 ^ 32 ≡ word + byte % 128 * mult
  sum_fits = omega (arith, small)

  -- A round that finds a byte with its top bit set.
  round_more :
      128 ≤ byte
      → mult * 128 < 2 ^ 32
      → read_varint_loop (suc rounds) mult word bytes (rewind i q)
        ≡ read_varint_loop rounds
            (mult * 128)
            (word + byte % 128 * mult)
            (bytes + 1)
            (rewind (i + 1) q)
  unfolding read_varint_loop
  round_more top fits =
      let not_last : ltb byte 128 ≡ false = ground (arith, top) in
      let product : mult * 128 % 2 ^ 32 ≡ mult * 128 = omega (arith, fits) in
      rw (here, inside_test, not_last, sum_fits, product) refl

  -- A round that finds the last byte.
  round_last :
      byte < 128
      → (bytes ≡ 0) ⊎ (0 < byte)
      → read_varint_loop (suc rounds) mult word bytes (rewind i q)
        ≡ got (word + byte % 128 * mult, bytes + 1) (rewind (i + 1) q)
  unfolding read_varint_loop
  round_last low shortest =
      let last : ltb byte 128 ≡ true = ground (arith, low) in
      let minimal : (ltb 1 (bytes + 1) && byte == 0) ≡ false = ground (arith, shortest) in
      rw (here, inside_test, last, sum_fits, minimal) refl

-- The bytes stand in the buffer from a position on.
abbrev pub Stands : Packet → ℕ → Bytes → Type 0
Stands q i bs = (j : ℕ) → j < length bs → byte_at q (i + j) ≡ get_or bs j 0

Stands-tail : (q : Packet) (i b : ℕ) (bs : Bytes) → Stands q i (b ∷ bs) → Stands q (i + 1) bs
Stands-tail q i b bs h = λ j lt.
    let place : i + 1 + j ≡ i + suc j = omega arith in
    ap (byte_at q) place ∙ h (suc j) (omega (arith, lt))

Stands-head : (q : Packet) (i b : ℕ) (bs : Bytes) → Stands q i (b ∷ bs) → byte_at q i ≡ b
Stands-head q i b bs h =
    let place : i ≡ i + 0 = omega arith in ap (byte_at q) place ∙ h 0 (omega arith)

pub got_at :
    (q : Packet) {v w n m i j : ℕ}
    → v ≡ w
    → n ≡ m
    → i ≡ j
    → ◌≡◌ {A = Read (ℕ × ℕ)} (got (v, n) (rewind i q)) (got (w, m) (rewind j q))
got_at q {v} {w} {n} {m} {i} {j} e f g =
    ap (λ x. got (x, n) (rewind i q)) e
    ∙ ap (λ x. got (w, x) (rewind i q)) f
    ∙ ap (λ x. got (w, m) (rewind x q)) g

-- The rounds over the bytes of a number, of which there is one at least.
unfoldable pub Reads : ℕ → ℕ → ℕ → ℕ → ℕ → Packet → ℕ → Bytes → Type 0
Reads rounds w mult word bytes q i bs =
    Stands q i bs
    → i + length bs ≤ q.remaining_length
    → read_varint_loop rounds mult word bytes (rewind i q)
      ≡ got (word + w * mult, bytes + length bs) (rewind (i + length bs) q)

Reads-last :
    (rounds w mult word bytes : ℕ) (q : Packet) (i : ℕ)
    → w < 128
    → (bytes ≡ 0) ⊎ (0 < w)
    → word + w * mult < 2 ^ 32
    → Reads (suc rounds) w mult word bytes q i (w % 128 ∷ [])
unfolding Reads
Reads-last rounds w mult word bytes q i low shortest small stands inside =
    let same : w % 128 % 128 ≡ w = omega (arith, low) in
    let product = ap (λ x. x * mult) same in
    round_last rounds mult word bytes q i (w % 128) (Stands-head q i _ [] stands)
      (omega (arith, inside)) (omega (arith, small, product)) (omega (arith, low))
      (omega (arith, shortest, low))
    ∙ got_at q (omega (arith, product)) refl refl

Reads-more :
    (rounds w mult word bytes : ℕ) (q : Packet) (i : ℕ) (bs : Bytes)
    → 0 < w / 128
    → word + w * mult < 2 ^ 32
    → Reads rounds
        (w / 128)
        (mult * 128)
        (word + (w % 128 + 128) % 128 * mult)
        (bytes + 1)
        q
        (i + 1)
        bs
    → Reads (suc rounds) w mult word bytes q i ((w % 128 + 128) ∷ bs)
unfolding Reads
Reads-more rounds w mult word bytes q i bs high small onward stands inside =
    let b = w % 128 + 128 in
    let low : b % 128 ≡ w % 128 = omega arith in
    let product = ap (λ x. x * mult) low in
    let one = mul-le-mul_right (mult * 128) high in
    round_more rounds mult word bytes q i b (Stands-head q i b bs stands) (omega (arith, inside))
      (omega (arith, small, product, digits w mult)) (omega arith)
      (omega (arith, small, one, digits w mult))
    ∙ onward (Stands-tail q i b bs stands) (omega (arith, inside))
    ∙ got_at q (omega (arith, product, digits w mult)) (omega arith) (omega arith)

pub Reads-encoding :
    (rounds w mult word bytes : ℕ) (q : Packet) (i : ℕ)
    → w < 128 ^ suc rounds
    → (bytes ≡ 0) ⊎ (0 < w)
    → word + w * mult < 2 ^ 32
    → Reads (suc rounds) w mult word bytes q i (encoding (suc rounds) w)
unfolding encoding
Reads-encoding zero w mult word bytes q i lt shortest small =
    let low : w < 128 = omega (arith, lt) in
    elim (Bool-cases (ltb 0 (w / 128))) [
      | inr last ↦ rw last (Reads-last zero w mult word bytes q i low shortest small)
      | inl more ↦ let z : ⊥ = ground (arith, more, low) in elim z [ ]
    ]
Reads-encoding (suc rounds) w mult word bytes q i lt shortest small =
    elim (Bool-cases (ltb 0 (w / 128))) [
      | inr last ↦
          rw last
            (Reads-last (suc rounds) w mult word bytes q i (ground (arith, last)) shortest small)
      | inl more ↦
          let high : 0 < w / 128 = ground (arith, more) in
          let low : (w % 128 + 128) % 128 ≡ w % 128 = omega arith in
          let product = ap (λ x. x * mult) low in
          rw more (
            Reads-more (suc rounds) w mult word bytes q i (encoding (suc rounds) (w / 128)) high
              small
              (Reads-encoding rounds (w / 128) (mult * 128) (word + (w % 128 + 128) % 128 * mult)
                (bytes + 1) q (i + 1) (omega (arith, lt, pow-suc 128 (suc rounds))) (inr high)
                (omega (arith, small, product, digits w mult))))
    ]
