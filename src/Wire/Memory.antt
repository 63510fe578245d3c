-- ===== src/Wire/Memory.antt =====
-- What stands in the buffer of a packet after bytes have been written to it.
use adaptive_mqtt_transmit_p.Common.{
  ℕ, zero, suc, ◌+◌, ◌<◌, ◌≤◌, ◌≡◌, ◌≢◌, refl, ◌∙◌, ap, [], ◌∷◌, arith, length, set, get_or, take,
  drop,
}
use adaptive_mqtt_transmit_p.Common.Bytes.{Bytes}
use adaptive_mqtt_transmit_p.Wire.{Packet, byte_at, write_byte, write_bytes}

length-set : (xs : Bytes) (i v : ℕ) → length (set xs i v) ≡ length xs
length-set [] i v = refl
length-set (x ∷ xs) zero v = refl
length-set (x ∷ xs) (suc i) v = ap suc (length-set xs i v)

get_or-set : (xs : Bytes) (i v : ℕ) → i < length xs → get_or (set xs i v) i 0 ≡ v
get_or-set [] i v h = omega (arith, h)
get_or-set (x ∷ xs) zero v h = refl
get_or-set (x ∷ xs) (suc i) v h = get_or-set xs i v (omega (arith, h))

get_or-set_other : (xs : Bytes) (i j v : ℕ) → i ≢ j → get_or (set xs i v) j 0 ≡ get_or xs j 0
get_or-set_other [] i j v h = refl
get_or-set_other (x ∷ xs) zero zero v h = elim (h refl) [ ]
get_or-set_other (x ∷ xs) zero (suc j) v h = refl
get_or-set_other (x ∷ xs) (suc i) zero v h = refl
get_or-set_other (x ∷ xs) (suc i) (suc j) v h = get_or-set_other xs i j v (λ e. h (ap suc e))

-- What a write leaves: the position behind the bytes, and the rest of the packet.
pub record Written (p : Packet) (count : ℕ) (q : Packet) : Type 0 where
  pub at : q.pos ≡ p.pos + count
  pub same_limit : q.remaining_length ≡ p.remaining_length
  pub same_length : length q.payload ≡ length p.payload

pub write_bytes-Written : (p : Packet) (bs : Bytes) → Written p (length bs) (write_bytes p bs)
unfolding write_bytes write_byte
write_bytes-Written p [] = record { at = omega arith; same_limit = refl; same_length = refl }
write_bytes-Written p (b ∷ bs) =
    let w = write_bytes-Written (write_byte p b) bs in
    record {
      at = omega (arith, w.at);
      same_limit = w.same_limit;
      same_length = w.same_length ∙ length-set p.payload p.pos b;
    }

-- A write leaves the bytes before it alone.
byte_at-before :
    (bs : Bytes) (p : Packet) (j : ℕ) → j < p.pos → byte_at (write_bytes p bs) j ≡ byte_at p j
unfolding write_bytes write_byte
byte_at-before [] p j h = refl
byte_at-before (b ∷ bs) p j h =
    byte_at-before bs (write_byte p b) j (omega (arith, h))
    ∙ get_or-set_other p.payload p.pos j b (λ e. omega (arith, e, h))

-- The bytes that have been written stand where they were written.
pub byte_at-write_bytes :
    (bs : Bytes) (p : Packet) (i : ℕ)
    → p.pos + length bs ≤ length p.payload
    → i < length bs
    → byte_at (write_bytes p bs) (p.pos + i) ≡ get_or bs i 0
unfolding write_bytes write_byte
byte_at-write_bytes [] p i h k = omega (arith, k)
byte_at-write_bytes (b ∷ bs) p zero h k =
    ap (byte_at (write_bytes (write_byte p b) bs)) (omega arith)
    ∙ byte_at-before bs (write_byte p b) p.pos (omega arith)
    ∙ get_or-set p.payload p.pos b (omega (arith, h))
byte_at-write_bytes (b ∷ bs) p (suc i) h k =
    ap (byte_at (write_bytes (write_byte p b) bs)) (omega arith)
    ∙ byte_at-write_bytes bs (write_byte p b) i (omega (arith, h, length-set p.payload p.pos b))
        (omega (arith, k))

pub get_or-drop : (xs : Bytes) (i j : ℕ) → get_or (drop i xs) j 0 ≡ get_or xs (i + j) 0
get_or-drop xs zero j = ap (λ k. get_or xs k 0) (omega arith)
get_or-drop [] (suc i) j = refl
get_or-drop (x ∷ xs) (suc i) j =
    let place : suc (i + j) ≡ suc i + j = omega arith in
    get_or-drop xs i j ∙ ap (λ k. get_or (x ∷ xs) k 0) place

-- A part of a list is known by its places.
pub take-places :
    (bs ys : Bytes)
    → length bs ≤ length ys
    → ((i : ℕ) → i < length bs → get_or ys i 0 ≡ get_or bs i 0)
    → take (length bs) ys ≡ bs
take-places [] ys h k = refl
take-places (b ∷ bs) [] h k = let z : ⊥ = omega (arith, h) in elim z [ ]
take-places (b ∷ bs) (y ∷ ys) h k =
    let head : y ≡ b = k 0 (omega arith) in
    ap (λ c. c ∷ take (length bs) ys) head
    ∙ ap (λ cs. b ∷ cs)
        (take-places bs ys (omega (arith, h)) (λ i lt. k (suc i) (omega (arith, lt))))
