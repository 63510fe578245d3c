-- ===== src/Subs/Publish/Levels.antt =====
-- The levels that src/topic_tok.c yields for a filter and a topic, and whether the filter matches.
use adaptive_mqtt_transmit_p.Common.{
  ℕ, suc, ◌≤◌, Bool, true, false, not, List, [], ◌∷◌, if◌then◌else◌, ◌&&◌, ◌==◌, ◌≡◌, ◌≢◌, refl,
  arith, Bool-cases, inl, inr, ◌⊎◌, if_rule, ==_iff, All, All-mono, length,
}
use adaptive_mqtt_transmit_p.Common.Bytes.{Bytes, bytes_eq, bytes_eq_iff, bytes_eq_refl}
use adaptive_mqtt_transmit_p.Topic.{char_at, is_wildcard, has_wildcard}
use adaptive_mqtt_transmit_p.Topic.Levels.{
  levels, add_front, first_level, more_levels, levels_lem, plus, hash, matches_levels, matches_spec,
}
use adaptive_mqtt_transmit_p.Topic.Validity.{are_levels, is_level}
use adaptive_mqtt_transmit_p.Topic.Matching.Rest.{matches_from, from_mismatch}
use adaptive_mqtt_transmit_p.Subs.Tokens.{head_of}
use adaptive_mqtt_transmit_p.Subs.Search.{hash_level, plus_level}
use adaptive_mqtt_transmit_p.Topic.Validity.{is_last}
use adaptive_mqtt_transmit_p.Subs.Search.Weight.{is_plain, hash_not_plus}
use adaptive_mqtt_transmit_p.Subs.Add.Weight.{AreShort}
use adaptive_mqtt_transmit_p.Subs.Add.Shape.{HashIsLast}

-- The array that `sub__topic_tokenise` makes of a text that is no shared subscription.
abbrev pub topics_of : Bytes → List Bytes
topics_of s = if char_at s == b'$' then levels s else [] ∷ levels s

-- The path of a node of the tree matches if its root has the name of the topic's first level and
-- the rest matches level by level.
unfoldable pub matches_root : List Bytes → List Bytes → Bool
matches_root [] topics = false
matches_root (t ∷ ts) topics = bytes_eq t (head_of topics) && matches_levels ts topics

levels-slash : (s : Bytes) → levels (b'/' ∷ s) ≡ [] ∷ levels s
unfolding levels
levels-slash s = refl

levels-other :
    (c : ℕ) (s : Bytes) → (c == b'/') ≡ false → levels (c ∷ s) ≡ (c ∷ first_level s) ∷ more_levels s
unfolding levels add_front
levels-other c s n = ground (arith, levels_lem s)

-- What holds of every level, by induction on the text.
All-levels :
    (P Q : Bytes → Type 0) (s : Bytes) (c : ℕ)
    → P []
    → ((l : Bytes) → Q l → P (c ∷ l))
    → ((l : Bytes) → Q l → P l)
    → All Q (levels s)
    → All P (levels (c ∷ s))
All-levels P Q s c z step weaken h = elim (Bool-cases (c == b'/')) [
  | inl e ↦ rw ((==_iff c b'/').0 e) (rw (levels-slash s) (z, All-mono Q P (levels s) weaken h))
  | inr n ↦ rw (levels-other c s n) (
      let k = rw (levels_lem s) at h in
      (step (first_level s) k.0, All-mono Q P (more_levels s) weaken k.1))
]

no_wildcard_levels :
    (s : Bytes) → has_wildcard s ≡ false → All (λ l. has_wildcard l ≡ false) (levels s)
unfolding levels has_wildcard
no_wildcard_levels [] h = (refl, tt)
no_wildcard_levels (c ∷ s) h =
    let P = λ (l : Bytes). has_wildcard l ≡ false in
    All-levels P P s c refl (λ l k. ground arith) (λ l k. k) (no_wildcard_levels s (ground arith))

plain_level : (l : Bytes) → has_wildcard l ≡ false → is_plain l ≡ true
unfolding has_wildcard bytes_eq
plain_level [] h = refl
plain_level (c ∷ l) h = ground arith

pub topics_of-plain :
    (s : Bytes) → has_wildcard s ≡ false → All (λ l. is_plain l ≡ true) (topics_of s)
unfolding has_wildcard
topics_of-plain s h =
    let k = All-mono _ (λ l. is_plain l ≡ true) (levels s) plain_level (no_wildcard_levels s h) in
    if_rule (All (λ l. is_plain l ≡ true)) (char_at s == b'$') k (plain_level [] refl, k)

short_levels : (s : Bytes) → All (λ l. length l ≤ length s) (levels s)
unfolding levels
short_levels [] = (omega arith, tt)
short_levels (c ∷ s) =
    All-levels (λ l. length l ≤ suc (length s)) (λ l. length l ≤ length s) s c (omega arith)
      (λ l k. omega arith) (λ l k. omega arith) (short_levels s)

hash_last :
    (l : Bytes) (ls : List Bytes)
    → is_level l ls ≡ true
    → (bytes_eq l hash_level && not (is_last ls) ≡ false)
unfolding is_level
hash_last l ls h = elim (Bool-cases (bytes_eq l hash_level)) [
  | inl e ↦
      let q : l ≡ hash_level = (bytes_eq_iff l hash_level).0 e in
      let k = rw q at h in rw e (ground (arith, k, hash_not_plus, bytes_eq_refl hash_level))
  | inr n ↦ rw n refl
]

hash_last_levels : (ls : List Bytes) → are_levels ls ≡ true → HashIsLast ls
unfolding are_levels is_level
hash_last_levels [] h = tt
hash_last_levels (l ∷ ls) h = (hash_last l ls (ground arith), hash_last_levels ls (ground arith))

-- The path of a filter in the tree.
abbrev pub path_of : Bytes → List Bytes
path_of s = head_of (topics_of s) ∷ topics_of s

head-topics_of :
    (s : Bytes) → head_of (topics_of s) ≡ (if char_at s == b'$' then first_level s else [])
head-topics_of s = ground (arith, levels_lem s)

nil_not_hash : bytes_eq [] hash_level ≡ false
unfolding bytes_eq
nil_not_hash = refl

head_short : (ls : List Bytes) → AreShort ls → length (head_of ls) ≤ 65535
head_short [] h = omega arith
head_short (l ∷ ls) h = h.0

-- The first token begins with `$` or is empty.
dollar_level :
    (c : ℕ) (s : Bytes)
    → (c == b'$') ≡ true
    → (w : Bytes) → (w ≡ plus_level) ⊎ (w ≡ hash_level)
    → bytes_eq (first_level (c ∷ s)) w ≡ false
unfolding bytes_eq first_level
dollar_level c s e w (inl h) = rw h (ground arith)
dollar_level c s e w (inr h) = rw h (ground arith)

nil_level : (w : Bytes) → (w ≡ plus_level) ⊎ (w ≡ hash_level) → bytes_eq [] w ≡ false
unfolding bytes_eq
nil_level w (inl h) = rw h refl
nil_level w (inr h) = rw h refl

head_no_wildcard :
    (s w : Bytes) → (w ≡ plus_level) ⊎ (w ≡ hash_level) → bytes_eq (head_of (topics_of s)) w ≡ false
head_no_wildcard [] w h = nil_level w h
head_no_wildcard (c ∷ s) w h = rw (head-topics_of (c ∷ s)) elim (Bool-cases (c == b'$')) [
  | inl e ↦ rw e (dollar_level c s e w h)
  | inr n ↦ rw n (nil_level w h)
]

pub path_of-HashIsLast : (s : Bytes) → are_levels (levels s) ≡ true → HashIsLast (path_of s)
path_of-HashIsLast s h =
    let k = hash_last_levels (levels s) h in
    (
      rw (head_no_wildcard s hash_level (inr refl)) refl,
      if_rule HashIsLast (char_at s == b'$') k (rw nil_not_hash refl, k),
    )

pub path_of-AreShort : (s : Bytes) → length s ≤ 65535 → AreShort (path_of s)
path_of-AreShort s h =
    let k = All-mono _ (λ l. length l ≤ 65535) (levels s) (λ l b. omega arith) (short_levels s) in
    let all = if_rule (All (λ l. length l ≤ 65535)) (char_at s == b'$') k (omega arith, k) in
    (head_short (topics_of s) all, all)

-- Both begin with `$`.
both_dollar :
    (c t : ℕ) (sub topic : Bytes)
    → (c == b'$') ≡ true
    → bytes_eq (first_level (c ∷ sub)) (first_level (t ∷ topic))
        && matches_levels (levels (c ∷ sub)) (levels (t ∷ topic))
      ≡ matches_levels (levels (c ∷ sub)) (levels (t ∷ topic))
unfolding matches_levels
both_dollar c t sub topic e =
    rw (levels_lem (c ∷ sub), levels_lem (t ∷ topic)) ground
      (arith, dollar_level c sub e plus (inl refl), dollar_level c sub e hash (inr refl))

-- Neither begins with `$`.
no_dollar :
    (ls ts : List Bytes)
    → bytes_eq [] [] && matches_levels ([] ∷ ls) ([] ∷ ts) ≡ matches_levels ls ts
unfolding matches_levels bytes_eq
no_dollar ls ts = refl

differ :
    (c t : ℕ) (sub topic : Bytes)
    → (c == t) ≡ false
    → is_wildcard c ≡ false
    → matches_levels (levels (c ∷ sub)) (levels (t ∷ topic)) ≡ false
unfolding matches_from
differ c t sub topic n w = from_mismatch true c t sub topic n w

dollar_not_nil :
    (c : ℕ) (s : Bytes)
    → (c == b'$') ≡ true
    → (bytes_eq (first_level (c ∷ s)) [] ≡ false) × (bytes_eq [] (first_level (c ∷ s)) ≡ false)
unfolding bytes_eq first_level
dollar_not_nil c s e = (ground arith, ground arith)

-- In the tree a filter that is not shared matches as mosquitto_topic_matches_sub has it.
pub matches_root-path_of :
    (sub topic : Bytes)
    → sub ≢ []
    → topic ≢ []
    → matches_root (path_of sub) (topics_of topic) ≡ matches_spec sub topic
unfolding matches_root matches_spec
matches_root-path_of [] topic n m = absurd (n refl)
matches_root-path_of (c ∷ sub) [] n m = absurd (m refl)
matches_root-path_of (c ∷ sub) (t ∷ topic) n m =
    rw (head-topics_of (c ∷ sub), head-topics_of (t ∷ topic))
      elim (Bool-cases (c == b'$')) [
        | inl d ↦ elim (Bool-cases (t == b'$')) [
          | inl e ↦ rw (d, e) (ground (arith, both_dollar c t sub topic d))
          | inr k ↦ rw (d, k) (ground (arith, differ c t sub topic, dollar_not_nil c sub d))
        ]
        | inr j ↦ elim (Bool-cases (t == b'$')) [
          | inl e ↦ rw (j, e) (ground (arith, differ c t sub topic, dollar_not_nil t topic e))
          | inr k ↦ rw (j, k) (no_dollar (levels (c ∷ sub)) (levels (t ∷ topic)))
        ]
      ]

pub topics_of-cons : (s : Bytes) → (t : Bytes) × (ts : List Bytes) × (topics_of s ≡ t ∷ ts)
topics_of-cons s = elim (Bool-cases (char_at s == b'$')) [
  | inl e ↦ (first_level s, more_levels s, rw e (levels_lem s))
  | inr n ↦ ([], levels s, rw n refl)
]
