-- ===== src/Topic/Matching.antt =====
-- `mosquitto_topic_matches_sub` against the matching of levels.
pub mod Rest
use adaptive_mqtt_transmit_p.Common.{
  ℕ, ◌+◌, ◌<◌, Bool, true, false, not, some, List, [], ◌∷◌, ltb, leb, ◌==◌, if◌then◌else◌, ◌&&◌,
  ◌||◌, ◌≡◌, refl, arith, zero, suc, Option, Bool-cases, inl, inr, ◌⊎◌, none, ==_iff, sym, ◌∙◌, ap,
  ◌≢◌,
}
use adaptive_mqtt_transmit_p.Common.Bytes.{Bytes, bytes_eq, bytes_eq_refl}
use adaptive_mqtt_transmit_p.Broker.Types.{Rc, success}
use adaptive_mqtt_transmit_p.Topic.{
  is_wildcard, is_misplaced, char_at, has_wildcard, has_inner_hash, is_empty, skip_level, mismatch,
  at_hash, at_plus, at_same, matches_loop, topic_matches_sub, Answer, is_slash_hash, is_plus_only,
  bad_after, bad_before, sub_topic_check, pub_topic_check, no_match, differs_in_dollar, match,
  refused, tail_of,
}
use adaptive_mqtt_transmit_p.Topic.Levels.{
  levels, first_level, more_levels, levels_lem, hash, IsText, matches_levels, matches_spec,
}
use adaptive_mqtt_transmit_p.Topic.Validity.{
  is_placed, sub_topic_check-is_placed, pub_topic_check-has_wildcard,
}
use adaptive_mqtt_transmit_p.Topic.Matching.Rest.{
  matches_from, is_start, from_same, from_plus, from_mismatch, from_hash, from_no_filter,
  from_nothing, from_no_topic, skip_level_lem,
}

-- The loop has not settled the case where the topic has ended here.
abbrev Open : ℕ → Bytes → Bytes → Type 0
Open prev sub topic =
    is_empty topic && (is_empty sub || is_slash_hash sub && not (prev == b'+')) ≡ false

abbrev Right : Answer → Bool → Bytes → Bytes → Type 0
Right a b sub topic = a ≡ (success, matches_from b sub topic)

no_inner_hash :
    (prev : ℕ) (s : Bytes) → IsText s → is_placed prev s ≡ true → has_inner_hash s ≡ false
unfolding is_placed is_misplaced has_inner_hash
no_inner_hash prev [] h p = refl
no_inner_hash prev (c ∷ s) h p = ground (arith, no_inner_hash c s h.1)

-- A `#` in a filter that is accepted is its last character.
hash_is_last :
    (prev : ℕ) (s : Bytes)
    → IsText s
    → is_placed prev s ≡ true
    → bytes_eq (first_level s) hash ≡ (char_at s == b'#')
unfolding is_placed is_misplaced bytes_eq first_level
hash_is_last prev [] h p = refl
hash_is_last prev (c ∷ []) h p = ground arith
hash_is_last prev (c ∷ d ∷ s) h p = ground arith

slash_hash_lem :
    (c d : ℕ) (s : Bytes)
    → IsText s
    → is_placed d s ≡ true
    → is_slash_hash (c ∷ s) ≡ (c == b'/' && char_at s == b'#')
unfolding is_placed is_misplaced
slash_hash_lem c d [] h p = ground arith
slash_hash_lem c d (e ∷ []) h p = refl
slash_hash_lem c d (e ∷ f ∷ s) h p = ground arith

-- The last round at a `+` that ends the filter where the topic has ended.
plus_at_end :
    (c d : ℕ) (next : Answer)
    → 0 < c
    → is_placed c (d ∷ []) ≡ true
    → (Open c (d ∷ []) [] → Right next (is_start c) (d ∷ []) [])
    → Right (at_same c (d ∷ []) [] next) (is_start c) (d ∷ []) []
unfolding at_same is_placed is_misplaced skip_level
plus_at_end c d next h p k = elim (Bool-cases (d == b'+')) [
  | inl e ↦
      let q : c ≡ b'/' = ground arith in
      let r = from_plus [] [] [] tt refl refl ∙ from_nothing false in
      rw ((==_iff d b'+').0 e) (rw q (rw r refl))
  | inr n ↦ rw n (k refl)
]

at_same_lem :
    (c : ℕ) (sub topic : Bytes) (next : Answer)
    → IsText (c ∷ sub)
    → is_placed c sub ≡ true
    → is_wildcard c ≡ false
    → (Open c sub topic → Right next (is_start c) sub topic)
    → Right (at_same c sub topic next) (is_start c) sub topic
unfolding at_same first_level bytes_eq
at_same_lem c sub (t ∷ topic) next h p w k = ground (arith, k refl)
at_same_lem c [] [] next h p w k = rw (from_nothing (is_start c)) refl
at_same_lem c (d ∷ []) [] next h p w k = plus_at_end c d next h.0 p k
at_same_lem c (d ∷ e ∷ []) [] next h p w k = elim (Bool-cases (is_slash_hash (d ∷ e ∷ []))) [
  | inl s ↦ ground (arith, from_no_topic (is_start c) d (e ∷ []))
  | inr n ↦ rw n (k (rw n refl))
]
at_same_lem c (d ∷ e ∷ f ∷ sub) [] next h p w k = k refl

skip_level_total :
    (topic : Bytes)
    → has_wildcard topic ≡ false
    → (rest : Bytes) × (skip_level topic ≡ some rest) × (has_wildcard rest ≡ false)
unfolding skip_level has_wildcard
skip_level_total [] w = ([], refl, refl)
skip_level_total (c ∷ topic) w = elim (Bool-cases (c == b'/')) [
  | inl e ↦ (c ∷ topic, rw e refl, w)
  | inr n ↦ let (rest, e, v) = skip_level_total topic (ground arith) in (rest, ground arith, v)
]

at_plus_lem :
    (prev : ℕ) (sub topic : Bytes) (next : Bytes → Answer)
    → IsText sub
    → is_placed prev (b'+' ∷ sub) ≡ true
    → has_wildcard topic ≡ false
    → ((rest : Bytes)
        → has_wildcard rest ≡ false
        → Open b'+' sub rest
        → Right (next rest) false sub rest)
    → Right (at_plus prev sub topic next) true (b'+' ∷ sub) topic
unfolding at_plus is_placed is_misplaced
at_plus_lem prev sub topic next h p w k =
    let (rest, e, v) = skip_level_total topic w in
    rw e ground (arith, from_plus sub topic rest h, from_nothing false, k rest v)

mismatch_lem :
    (prev c : ℕ) (sub topic : Bytes)
    → IsText (c ∷ sub)
    → is_placed prev (c ∷ sub) ≡ true
    → is_wildcard c ≡ false
    → (char_at topic == c) ≡ false
    → Open prev (c ∷ sub) topic
    → Right (mismatch prev c sub topic) (is_start prev) (c ∷ sub) topic
unfolding mismatch is_placed
mismatch_lem prev c sub [] h p w n o = ground (
  arith,
  no_inner_hash prev (c ∷ sub) h p,
  from_no_topic (is_start prev) c sub w,
  hash_is_last c sub h.1,
  slash_hash_lem c c sub h.1,
)
mismatch_lem prev c sub (t ∷ topic) h p w n o =
    ground (arith, no_inner_hash prev (c ∷ sub) h p, from_mismatch (is_start prev) c t sub topic)

at_hash_lem :
    (prev : ℕ) (sub topic : Bytes)
    → IsText sub
    → is_placed prev (b'#' ∷ sub) ≡ true
    → has_wildcard topic ≡ false
    → Right (at_hash prev sub topic) true (b'#' ∷ sub) topic
unfolding at_hash is_placed is_misplaced
at_hash_lem prev [] topic h p w = ground (arith, from_hash topic)
at_hash_lem prev (c ∷ sub) topic h p w = ground arith

placed_tail : (prev c : ℕ) (sub : Bytes) → is_placed prev (c ∷ sub) ≡ true → is_placed c sub ≡ true
unfolding is_placed
placed_tail prev c sub p = ground arith

-- A wildcard stands at the start of a level.
wildcard_starts :
    (prev c : ℕ) (sub : Bytes)
    → is_placed prev (c ∷ sub) ≡ true
    → is_wildcard c ≡ true
    → is_start prev ≡ true
unfolding is_placed is_misplaced
wildcard_starts prev c sub p w = ground arith

char_at-no_wildcard :
    (topic : Bytes) → has_wildcard topic ≡ false → is_wildcard (char_at topic) ≡ false
unfolding has_wildcard
char_at-no_wildcard [] w = refl
char_at-no_wildcard (t ∷ topic) w = ground arith

wildcard_tail :
    (t : ℕ) (topic : Bytes) → has_wildcard (t ∷ topic) ≡ false → has_wildcard topic ≡ false
unfolding has_wildcard
wildcard_tail t topic w = ground arith

module _ (prev c : ℕ) (sub : Bytes) (h : IsText (c ∷ sub)) (p : is_placed prev (c ∷ sub) ≡ true)
    (ih : (q : ℕ) (t : Bytes)
      → is_placed q sub ≡ true
      → has_wildcard t ≡ false
      → Open q sub t
      → Right (matches_loop q sub t) (is_start q) sub t) where
  -- The round where the characters differ.
  different :
      (topic : Bytes)
      → has_wildcard topic ≡ false
      → (char_at topic == c) ≡ false
      → Open prev (c ∷ sub) topic
      → Right
          (if c == b'+'
            then at_plus prev sub topic (λ rest. matches_loop b'+' sub rest)
            else if c == b'#'
            then at_hash prev sub topic
            else mismatch prev c sub topic)
          (is_start prev)
          (c ∷ sub)
          topic
  different topic w n o = elim (Bool-cases (c == b'+')) [
    | inl e ↦
        let q : c ≡ b'+' = (==_iff c b'+').0 e in
        let p' = rw q at p in
        rw q rw (wildcard_starts prev b'+' sub p' refl) (
          at_plus_lem prev sub topic (λ rest. matches_loop b'+' sub rest) h.1 p' w
            λ rest v o'. ih b'+' rest (placed_tail prev b'+' sub p') v o')
    | inr m ↦ elim (Bool-cases (c == b'#')) [
      | inl e ↦
          let q : c ≡ b'#' = (==_iff c b'#').0 e in
          let p' = rw q at p in
          rw q rw (wildcard_starts prev b'#' sub p' refl) (at_hash_lem prev sub topic h.1 p' w)
      | inr k ↦ rw m (rw k (mismatch_lem prev c sub topic h p (ground arith) n o))
    ]
  ]

  -- The round where they are the same.
  same :
      (topic : Bytes)
      → has_wildcard (c ∷ topic) ≡ false
      → Right (at_same c sub topic (matches_loop c sub topic)) (is_start prev) (c ∷ sub) (c ∷ topic)
  same topic w =
      let v = char_at-no_wildcard (c ∷ topic) w in
      let t = placed_tail prev c sub p in
      let e : is_start c ≡ (c == b'/') = ground (arith, h.0) in
      rw (from_same (is_start prev) c sub topic v) rw (← e) (
        at_same_lem c sub topic (matches_loop c sub topic) h t v
          λ o. ih c topic t (wildcard_tail c topic w) o)

no_filter_left :
    (prev : ℕ) (topic : Bytes) → has_wildcard topic ≡ false → matches_loop prev [] topic ≡ no_match
unfolding matches_loop
no_filter_left prev topic w = ground arith

-- The choice that a round of the loop makes.
matches_loop_round :
    (prev c : ℕ) (sub topic : Bytes)
    → matches_loop prev (c ∷ sub) topic ≡ (
        if is_wildcard (char_at topic)
        then refused
        else if c == char_at topic && not (is_empty topic)
        then at_same c sub (tail_of topic) (matches_loop c sub (tail_of topic))
        else if c == b'+'
        then at_plus prev sub topic (λ rest. matches_loop b'+' sub rest)
        else if c == b'#'
        then at_hash prev sub topic
        else mismatch prev c sub topic)
unfolding matches_loop
matches_loop_round prev c sub topic = refl

pick {ℓ} :
    {A : Type ℓ} (a b : Bool) (x y z : A)
    → a ≡ false
    → (if a then x else if b then y else z) ≡ (if b then y else z)
pick a b x y z e = rw e refl

matches_loop_lem :
    (prev : ℕ) (sub topic : Bytes)
    → IsText sub
    → is_placed prev sub ≡ true
    → has_wildcard topic ≡ false
    → Open prev sub topic
    → Right (matches_loop prev sub topic) (is_start prev) sub topic
matches_loop_lem prev [] [] h p w o = cc
matches_loop_lem prev [] (t ∷ topic) h p w o =
    no_filter_left prev (t ∷ topic) w ∙ rw (from_no_filter (is_start prev) t topic) refl
matches_loop_lem prev (c ∷ sub) [] h p w o =
    let ih = λ (q : ℕ) (t : Bytes). matches_loop_lem q sub t h.1 in
    let z : (c == 0) ≡ false = ground arith in
    matches_loop_round prev c sub [] ∙ rw z (different prev c sub h p ih [] w (ground arith) o)
matches_loop_lem prev (c ∷ sub) (t ∷ topic) h p w o =
    let ih = λ (q : ℕ) (t : Bytes). matches_loop_lem q sub t h.1 in
    matches_loop_round prev c sub (t ∷ topic)
    ∙ pick (is_wildcard t) (c == t && true) _ _ _ (char_at-no_wildcard (t ∷ topic) w)
    ∙ elim (Bool-cases (c == t)) [
      | inl e ↦
          let q : t ≡ c = sym ((==_iff c t).0 e) in
          rw e (rw q (same prev c sub h p ih topic (rw q at w)))
      | inr n ↦ rw n (different prev c sub h p ih (t ∷ topic) w (ground arith) o)
    ]

-- For a filter and a topic that the checks accept, the call succeeds and tells whether the topic
-- matches the filter level by level.
pub topic_matches_sub-matches_spec :
    (sub topic : Bytes)
    → IsText sub
    → sub ≢ []
    → topic ≢ []
    → sub_topic_check (some sub) ≡ success
    → pub_topic_check (some topic) ≡ success
    → topic_matches_sub sub topic ≡ (success, matches_spec sub topic)
unfolding topic_matches_sub matches_spec matches_from
topic_matches_sub-matches_spec [] topic h n m p w = absurd (n refl)
topic_matches_sub-matches_spec (c ∷ sub) [] h n m p w = absurd (m refl)
topic_matches_sub-matches_spec (c ∷ sub) (t ∷ topic) h n m p w =
    let placed = sub_topic_check-is_placed (c ∷ sub) p in
    let plain = pub_topic_check-has_wildcard (t ∷ topic) w in
    let loop = matches_loop_lem 0 (c ∷ sub) (t ∷ topic) h placed plain refl in
    ground (arith, loop, from_mismatch true c t sub topic, char_at-no_wildcard (t ∷ topic) plain)
