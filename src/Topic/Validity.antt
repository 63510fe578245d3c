-- ===== src/Topic/Validity.antt =====
-- `mosquitto_pub_topic_check` and `mosquitto_sub_topic_check` against the levels of the text.
use adaptive_mqtt_transmit_p.Common.{
  Bool-cases, All, ◌<◌, ap, ◌∙◌, sym, ==_iff, inl, inr, ◌⊎◌, ℕ, ◌+◌, ◌≤◌, Bool, true, false, not,
  some, List, [], ◌∷◌, ◌==◌, if◌then◌else◌, ◌&&◌, ◌||◌, ◌≡◌, ◌↔◌, refl, arith, length, suc,
}
use native.Mathlib.Nat.{add-zero, zero-add}
use adaptive_mqtt_transmit_p.Common.Bytes.{Bytes, bytes_eq}
use adaptive_mqtt_transmit_p.Broker.Types.{Rc, success, inval}
use adaptive_mqtt_transmit_p.Topic.{
  bad_after, is_wildcard, is_misplaced, char_at, check_size, has_wildcard, pub_check_loop,
  pub_topic_check, sub_check_loop, sub_topic_check, max_topic_len, topic_hierarchy_limit,
}
use adaptive_mqtt_transmit_p.Topic.Levels.{
  levels, add_front, first_level, more_levels, levels_lem, plus, hash, IsText,
}

-- No wildcard stands where the loop refuses it.
unfoldable pub is_placed : ℕ → Bytes → Bool
is_placed prev [] = true
is_placed prev (c ∷ s) = not (is_misplaced prev c s) && is_placed c s

slashes : Bytes → ℕ
slashes [] = 0
slashes (c ∷ s) = if c == b'/' then suc (slashes s) else slashes s

length-levels : (s : Bytes) → length (levels s) ≡ suc (slashes s)
unfolding levels add_front slashes
length-levels [] = refl
length-levels (c ∷ s) = ground (arith, length-levels s, levels_lem s)

count_step :
    (c : ℕ) (s : Bytes) (h : ℕ) → (if c == b'/' then h + 1 else h) + slashes s ≡ h + slashes (c ∷ s)
unfolding slashes
count_step c s h = ground arith

add_suc : (n k : ℕ) → n + 1 + k ≡ n + suc k
add_suc n k = omega arith

refuse_either :
    (a b : Bool) (x y : Rc) → (if a then x else if b then x else y) ≡ (if a || b then x else y)
refuse_either true b x y = refl
refuse_either false b x y = refl

sub_check_loop_lem :
    (prev : ℕ) (s : Bytes) (h n : ℕ)
    → sub_check_loop prev s h n
      ≡ (if is_placed prev s then check_size (n + length s) (h + slashes s) else inval)
unfolding sub_check_loop is_placed slashes
sub_check_loop_lem prev [] h n = rw (add-zero, add-zero) refl
sub_check_loop_lem prev (c ∷ s) h n = ground (
  arith,
  sub_check_loop_lem c s (if c == b'/' then h + 1 else h) (n + 1),
  count_step c s h,
  add_suc n (length s),
)

pub_check_loop_lem :
    (s : Bytes) (h n : ℕ)
    → pub_check_loop s h n
      ≡ (if has_wildcard s then inval else check_size (n + length s) (h + slashes s))
unfolding pub_check_loop has_wildcard slashes
pub_check_loop_lem [] h n = rw (add-zero, add-zero) refl
pub_check_loop_lem (c ∷ s) h n =
    rw (pub_check_loop_lem s (if c == b'/' then h + 1 else h) (n + 1)) rw (count_step c s h) rw
      (add_suc n (length s)) (refuse_either (is_wildcard c) (has_wildcard s) _ _)

check_size_iff :
    (n h : ℕ) → (check_size n h ≡ success) ↔ ((n ≤ max_topic_len) × (h ≤ topic_hierarchy_limit))
unfolding check_size
check_size_iff n h = ground arith

abbrev pub is_last : List Bytes → Bool
is_last [] = true
is_last (l ∷ ls) = false

-- A level of a filter: a wildcard alone, `#` only as the last one, or a text without wildcards.
unfoldable pub is_level : Bytes → List Bytes → Bool
unfolding bytes_eq has_wildcard
is_level l ls =
    if bytes_eq l plus then true else if bytes_eq l hash then is_last ls else not (has_wildcard l)

unfoldable pub are_levels : List Bytes → Bool
unfolding is_level
are_levels [] = true
are_levels (l ∷ ls) = is_level l ls && are_levels ls

-- The rest of a filter: at the start of a level, or inside one that has no wildcard so far.
are_levels_from : Bool → Bytes → Bool
are_levels_from true s = are_levels (levels s)
are_levels_from false s = not (has_wildcard (first_level s)) && are_levels (more_levels s)

abbrev is_start : ℕ → Bool
is_start c = c == 0 || c == b'/'

levels_from_plus :
    (s : Bytes)
    → IsText s
    → are_levels_from true (b'+' ∷ s) ≡ not (bad_after (char_at s)) && are_levels_from false s
unfolding are_levels_from are_levels is_level first_level more_levels
levels_from_plus [] h = rw (levels_lem (b'+' ∷ [])) refl
levels_from_plus (d ∷ s) h = rw (levels_lem (b'+' ∷ d ∷ s)) (ground arith)

levels_from_hash : (s : Bytes) → IsText s → are_levels_from true (b'#' ∷ s) ≡ (char_at s == 0)
unfolding are_levels_from are_levels is_level first_level more_levels
levels_from_hash [] h = rw (levels_lem (b'#' ∷ [])) refl
levels_from_hash (d ∷ s) h = rw (levels_lem (b'#' ∷ d ∷ s)) (ground (arith, levels_lem s))

levels_from_slash : (b : Bool) (s : Bytes) → are_levels_from b (b'/' ∷ s) ≡ are_levels_from true s
unfolding are_levels_from are_levels is_level first_level more_levels
levels_from_slash true s = rw (levels_lem (b'/' ∷ s)) refl
levels_from_slash false s = refl

levels_from_other :
    (c : ℕ) (s : Bytes)
    → is_wildcard c ≡ false
    → (c == b'/') ≡ false
    → (b : Bool) → are_levels_from b (c ∷ s) ≡ are_levels_from false s
unfolding are_levels_from are_levels is_level first_level more_levels
levels_from_other c s w n true = rw (levels_lem (c ∷ s)) (ground arith)
levels_from_other c s w n false = ground arith

levels_from_wild :
    (c : ℕ) (s : Bytes) → is_wildcard c ≡ true → are_levels_from false (c ∷ s) ≡ false
unfolding are_levels_from first_level has_wildcard
levels_from_wild c s w = ground arith

levels_from_end : (b : Bool) → are_levels_from b [] ≡ true
unfolding are_levels_from are_levels is_level first_level more_levels levels
levels_from_end true = refl
levels_from_end false = refl

-- Behind `+` or `#` there is nothing, or behind `+` a slash.
abbrev Fits : ℕ → Bytes → Type 0
Fits prev s =
    ((prev == b'#') ≡ false) × (((prev == b'+') ≡ false) ⊎ (bad_after (char_at s) ≡ false))

is_placed_hash : (s : Bytes) → IsText s → (char_at s == 0) && is_placed b'#' s ≡ (char_at s == 0)
unfolding is_placed
is_placed_hash [] h = refl
is_placed_hash (d ∷ s) h = ground arith

levels_from_step :
    (c : ℕ) (s : Bytes)
    → 0 < c
    → is_wildcard c ≡ false
    → (b : Bool) → are_levels_from b (c ∷ s) ≡ are_levels_from (is_start c) s
levels_from_step c s pos w b = elim (Bool-cases (c == b'/')) [
  | inl e ↦ rw ((==_iff c b'/').0 e) (levels_from_slash b s)
  | inr n ↦ levels_from_other c s w n b ∙ ap (λ x. are_levels_from x s) (ground arith)
]

is_placed-levels :
    (prev : ℕ) (s : Bytes)
    → IsText s
    → Fits prev s
    → is_placed prev s ≡ are_levels_from (is_start prev) s
unfolding is_placed is_misplaced
is_placed-levels prev [] h f = sym (levels_from_end (is_start prev))
is_placed-levels prev (c ∷ s) h f = elim (Bool-cases (c == b'+')) [
  | inl e ↦
      rw ((==_iff c b'+').0 e) ground
        (arith, is_placed-levels b'+' s h.1, levels_from_plus s, levels_from_wild b'+' s)
  | inr n ↦ elim (Bool-cases (c == b'#')) [
    | inl e ↦
        rw ((==_iff c b'#').0 e) ground
          (arith, is_placed_hash s h.1, levels_from_hash s, levels_from_wild b'#' s)
    | inr m ↦
        ground
          (arith, is_placed-levels c s h.1, levels_from_step c s h.0 (ground arith) (is_start prev))
  ]
]

-- The lengths that both checks allow.
abbrev pub WithinLimits : Bytes → Type 0
WithinLimits s = (length s ≤ max_topic_len) × (length (levels s) ≤ suc topic_hierarchy_limit)

sized→WithinLimits : (s : Bytes) → check_size (length s) (slashes s) ≡ success → WithinLimits s
sized→WithinLimits s h =
    let k = (check_size_iff (length s) (slashes s)).0 h in
    (k.0, omega (arith, k.1, length-levels s))

WithinLimits→sized : (s : Bytes) → WithinLimits s → check_size (length s) (slashes s) ≡ success
WithinLimits→sized s (a, b) =
    (check_size_iff (length s) (slashes s)).1 (a, omega (arith, b, length-levels s))

sub_topic_check-eq :
    (s : Bytes)
    → IsText s
    → sub_topic_check (some s)
      ≡ (if are_levels (levels s) then check_size (length s) (slashes s) else inval)
unfolding sub_topic_check are_levels_from
sub_topic_check-eq s h =
    sub_check_loop_lem 0 s 0 0
    ∙ rw (zero-add (length s), zero-add (slashes s)) rw (is_placed-levels 0 s h (refl, inl refl))
        refl

accepted_iff :
    (b : Bool) (r : Rc) → ((if b then r else inval) ≡ success) ↔ ((b ≡ true) × (r ≡ success))
accepted_iff true r = (λ h. (refl, h), λ h. h.1)
accepted_iff false r = (λ h. cc, λ h. cc (h.0))

-- A filter is accepted exactly if each of its levels is a wildcard alone, with `#` only as the last,
-- or has no wildcard, and it has at most 65535 characters and 201 levels.
pub sub_topic_check-success_iff :
    (s : Bytes)
    → IsText s
    → (sub_topic_check (some s) ≡ success) ↔ ((are_levels (levels s) ≡ true) × WithinLimits s)
sub_topic_check-success_iff s h =
    let e = sub_topic_check-eq s h in
    let (f, g) = accepted_iff (are_levels (levels s)) (check_size (length s) (slashes s)) in
    (
      λ k. ((f (sym e ∙ k)).0, sized→WithinLimits s (f (sym e ∙ k)).1),
      λ k. e ∙ g (k.0, WithinLimits→sized s k.1),
    )

pub sub_topic_check-is_placed :
    (s : Bytes) → sub_topic_check (some s) ≡ success → is_placed 0 s ≡ true
unfolding sub_topic_check
sub_topic_check-is_placed s h =
    ((accepted_iff (is_placed 0 s) _).0 (sym (sub_check_loop_lem 0 s 0 0) ∙ h)).0

pub pub_topic_check-has_wildcard :
    (s : Bytes) → pub_topic_check (some s) ≡ success → has_wildcard s ≡ false
unfolding pub_topic_check
pub_topic_check-has_wildcard s h = ground (arith, h, pub_check_loop_lem s 0 0)

All-no_wildcard : (s : Bytes) → (has_wildcard s ≡ false) ↔ All (λ c. is_wildcard c ≡ false) s
unfolding has_wildcard
All-no_wildcard [] = (λ h. tt, λ h. refl)
All-no_wildcard (c ∷ s) = ground (arith, All-no_wildcard s)

pub_topic_check-eq :
    (s : Bytes)
    → pub_topic_check (some s)
      ≡ (if has_wildcard s then inval else check_size (length s) (slashes s))
unfolding pub_topic_check
pub_topic_check-eq s =
    pub_check_loop_lem s 0 0 ∙ rw (zero-add (length s), zero-add (slashes s)) refl

-- A topic is accepted exactly if it has no wildcard and at most 65535 characters and 201 levels.
pub pub_topic_check-success_iff :
    (s : Bytes)
    → (pub_topic_check (some s) ≡ success) ↔ (All (λ c. is_wildcard c ≡ false) s × WithinLimits s)
pub_topic_check-success_iff s = (
  λ k. (
    (All-no_wildcard s).0 (pub_topic_check-has_wildcard s k),
    sized→WithinLimits s (ground (arith, k, pub_topic_check-eq s)),
  ),
  λ k. ground (arith, pub_topic_check-eq s, (All-no_wildcard s).1 k.0, WithinLimits→sized s k.1),
)
