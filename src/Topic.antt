-- ===== src/Topic.antt =====
-- Topics and topic filters: lib/util_topic.c, and the levels of which they consist.
-- A C string is the list of its bytes without the 0 at its end, so reading at the end gives 0.
pub mod Levels
pub mod Validity
pub mod Matching
use adaptive_mqtt_transmit_p.Common.{
  ℕ, ◌+◌, Bool, true, false, not, Option, none, some, List, [], ◌∷◌, ltb, leb, ◌==◌, if◌then◌else◌,
  ◌&&◌, ◌||◌,
}
use adaptive_mqtt_transmit_p.Common.Bytes.{Bytes}
use adaptive_mqtt_transmit_p.Broker.Types.{Rc, success, inval}

-- `TOPIC_HIERARCHY_LIMIT` of lib/mosquitto_internal.h and the longest topic.
abbrev pub topic_hierarchy_limit : ℕ
topic_hierarchy_limit = 200

abbrev pub max_topic_len : ℕ
max_topic_len = 65535

-- `str[0]`, 0 at the end.
abbrev pub char_at : Bytes → ℕ
char_at [] = 0
char_at (c ∷ s) = c

abbrev pub is_wildcard : ℕ → Bool
is_wildcard c = c == b'+' || c == b'#'

-- The two tests after the loops.
unfoldable pub check_size : ℕ → ℕ → Rc
check_size len hier_count =
    if ltb max_topic_len len
    then inval
    else if ltb topic_hierarchy_limit hier_count
    then inval
    else success

-- The loop of `mosquitto_pub_topic_check`, with its variables `hier_count` and `len`.
unfoldable pub pub_check_loop : Bytes → ℕ → ℕ → Rc
pub_check_loop [] hier_count len = check_size len hier_count
pub_check_loop (c ∷ s) hier_count len =
    let rest = pub_check_loop s (if c == b'/' then hier_count + 1 else hier_count) (len + 1) in
    if is_wildcard c then inval else rest

-- `mosquitto_pub_topic_check`; a null pointer is `none`.
unfoldable pub pub_topic_check : Option Bytes → Rc
unfolding pub_check_loop
pub_topic_check none = inval
pub_topic_check (some s) = pub_check_loop s 0 0

-- The character before a wildcard must be `/` or none at all, which the source writes as 0.
abbrev pub bad_before : ℕ → Bool
bad_before c = not (c == 0) && not (c == b'/')

-- The character behind `+` must be `/` or the end.
abbrev pub bad_after : ℕ → Bool
bad_after c = not (c == 0) && not (c == b'/')

-- A wildcard in a position that the loop of `mosquitto_sub_topic_check` refuses.
unfoldable pub is_misplaced : ℕ → ℕ → Bytes → Bool
is_misplaced prev c s =
    if c == b'+'
    then bad_before prev || bad_after (char_at s)
    else c == b'#' && (bad_before prev || not (char_at s == 0))

-- The loop of `mosquitto_sub_topic_check`, with `c`, `hier_count` and `len`.
unfoldable pub sub_check_loop : ℕ → Bytes → ℕ → ℕ → Rc
sub_check_loop prev [] hier_count len = check_size len hier_count
sub_check_loop prev (c ∷ s) hier_count len =
    let rest = sub_check_loop c s (if c == b'/' then hier_count + 1 else hier_count) (len + 1) in
    if is_misplaced prev c s then inval else rest

-- `mosquitto_sub_topic_check`
unfoldable pub sub_topic_check : Option Bytes → Rc
unfolding sub_check_loop
sub_topic_check none = inval
sub_topic_check (some s) = sub_check_loop 0 s 0 0

-- `while(topic[0] != 0)`: is there a wildcard in the rest of the topic?
unfoldable pub has_wildcard : Bytes → Bool
has_wildcard [] = false
has_wildcard (c ∷ s) = is_wildcard c || has_wildcard s

-- The loop under `+`: what is behind the level of the topic, or `none` for a wildcard in it.
unfoldable pub skip_level : Bytes → Option Bytes
skip_level [] = some []
skip_level (c ∷ s) =
    let rest = skip_level s in
    if c == b'/' then some (c ∷ s) else if is_wildcard c then none else rest

-- A `#` that is not the last character.
unfoldable pub has_inner_hash : Bytes → Bool
has_inner_hash [] = false
has_inner_hash (c ∷ s) = c == b'#' && not (char_at s == 0) || has_inner_hash s

abbrev pub tail_of : Bytes → Bytes
tail_of [] = []
tail_of (c ∷ s) = s

-- What a call returns, and `*result`.
abbrev pub Answer : Type 0
Answer = Rc × Bool

abbrev pub refused : Answer
refused = (inval, false)

abbrev pub no_match : Answer
no_match = (success, false)

abbrev pub match : Answer
match = (success, true)

-- `sub[1] == '/' && sub[2] == '#' && sub[3] == 0`, on what is behind the first character.
abbrev pub is_slash_hash : Bytes → Bool
is_slash_hash (c ∷ d ∷ []) = c == b'/' && d == b'#'
is_slash_hash _ = false

abbrev pub is_plus_only : Bytes → Bool
is_plus_only (c ∷ []) = c == b'+'
is_plus_only _ = false

abbrev pub is_empty : Bytes → Bool
is_empty [] = true
is_empty (c ∷ s) = false

-- The rest of the call where the characters differ and the filter has no wildcard here.
unfoldable pub mismatch : ℕ → ℕ → Bytes → Bytes → Answer
unfolding has_inner_hash
mismatch prev c sub topic =
    if is_empty topic && (prev == b'+' && (c == b'/' && char_at sub == b'#'))
    then match
    else if has_inner_hash (c ∷ sub)
    then refused
    else no_match

-- The rest of the call at a `#`.
unfoldable pub at_hash : ℕ → Bytes → Bytes → Answer
unfolding has_wildcard
at_hash prev sub topic =
    if bad_before prev
    then refused
    else if not (char_at sub == 0)
    then refused
    else if has_wildcard topic
    then refused
    else match

-- Behind a `+`; `next` is the next round of the loop, on what is behind the level of the topic.
unfoldable pub at_plus : ℕ → Bytes → Bytes → (Bytes → Answer) → Answer
unfolding skip_level
at_plus prev sub topic next =
    if bad_before prev || bad_after (char_at sub) then refused else elim (skip_level topic) [
      | none ↦ refused
      | some rest ↦ if is_empty rest && is_empty sub then match else next rest
    ]

-- Behind a character that is the same in both; `next` is the next round of the loop.
unfoldable pub at_same : ℕ → Bytes → Bytes → Answer → Answer
at_same c sub topic next =
    if is_empty topic && is_slash_hash sub
    then match
    else if is_empty sub && is_empty topic
    then match
    else if is_empty topic && is_plus_only sub
    then (if c == b'/' then match else refused)
    else next

-- The loop of `mosquitto_topic_matches_sub2`. `prev` is `sub[-1]`, 0 before the first character.
unfoldable pub matches_loop : ℕ → Bytes → Bytes → Answer
unfolding mismatch at_hash at_plus at_same has_wildcard
matches_loop prev [] topic = if has_wildcard topic then refused else no_match
matches_loop prev (c ∷ sub) topic =
    let behind_plus = λ (rest : Bytes). matches_loop b'+' sub rest in
    let next = matches_loop c sub (tail_of topic) in
    if is_wildcard (char_at topic)
    then refused
    else if c == char_at topic && not (is_empty topic)
    then at_same c sub (tail_of topic) next
    else if c == b'+'
    then at_plus prev sub topic behind_plus
    else if c == b'#'
    then at_hash prev sub topic
    else mismatch prev c sub topic

-- One of the two begins with `$` and the other does not.
abbrev pub differs_in_dollar : Bytes → Bytes → Bool
differs_in_dollar sub topic =
    char_at sub == b'$' && not (char_at topic == b'$')
    || char_at topic == b'$' && not (char_at sub == b'$')

-- `mosquitto_topic_matches_sub2`
unfoldable pub topic_matches_sub : Bytes → Bytes → Answer
topic_matches_sub sub topic =
    if is_empty sub || is_empty topic
    then refused
    else if differs_in_dollar sub topic
    then no_match
    else matches_loop 0 sub topic
