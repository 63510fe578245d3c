-- ===== src/Examples/Topics.antt =====
-- The examples for topics and their tokens.
use adaptive_mqtt_transmit_p.Common.{
  ◌≡◌, ◌≢◌, ◌≤◌, ◌+◌, ◌↔◌, arith, refl, some, [], ◌∷◌, ◌++◌, true, false, length, none,
  if◌then◌else◌, ◌==◌, All,
}
use adaptive_mqtt_transmit_p.Common.Bytes.{Bytes, bytes_eq}
use adaptive_mqtt_transmit_p.Broker.Types.{success, inval}
use adaptive_mqtt_transmit_p.Topic.{
  sub_topic_check, sub_check_loop, is_misplaced, check_size, pub_topic_check, pub_check_loop,
  topic_matches_sub, char_at, is_wildcard, matches_loop,
}
use adaptive_mqtt_transmit_p.Topic.Levels.{levels, first_level, IsText, matches_spec}
use adaptive_mqtt_transmit_p.Topic.Validity.{
  sub_topic_check-success_iff, pub_topic_check-success_iff, are_levels, WithinLimits,
}
use adaptive_mqtt_transmit_p.Topic.Matching.{topic_matches_sub-matches_spec}
use adaptive_mqtt_transmit_p.Subs.Tokens.{
  topic_tokenise, tokens, topic_array, token_loop, count_tokens, behind_slash, share,
  token_loop-levels, topic_array-fits, topic_tokenise-levels, topic_tokenise-share,
}

-- `a/+/#`
abbrev pub filter : Bytes
filter = b'a' ∷ b'/' ∷ b'+' ∷ b'/' ∷ b'#' ∷ []

-- `a/b`
abbrev pub topic : Bytes
topic = b'a' ∷ b'/' ∷ b'b' ∷ []

-- `/x`
abbrev slash_topic : Bytes
slash_topic = b'/' ∷ b'x' ∷ []

pub filter_accepted : sub_topic_check (some filter) ≡ success
unfolding sub_topic_check sub_check_loop is_misplaced check_size
filter_accepted = refl

pub topic_accepted : pub_topic_check (some topic) ≡ success
unfolding pub_topic_check pub_check_loop check_size
topic_accepted = refl

pub topic_not_shared : bytes_eq (first_level topic) share ≡ false
unfolding first_level bytes_eq
topic_not_shared = refl

pub filter_not_shared : bytes_eq (first_level filter) share ≡ false
unfolding first_level bytes_eq
filter_not_shared = refl

group_no_slash : behind_slash (b'g' ∷ []) ≡ none
unfolding behind_slash
group_no_slash = refl

-- `a+`, `#/a` and `a/#/b` are refused.
bad_filters :
    (sub_topic_check (some (b'a' ∷ b'+' ∷ [])) ≡ inval)
    × (sub_topic_check (some (b'#' ∷ b'/' ∷ b'a' ∷ [])) ≡ inval)
    × (sub_topic_check (some (b'a' ∷ b'/' ∷ b'#' ∷ b'/' ∷ b'b' ∷ [])) ≡ inval)
unfolding sub_topic_check sub_check_loop is_misplaced check_size
bad_filters = (refl, refl, refl)

abbrev pub filter_text : IsText filter
filter_text = omega arith

sub_topic_check-success_iff_example :
    (sub_topic_check (some filter) ≡ success)
    ↔ ((are_levels (levels filter) ≡ true) × WithinLimits filter)
sub_topic_check-success_iff_example = sub_topic_check-success_iff filter filter_text

pub_topic_check-success_iff_example :
    (pub_topic_check (some topic) ≡ success)
    ↔ (All (λ c. is_wildcard c ≡ false) topic × WithinLimits topic)
pub_topic_check-success_iff_example = pub_topic_check-success_iff topic

pub filter_not_empty : filter ≢ []
filter_not_empty h = cc

pub topic_not_empty : topic ≢ []
topic_not_empty h = cc

topic_matches_sub-matches_spec_example :
    topic_matches_sub filter topic ≡ (success, matches_spec filter topic)
topic_matches_sub-matches_spec_example =
    topic_matches_sub-matches_spec filter topic filter_text filter_not_empty topic_not_empty
      filter_accepted topic_accepted

does_match : topic_matches_sub filter topic ≡ (success, true)
unfolding topic_matches_sub matches_loop
does_match = refl

-- Wildcards do not match `$SYS`.
sys_not_matched : topic_matches_sub (b'#' ∷ []) (b'$' ∷ b'S' ∷ []) ≡ (success, false)
unfolding topic_matches_sub
sys_not_matched = refl

token_loop-levels_example : token_loop 4 (some topic) ≡ levels topic
token_loop-levels_example = token_loop-levels 4 topic (omega arith)

topic_array-fits_example : length (topic_array slash_topic) + 1 ≤ count_tokens slash_topic + 3
topic_array-fits_example = topic_array-fits slash_topic (λ h. cc)

topic_tokenise-levels_example :
    topic_tokenise topic
    ≡ tokens (if char_at topic == b'$' then levels topic else [] ∷ levels topic) none
topic_tokenise-levels_example = topic_tokenise-levels topic topic_not_empty topic_not_shared

topic_tokenise-share_example :
    topic_tokenise (share ++ b'/' ∷ (b'g' ∷ []) ++ b'/' ∷ filter)
    ≡ tokens ([] ∷ levels filter) (some (b'g' ∷ []))
topic_tokenise-share_example = topic_tokenise-share (b'g' ∷ []) filter group_no_slash
