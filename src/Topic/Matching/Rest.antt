-- ===== src/Topic/Matching/Rest.antt =====
-- The matching of what is left of a filter and a topic, character by character.
use adaptive_mqtt_transmit_p.Common.{
  Bool-cases, inl, inr, ==_iff, ℕ, Bool, true, false, some, [], ◌∷◌, ◌==◌, ◌&&◌, ◌||◌, ◌≡◌, refl,
  arith,
}
use adaptive_mqtt_transmit_p.Common.Bytes.{Bytes, bytes_eq}
use adaptive_mqtt_transmit_p.Topic.{bad_after, is_wildcard, char_at, skip_level}
use adaptive_mqtt_transmit_p.Topic.Levels.{
  levels, add_front, first_level, more_levels, levels_lem, hash, IsText, matches_levels,
}

-- Do the rests of a filter and of a topic match? At the start of a level as texts, inside it if what
-- is left of the level is the same in both and the other levels match.
unfoldable pub matches_from : Bool → Bytes → Bytes → Bool
matches_from true sub topic = matches_levels (levels sub) (levels topic)
matches_from false sub topic =
    bytes_eq (first_level sub) (first_level topic)
    && matches_levels (more_levels sub) (more_levels topic)

abbrev pub is_start : ℕ → Bool
is_start c = c == 0 || c == b'/'

from_slash :
    (b : Bool) (sub topic : Bytes)
    → matches_from b (b'/' ∷ sub) (b'/' ∷ topic) ≡ matches_from true sub topic
unfolding matches_from matches_levels first_level more_levels bytes_eq
from_slash true sub topic = rw (levels_lem (b'/' ∷ sub), levels_lem (b'/' ∷ topic)) refl
from_slash false sub topic = refl

from_other :
    (b : Bool) (c : ℕ) (sub topic : Bytes)
    → is_wildcard c ≡ false
    → (c == b'/') ≡ false
    → matches_from b (c ∷ sub) (c ∷ topic) ≡ matches_from false sub topic
unfolding matches_from matches_levels first_level more_levels bytes_eq
from_other true c sub topic w n = rw (levels_lem (c ∷ sub), levels_lem (c ∷ topic)) (ground arith)
from_other false c sub topic w n = ground arith

-- A character that is no wildcard takes part in the match as it is.
pub from_same :
    (b : Bool) (c : ℕ) (sub topic : Bytes)
    → is_wildcard c ≡ false
    → matches_from b (c ∷ sub) (c ∷ topic) ≡ matches_from (c == b'/') sub topic
from_same b c sub topic w = elim (Bool-cases (c == b'/')) [
  | inl e ↦ rw ((==_iff c b'/').0 e) (from_slash b sub topic)
  | inr n ↦ rw n (from_other b c sub topic w n)
]

-- What is behind a level begins with a slash or is nothing.
pub skip_level_lem :
    (topic rest : Bytes)
    → skip_level topic ≡ some rest
    → (first_level rest ≡ []) × (more_levels rest ≡ more_levels topic)
unfolding skip_level first_level more_levels
skip_level_lem [] rest e = ground arith
skip_level_lem (c ∷ topic) rest e = ground (arith, skip_level_lem topic rest)

first_level-empty : (s : Bytes) → IsText s → bad_after (char_at s) ≡ false → first_level s ≡ []
unfolding first_level
first_level-empty [] h b = refl
first_level-empty (c ∷ s) h b = ground arith

-- A wildcard `+` takes the level of the topic.
pub from_plus :
    (sub topic rest : Bytes)
    → IsText sub
    → bad_after (char_at sub) ≡ false
    → skip_level topic ≡ some rest
    → matches_from true (b'+' ∷ sub) topic ≡ matches_from false sub rest
unfolding matches_from matches_levels first_level bytes_eq more_levels
from_plus sub topic rest h b e =
    let (f, g) = skip_level_lem topic rest e in
    rw (levels_lem (b'+' ∷ sub), levels_lem topic) rw (first_level-empty sub h b, f, g) refl

-- Two different characters.
pub from_mismatch :
    (b : Bool) (c t : ℕ) (sub topic : Bytes)
    → (c == t) ≡ false
    → is_wildcard c ≡ false
    → matches_from b (c ∷ sub) (t ∷ topic) ≡ false
unfolding matches_from matches_levels first_level bytes_eq more_levels
from_mismatch true c t sub topic n w =
    rw (levels_lem (c ∷ sub), levels_lem (t ∷ topic)) (ground arith)
from_mismatch false c t sub topic n w = ground arith

pub from_hash : (topic : Bytes) → matches_from true (b'#' ∷ []) topic ≡ true
unfolding matches_from matches_levels first_level bytes_eq more_levels
from_hash topic = rw (levels_lem (b'#' ∷ []), levels_lem topic) refl

-- Nothing is left of the filter, or nothing of the topic.
pub from_no_filter : (b : Bool) (t : ℕ) (topic : Bytes) → matches_from b [] (t ∷ topic) ≡ false
unfolding matches_from matches_levels first_level bytes_eq more_levels levels add_front
from_no_filter true t topic = ground (arith, levels_lem topic)
from_no_filter false t topic = ground (arith, levels_lem topic)

pub from_nothing : (b : Bool) → matches_from b [] [] ≡ true
unfolding matches_from matches_levels first_level bytes_eq more_levels levels
from_nothing true = refl
from_nothing false = refl

pub from_no_topic :
    (b : Bool) (c : ℕ) (sub : Bytes)
    → is_wildcard c ≡ false
    → matches_from b (c ∷ sub) [] ≡ (c == b'/') && bytes_eq (first_level sub) hash
unfolding matches_from matches_levels first_level bytes_eq more_levels levels
from_no_topic true c sub w = rw (levels_lem (c ∷ sub)) (ground (arith, levels_lem sub))
from_no_topic false c sub w = ground (arith, levels_lem sub)
