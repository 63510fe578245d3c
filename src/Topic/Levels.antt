-- ===== src/Topic/Levels.antt =====
-- The levels of a topic or a filter, and when a filter matches a topic, as the comment at the top
-- of src/subs.c describes it.
use adaptive_mqtt_transmit_p.Common.{
  ℕ, Bool, true, false, List, [], ◌∷◌, ◌==◌, if◌then◌else◌, ◌&&◌, ◌||◌, ◌≡◌, refl, arith, ◌<◌, All,
}
use adaptive_mqtt_transmit_p.Common.Bytes.{Bytes, bytes_eq}
use adaptive_mqtt_transmit_p.Topic.{char_at}

-- A character at the front of the first level.
unfoldable pub add_front : ℕ → List Bytes → List Bytes
add_front c [] = (c ∷ []) ∷ []
add_front c (l ∷ ls) = (c ∷ l) ∷ ls

-- The text between the slashes.
unfoldable pub levels : Bytes → List Bytes
unfolding add_front
levels [] = [] ∷ []
levels (c ∷ s) = if c == b'/' then [] ∷ levels s else add_front c (levels s)

abbrev pub plus : Bytes
plus = b'+' ∷ []

abbrev pub hash : Bytes
hash = b'#' ∷ []

-- `#` stands for any number of levels, `+` for one, any other level for itself.
unfoldable pub matches_levels : List Bytes → List Bytes → Bool
matches_levels [] [] = true
matches_levels [] (t ∷ ts) = false
matches_levels (f ∷ fs) [] = bytes_eq f hash
matches_levels (f ∷ fs) (t ∷ ts) =
    bytes_eq f hash || ((bytes_eq f plus || bytes_eq f t) && matches_levels fs ts)

-- A wildcard at the first level does not stand for a level that begins with `$`.
unfoldable pub matches_spec : Bytes → Bytes → Bool
matches_spec sub topic =
    if char_at topic == b'$' && (char_at sub == b'+' || char_at sub == b'#')
    then false
    else matches_levels (levels sub) (levels topic)

-- The first level and the rest, by recursion on the text.
unfoldable pub first_level : Bytes → Bytes
first_level [] = []
first_level (c ∷ s) = if c == b'/' then [] else c ∷ first_level s

unfoldable pub more_levels : Bytes → List Bytes
more_levels [] = []
more_levels (c ∷ s) = if c == b'/' then levels s else more_levels s

pub levels_lem : (s : Bytes) → levels s ≡ first_level s ∷ more_levels s
unfolding levels first_level more_levels
levels_lem [] = refl
levels_lem (c ∷ s) = ground (arith, levels_lem s)

-- A string of C: no byte is 0.
abbrev pub IsText : Bytes → Type 0
IsText s = All (λ c. 0 < c) s
