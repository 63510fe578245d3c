-- ===== src/Subs/Tokens.antt =====
-- `sub__topic_tokenise` of src/topic_tok.c: a topic or filter is cut into its levels, and the group
-- of a shared subscription is taken from it.
use adaptive_mqtt_transmit_p.Common.{
  Option-cases, false, inl, inr, ℕ, suc, zero, ◌+◌, ◌≤◌, ◌<◌, Option, none, some, List, [], ◌∷◌,
  ◌++◌, ltb, ◌==◌, if◌then◌else◌, ◌≡◌, ◌≢◌, refl, ap, ◌∙◌, arith, length, drop,
}
use adaptive_mqtt_transmit_p.Common.Bytes.{Bytes, bytes_eq, bytes_eq_refl}
use adaptive_mqtt_transmit_p.Broker.Types.{Rc, inval, protocol}
use adaptive_mqtt_transmit_p.Topic.{char_at, is_empty, tail_of}
use adaptive_mqtt_transmit_p.Topic.Levels.{levels, first_level, more_levels, levels_lem, add_front}

-- What is behind the first slash, `none` if there is no slash: `strchr(s, '/') + 1`.
unfoldable pub behind_slash : Bytes → Option Bytes
behind_slash [] = none
behind_slash (c ∷ s) = if c == b'/' then some s else behind_slash s

-- `strtok_hier`: the next token and the new `*saveptr`. The 0 that the source writes over the slash
-- ends the token.
abbrev pub strtok_hier : Bytes → Bytes × Option Bytes
strtok_hier s = (first_level s, behind_slash s)

-- `while(token)`, on fuel: the tokens from `saveptr` on.
unfoldable pub token_loop : ℕ → Option Bytes → List Bytes
token_loop zero saveptr = []
token_loop (suc fuel) none = []
token_loop (suc fuel) (some s) =
    let (token, saveptr) = strtok_hier s in token ∷ token_loop fuel saveptr

-- The rounds of `while(saveptr)`, each of which searches a slash from `&saveptr[1]` on.
unfoldable pub count_slashes : Bytes → ℕ
count_slashes [] = 0
count_slashes (c ∷ s) = if c == b'/' then suc (count_slashes s) else count_slashes s

unfoldable pub count_tokens : Bytes → ℕ
count_tokens s = suc (count_slashes (tail_of s))

-- `$share`
abbrev pub share : Bytes
share = b'$' ∷ b's' ∷ b'h' ∷ b'a' ∷ b'r' ∷ b'e' ∷ []

pub data Tokens : Type 0 where
  failed : Rc → Tokens
  tokens : List Bytes → Option Bytes → Tokens

abbrev pub second : List Bytes → Option Bytes
second (a ∷ b ∷ l) = some b
second _ = none

-- A topic that does not begin with `$` has an empty level before it.
unfoldable pub topic_array : Bytes → List Bytes
topic_array s =
    let l = token_loop (suc (length s)) (some s) in if char_at s == b'$' then l else [] ∷ l

abbrev pub head_of : List Bytes → Bytes
head_of [] = []
head_of (l ∷ ls) = l

-- The part behind the loop. The shift to the left writes the array from 1 to `count - 1`.
unfoldable pub take_share : ℕ → List Bytes → Tokens
take_share count topics =
    if bytes_eq (head_of topics) share
    then (if ltb count 2 then failed protocol else tokens ([] ∷ drop 2 topics) (second topics))
    else tokens topics none

unfoldable pub topic_tokenise : Bytes → Tokens
topic_tokenise s = if is_empty s then failed inval else take_share (count_tokens s) (topic_array s)

more_levels-behind :
    (s : Bytes)
    → more_levels s ≡ elim (behind_slash s) as (λ _. List Bytes) [ none ↦ [] | some t ↦ levels t ]
unfolding more_levels behind_slash
more_levels-behind [] = refl
more_levels-behind (c ∷ s) = ground (arith, more_levels-behind s)

length-behind : (s t : Bytes) → behind_slash s ≡ some t → length t < length s
unfolding behind_slash
length-behind [] t h = cc
length-behind (c ∷ s) t h = ground (arith, length-behind s t)

token_loop-none : (fuel : ℕ) → token_loop fuel none ≡ []
unfolding token_loop
token_loop-none zero = refl
token_loop-none (suc fuel) = refl

-- The fuel is enough: the loop yields the levels.
pub token_loop-levels :
    (fuel : ℕ) (s : Bytes) → length s < fuel → token_loop fuel (some s) ≡ levels s
unfolding token_loop
token_loop-levels zero s h = absurd (omega arith)
token_loop-levels (suc fuel) s h =
    rw (levels_lem s) rw (more_levels-behind s) elim (Option-cases (behind_slash s)) [
      | inl e ↦ rw e (rw (token_loop-none fuel) refl)
      | inr (t, e) ↦ rw e (rw (token_loop-levels fuel t (omega (arith, length-behind s t e))) refl)
    ]

length-levels : (s : Bytes) → length (levels s) ≡ suc (count_slashes s)
unfolding levels add_front count_slashes
length-levels [] = refl
length-levels (c ∷ s) = ground (arith, length-levels s, levels_lem s)

topic_array_lem :
    (s : Bytes) → topic_array s ≡ (if char_at s == b'$' then levels s else [] ∷ levels s)
unfolding topic_array
topic_array_lem s = rw (token_loop-levels (suc (length s)) s (omega arith)) refl

-- The array that is allocated, of three more than the counted tokens, holds the tokens, the empty
-- level before them and the null pointer at their end.
pub topic_array-fits : (s : Bytes) → s ≢ [] → length (topic_array s) + 1 ≤ count_tokens s + 3
unfolding count_tokens count_slashes
topic_array-fits [] h = absurd (h refl)
topic_array-fits (c ∷ s) h = rw (topic_array_lem (c ∷ s)) ground (arith, length-levels (c ∷ s))

take_share-none :
    (n : ℕ) (l : List Bytes) → bytes_eq (head_of l) share ≡ false → take_share n l ≡ tokens l none
unfolding take_share
take_share-none n l e = rw e refl

not_share : bytes_eq [] share ≡ false
unfolding bytes_eq
not_share = refl

take_share-some :
    (n : ℕ) (group : Bytes) (ls : List Bytes)
    → 2 ≤ n
    → take_share n (share ∷ group ∷ ls) ≡ tokens ([] ∷ ls) (some group)
unfolding take_share
take_share-some n group ls h = rw (bytes_eq_refl share) ground arith

-- The first token is the first level, or the empty one.
head-topic_array :
    (s : Bytes)
    → head_of (if char_at s == b'$' then levels s else [] ∷ levels s)
      ≡ (if char_at s == b'$' then first_level s else [])
head-topic_array s = ground (arith, levels_lem s)

levels-cut : (a b : Bytes) → behind_slash a ≡ none → levels (a ++ b'/' ∷ b) ≡ a ∷ levels b
unfolding levels add_front behind_slash
levels-cut [] b h = refl
levels-cut (c ∷ a) b h = ground (arith, levels-cut a b)

share_no_slash : behind_slash share ≡ none
unfolding behind_slash
share_no_slash = refl

count_tokens_two :
    (group filter : Bytes) → 2 ≤ count_tokens (share ++ b'/' ∷ group ++ b'/' ∷ filter)
unfolding count_tokens count_slashes
count_tokens_two group filter = omega arith

-- A topic that does not begin with `$` is cut into its levels behind an empty one; one that does,
-- and whose first level is not `$share`, into its levels.
pub topic_tokenise-levels :
    (s : Bytes)
    → s ≢ []
    → bytes_eq (first_level s) share ≡ false
    → topic_tokenise s ≡ tokens (if char_at s == b'$' then levels s else [] ∷ levels s) none
unfolding topic_tokenise
topic_tokenise-levels [] h n = absurd (h refl)
topic_tokenise-levels (c ∷ s) h n = rw (topic_array_lem (c ∷ s)) (
    take_share-none (count_tokens (c ∷ s)) _
      (rw (head-topic_array (c ∷ s)) (ground (arith, not_share, n))))

-- A shared subscription `$share/group/filter` is cut into the levels of the filter behind an empty one and the group,
-- and without a slash behind `$share` it is refused.
pub topic_tokenise-share :
    (group filter : Bytes)
    → behind_slash group ≡ none
    → topic_tokenise (share ++ b'/' ∷ group ++ b'/' ∷ filter)
      ≡ tokens ([] ∷ levels filter) (some group)
unfolding topic_tokenise
topic_tokenise-share group filter h =
    let text = share ++ b'/' ∷ group ++ b'/' ∷ filter in
    let e : levels text ≡ share ∷ group ∷ levels filter =
      levels-cut share (group ++ b'/' ∷ filter) share_no_slash
      ∙ ap (λ l. share ∷ l) (levels-cut group filter h) in
    rw (topic_array_lem text) rw e
      (take_share-some (count_tokens text) group (levels filter) (count_tokens_two group filter))
