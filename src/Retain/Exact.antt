-- ===== src/Retain/Exact.antt =====
-- The search of the retained messages for a filter without wildcards.
use adaptive_mqtt_transmit_p.Common.{
  ℕ, ◌≡◌, refl, sym, ap, ◌∙◌, ◌+◌, Bool, true, false, Option, none, some, List, [], ◌∷◌, arith,
  Option-cases, inl, inr, All,
}
use adaptive_mqtt_transmit_p.Common.Bytes.{Bytes, bytes_eq}
use adaptive_mqtt_transmit_p.Broker.Types.{Stored, Db}
use adaptive_mqtt_transmit_p.Subs.Add.Weight.{AreShort}
use adaptive_mqtt_transmit_p.Retain.Lookup.{retain_store-retained_at}
use adaptive_mqtt_transmit_p.Subs.Search.{plus_level, hash_level}
use adaptive_mqtt_transmit_p.Subs.Search.Weight.{is_plain}
use adaptive_mqtt_transmit_p.Retain.{
  RetainHier, retain_node, branches_of, retained_of, find_branch, retained_at, Retains,
  retain_store, retained_message,
}
use adaptive_mqtt_transmit_p.Retain.Search.{process_message, process_node, visit, retain_search}

plain_not_hash : (t : Bytes) → is_plain t ≡ true → bytes_eq t hash_level ≡ false
plain_not_hash t h = ground arith

plain_not_plus : (t : Bytes) → is_plain t ≡ true → bytes_eq t plus_level ≡ false
plain_not_plus t h = ground arith

retained_at-found :
    (t : Bytes) (us : List Bytes) (m n : RetainHier)
    → find_branch t (branches_of m) ≡ some n
    → retained_at (t ∷ us) m ≡ retained_at us n
unfolding retained_at
retained_at-found t us m n e = rw (retained_at, e) refl

module _ {S : Type 0} (process : Stored → S → Option Stored × S) where
  -- The state behind the search and its flag.
  abbrev Served : RetainHier × S × Bool → Option Stored → S → Type 0
  Served x r s = (x.1 ≡ (process_message process r s).1) × (x.2 ≡ false)

  process_node-message :
      (b : RetainHier) (s : S)
      → (process_node process b s).1 ≡ (process_message process (retained_of b) s).1
  process_node-message (retain_node bs r) s = refl

  visit_plain :
      (topics : List Bytes) (below : RetainHier → S → RetainHier × S × Bool) (level : ℕ)
      (b : RetainHier) (s : S)
      → All (λ t. is_plain t ≡ true) topics
      → ((t : Bytes) (us : List Bytes)
          → topics ≡ t ∷ us
          → Served (below b s) (retained_at topics b) s)
      → (visit process topics below level b s).1
        ≡ (process_message process (retained_at topics b) s).1
  unfolding visit retained_at
  visit_plain [] below level b s h k = process_node-message b s
  visit_plain (t ∷ topics) below level b s h k =
      let served = k t topics refl in rw (visit, served.1, plain_not_hash t h.0) served.0

  search_step :
      (t : Bytes) (topics : List Bytes) (level : ℕ) (n : RetainHier) (s : S)
      → is_plain t ≡ true
      → ((b : RetainHier)
          → (visit process topics (retain_search process topics (level + 1)) level b s).1
            ≡ (process_message process (retained_at topics b) s).1)
      → Served (retain_search process (t ∷ topics) level n s) (retained_at (t ∷ topics) n) s
  unfolding retain_search retained_at
  search_step t topics level n s h k = elim (Option-cases (find_branch t (branches_of n))) [
    | inl e ↦
        rw (retain_search, plain_not_hash t h, plain_not_plus t h, retained_at, e) (refl, refl)
    | inr (b, e) ↦
        rw (retain_search, plain_not_hash t h, plain_not_plus t h, retained_at, e) (k b, refl)
  ]

  -- For a filter without wildcards `retain__search` gives the subscriber the message that is retained
  -- at this topic, once, if there is one, and nothing else.
  pub retain_search-exact :
      (t : Bytes) (topics : List Bytes) (level : ℕ) (n : RetainHier) (s : S)
      → All (λ l. is_plain l ≡ true) (t ∷ topics)
      → Served (retain_search process (t ∷ topics) level n s) (retained_at (t ∷ topics) n) s
  retain_search-exact t [] level n s h =
      search_step t [] level n s h.0 (λ b. visit_plain [] _ level b s h.1 (λ u us e. (cc, cc)))
  retain_search-exact t (u ∷ us) level n s h = search_step t (u ∷ us) level n s h.0 (λ b.
      visit_plain (u ∷ us) (retain_search process (u ∷ us) (level + 1)) level b s h.1
        (λ v vs e. retain_search-exact u us (level + 1) b s h.1))

  -- After `retain__store` the search for the topic itself, a topic without wildcards and with levels
  -- of at most 65535 bytes, gives a subscriber the new message and nothing else, and nothing at all
  -- if the payload was empty.
  pub retain_search-retain_store :
      (topic : Bytes) (stored : Stored) (t : Bytes) (topics : List Bytes) (r : Retains) (db : Db)
      (n : RetainHier) (s : S)
      → All (λ l. is_plain l ≡ true) (t ∷ topics)
      → AreShort (t ∷ t ∷ topics)
      → find_branch t (retain_store topic stored (t ∷ topics) r db).0.hiers ≡ some n
      → (retain_search process (t ∷ topics) 0 n s).1
        ≡ (process_message process (retained_message stored) s).1
  retain_search-retain_store topic stored t topics r db n s h short e =
      let after = retain_node (retain_store topic stored (t ∷ topics) r db).0.hiers none in
      let stored_there = (retain_store-retained_at topic stored (t ∷ topics) r db short).0 in
      let at_root : retained_at (t ∷ topics) n ≡ retained_message stored =
        sym (retained_at-found t (t ∷ topics) after n e) ∙ stored_there in
      (retain_search-exact t topics 0 n s h).0 ∙ ap (λ m. (process_message process m s).1) at_root
