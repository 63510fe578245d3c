-- ===== src/Retain/Lookup.antt =====
-- What `retain__store` has stored is found at its topic, and nothing else changes.
use adaptive_mqtt_transmit_p.Common.{
  ◌≡◌, ◌≢◌, refl, sym, ap, ◌∙◌, ◌≤◌, ◌%◌, ◌^◌, if◌then◌else◌, false, Option, none, some, List, [],
  ◌∷◌, arith, Bool-cases, Option-cases, inl, inr, length, take,
}
use adaptive_mqtt_transmit_p.Common.Bytes.{Bytes, bytes_eq, bytes_eq_iff, bytes_eq_refl}
use adaptive_mqtt_transmit_p.Broker.Types.{Db, Stored}
use adaptive_mqtt_transmit_p.Subs.Tokens.{head_of}
use adaptive_mqtt_transmit_p.Subs.Add.Weight.{AreShort}
use adaptive_mqtt_transmit_p.Retain.{
  RetainHier, RetainHiers, retain_node, no_branch, branch, branches_of, new_retain, retain_key,
  find_branch, set_branch, add_branch, Retains, retained_at, set_retained, retained_message,
  retain_store,
}

find-set_same :
    (t : Bytes) (b b' : RetainHier) (bs : RetainHiers)
    → find_branch t bs ≡ some b
    → find_branch t (set_branch t b' bs) ≡ some b'
unfolding find_branch set_branch
find-set_same t b b' no_branch e = cc
find-set_same t b b' (branch f c bs) e = ground (arith, find-set_same t b b' bs)

find-set_other :
    (t u : Bytes) (b' : RetainHier) (bs : RetainHiers)
    → bytes_eq t u ≡ false
    → find_branch u (set_branch t b' bs) ≡ find_branch u bs
unfolding find_branch set_branch
find-set_other t u b' no_branch n = refl
find-set_other t u b' (branch f c bs) n = elim (Bool-cases (bytes_eq f t)) [
  | inl same ↦ rw (same, (bytes_eq_iff f t).0 same, n) refl
  | inr m ↦ rw m (ap (λ r. if bytes_eq f u then some c else r) (find-set_other t u b' bs n))
]

find-add_same :
    (t : Bytes) (b' : RetainHier) (bs : RetainHiers)
    → find_branch t bs ≡ none
    → find_branch t (add_branch t b' bs) ≡ some b'
unfolding find_branch add_branch
find-add_same t b' no_branch e = rw (bytes_eq_refl t) refl
find-add_same t b' (branch f c bs) e = ground (arith, find-add_same t b' bs)

find-add_other :
    (t u : Bytes) (b' : RetainHier) (bs : RetainHiers)
    → bytes_eq t u ≡ false
    → find_branch u (add_branch t b' bs) ≡ find_branch u bs
unfolding find_branch add_branch
find-add_other t u b' no_branch n = rw n refl
find-add_other t u b' (branch f c bs) n =
    ap (λ r. if bytes_eq f u then some c else r) (find-add_other t u b' bs n)

take-length {ℓ} : {A : Type ℓ} (xs : List A) → take (length xs) xs ≡ xs
take-length {A = A} [] = refl
take-length {A = A} (x ∷ xs) = ap {B = List A} (λ ys. x ∷ ys) (take-length xs)

cong_cons : {t u : Bytes} {ts us : List Bytes} → t ≡ u → ts ≡ us → t ∷ ts ≡ u ∷ us
cong_cons p q = cc

short_key : (t : Bytes) → length t ≤ 65535 → retain_key t ≡ t
short_key t h = let e : length t % 2 ^ 16 ≡ length t = omega (arith, h) in rw e (take-length t)

module _ (r : Option Stored) where
  set_retained-missing :
      (t : Bytes) (ts : List Bytes) (bs : RetainHiers) (x : Option Stored)
      → length t ≤ 65535
      → find_branch t bs ≡ none
      → set_retained r (t ∷ ts) (retain_node bs x)
        ≡ retain_node (add_branch t (set_retained r ts new_retain) bs) x
  unfolding set_retained
  set_retained-missing t ts bs x h e = rw (set_retained, e, short_key t h) refl

  set_retained-found :
      (t : Bytes) (ts : List Bytes) (bs : RetainHiers) (b : RetainHier) (x : Option Stored)
      → find_branch t bs ≡ some b
      → set_retained r (t ∷ ts) (retain_node bs x)
        ≡ retain_node (set_branch t (set_retained r ts b) bs) x
  unfolding set_retained
  set_retained-found t ts bs b x e = rw (set_retained, e) refl

  retained_at-same :
      (ts : List Bytes) (n : RetainHier) → AreShort ts → retained_at ts (set_retained r ts n) ≡ r
  unfolding retained_at set_retained
  retained_at-same [] n h = refl
  retained_at-same (t ∷ ts) (retain_node bs x) h = elim (Option-cases (find_branch t bs)) [
    | inl e ↦ rw (set_retained-missing t ts bs x h.0 e) (
        rw (retained_at, find-add_same t (set_retained r ts new_retain) bs e)
          (retained_at-same ts new_retain h.1))
    | inr (b, e) ↦
        rw (set_retained-found t ts bs b x e) (
          rw (retained_at, find-set_same t b (set_retained r ts b) bs e)
            (retained_at-same ts b h.1))
  ]

  at_new : (us : List Bytes) → retained_at us new_retain ≡ none
  unfolding retained_at find_branch
  at_new [] = refl
  at_new (u ∷ us) = refl

  retained_at-other :
      (ts us : List Bytes) (n : RetainHier)
      → AreShort ts
      → us ≢ ts
      → retained_at us (set_retained r ts n) ≡ retained_at us n
  unfolding retained_at set_retained
  retained_at-other [] [] n h d = ground (arith, d refl)
  retained_at-other [] (u ∷ us) (retain_node bs x) h d = refl
  retained_at-other (t ∷ ts) [] (retain_node bs x) h d = elim (Option-cases (find_branch t bs)) [
    | inl e ↦ rw (set_retained-missing t ts bs x h.0 e) refl
    | inr (b, e) ↦ rw (set_retained-found t ts bs b x e) refl
  ]
  retained_at-other (t ∷ ts) (u ∷ us) (retain_node bs x) h d = elim (Bool-cases (bytes_eq t u)) [
    | inr n ↦ elim (Option-cases (find_branch t bs)) [
      | inl e ↦
          rw (set_retained-missing t ts bs x h.0 e)
            (rw (retained_at, find-add_other t u (set_retained r ts new_retain) bs n) refl)
      | inr (b, e) ↦
          rw (set_retained-found t ts bs b x e)
            (rw (retained_at, find-set_other t u (set_retained r ts b) bs n) refl)
    ]
    | inl same ↦
        let q : t ≡ u = (bytes_eq_iff t u).0 same in
        let d' : us ≢ ts = λ k. d (cong_cons (sym q) k) in
        rw (sym q) (elim (Option-cases (find_branch t bs)) [
          | inl e ↦ rw (set_retained-missing t ts bs x h.0 e) (
              rw (retained_at, find-add_same t (set_retained r ts new_retain) bs e, e)
                (retained_at-other ts us new_retain h.1 d' ∙ at_new us))
          | inr (b, e) ↦ rw (set_retained-found t ts bs b x e) (
              rw (retained_at, find-set_same t b (set_retained r ts b) bs e, e)
                (retained_at-other ts us b h.1 d'))
        ])
  ]

  -- Below the root, which has no message.
  root_kept :
      (t : Bytes) (ts : List Bytes) (bs : RetainHiers)
      → length t ≤ 65535
      → retain_node (branches_of (set_retained r (t ∷ ts) (retain_node bs none))) none
        ≡ set_retained r (t ∷ ts) (retain_node bs none)
  root_kept t ts bs h = elim (Option-cases (find_branch t bs)) [
    | inl e ↦ rw (set_retained-missing t ts bs none h e) refl
    | inr (b, e) ↦ rw (set_retained-found t ts bs b none e) refl
  ]

-- After `retain__store` the topic has the message, or none if its payload is empty, and every other
-- path has the message that it had; for levels of at most 65535 bytes.
pub retain_store-retained_at :
    (topic : Bytes) (stored : Stored) (topics : List Bytes) (r : Retains) (db : Db)
    → AreShort (head_of topics ∷ topics)
    → let path = head_of topics ∷ topics in
      let after = retain_node (retain_store topic stored topics r db).0.hiers none in
      (retained_at path after ≡ retained_message stored)
      × ((other : List Bytes)
          → other ≢ path
          → retained_at other after ≡ retained_at other (retain_node r.hiers none))
unfolding retain_store
retain_store-retained_at topic stored topics r db h =
    let m = retained_message stored in
    let path = head_of topics ∷ topics in
    let root = retain_node r.hiers none in
    rw (root_kept m (head_of topics) topics r.hiers h.0)
      (retained_at-same m path root h, λ other d. retained_at-other m path other root h d)
