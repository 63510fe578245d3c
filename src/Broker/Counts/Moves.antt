-- ===== src/Broker/Counts/Moves.antt =====
-- The moves between the lists change neither the counters nor what the lists hold together.
use adaptive_mqtt_transmit_p.Common.{
  ℕ, ◌+◌, ◌≡◌, refl, ◌∙◌, ap, sym, not, ◌&&◌, inl, inr, List, [], ◌∷◌, ◌++◌, arith, Bool-cases, leb,
  ◌==◌,
}
use mathlib.Core.List.{append_assoc}
use adaptive_mqtt_transmit_p.Common.Int.{pos, +ℤ_parts, -ℤ_parts}
use adaptive_mqtt_transmit_p.Broker.Types.{ClientMsg, MsgData, Config, Clock, TransferMode}
use adaptive_mqtt_transmit_p.Broker.Queues.{
  to_publish, dequeue_first, destorage_first, Target, to_queue, to_inflight, uncount, count_msg,
  quota_used_up,
}
use adaptive_mqtt_transmit_p.Broker.Delivery.{queued_loop}
use adaptive_mqtt_transmit_p.Broker.Ack.{release_loop}
use adaptive_mqtt_transmit_p.Broker.Withhold.{storage_loop, tail, is_due}
use adaptive_mqtt_transmit_p.Broker.Counts.{
  Measure, messages, bytes, messages12, bytes12, amount, counter, sum_of, total, Shift,
}

pub sum_of-append :
    (k : Measure) (xs ys : List ClientMsg) → sum_of k (xs ++ ys) ≡ sum_of k xs + sum_of k ys
sum_of-append k [] ys = omega arith
sum_of-append k (x ∷ xs) ys = omega (arith, sum_of-append k xs ys)

pub counter-uncount :
    (k : Measure) (m : ClientMsg) (d : MsgData)
    → Shift (counter k (uncount m d)) (amount k m.qos m.store.payloadlen) (counter k d) 0
unfolding uncount
counter-uncount messages m d = omega (arith, -ℤ_parts)
counter-uncount bytes m d = omega (arith, -ℤ_parts)
counter-uncount messages12 m d = ground (arith, -ℤ_parts d.msg_count12 (pos 1))
counter-uncount bytes12 m d = ground (arith, -ℤ_parts d.msg_bytes12 (pos m.store.payloadlen))

pub counter-count_msg :
    (k : Measure) (qos size : ℕ) (d : MsgData)
    → Shift (counter k (count_msg qos size d)) 0 (counter k d) (amount k qos size)
unfolding count_msg
counter-count_msg messages qos size d = omega (arith, +ℤ_parts)
counter-count_msg bytes qos size d = omega (arith, +ℤ_parts)
counter-count_msg messages12 qos size d = ground (arith, +ℤ_parts d.msg_count12 (pos 1))
counter-count_msg bytes12 qos size d = ground (arith, +ℤ_parts d.msg_bytes12 (pos size))

pub append-cons :
    (xs : List ClientMsg) (m : ClientMsg) (ys : List ClientMsg)
    → xs ++ m ∷ ys ≡ (xs ++ m ∷ []) ++ ys
append-cons xs m ys = sym (append_assoc xs (m ∷ []) ys)

-- The counters are the same, and the lists hold as much.
pub record Keeps (k : Measure) (d e : MsgData) : Type 0 where
  pub same_counter : counter k e ≡ counter k d
  pub same_total : total k e ≡ total k d

Keeps-refl : (k : Measure) (d : MsgData) → Keeps k d d
Keeps-refl k d = record { same_counter = refl; same_total = refl }

Keeps-trans : {k : Measure} {d e f : MsgData} → Keeps k d e → Keeps k e f → Keeps k d f
Keeps-trans p q = record {
  same_counter = q.same_counter ∙ p.same_counter;
  same_total = q.same_total ∙ p.same_total;
}

-- Two records with the same four counters.
pub counter-same :
    (k : Measure) (d e : MsgData)
    → e.msg_count ≡ d.msg_count
    → e.msg_bytes ≡ d.msg_bytes
    → e.msg_count12 ≡ d.msg_count12
    → e.msg_bytes12 ≡ d.msg_bytes12
    → counter k e ≡ counter k d
counter-same messages d e p q r s = p
counter-same bytes d e p q r s = q
counter-same messages12 d e p q r s = r
counter-same bytes12 d e p q r s = s

abbrev pub weight : Measure → ClientMsg → ℕ
weight k m = amount k m.qos m.store.payloadlen

-- The message `m` at the head of `queued` moves up, perhaps changed to `m'`.
dequeue_first-Keeps :
    (k : Measure) (d : MsgData) (m m' : ClientMsg) (rest : List ClientMsg)
    → weight k m' ≡ weight k m
    → Keeps k (record d { queued = m ∷ rest }) (dequeue_first (record d { queued = m' ∷ rest }))
unfolding dequeue_first
dequeue_first-Keeps k d m m' rest e = record {
  same_counter = counter-same k _ _ refl refl refl refl;
  same_total = omega (arith, e, sum_of-append k d.inflight (m' ∷ []));
}

pub queued_loop-Keeps :
    (k : Measure) (d : MsgData) (todo : List ClientMsg)
    → let d' = record d { queued = todo } in Keeps k d' (queued_loop d' todo)
unfolding queued_loop
queued_loop-Keeps k d [] = Keeps-refl k _
queued_loop-Keeps k d (m ∷ rest) = elim (Bool-cases (quota_used_up d)) [
  | inl used ↦ rw used (Keeps-refl k _)
  | inr free ↦ rw free (
      Keeps-trans (dequeue_first-Keeps k d m (to_publish m) rest refl)
        (queued_loop-Keeps k (dequeue_first (record d { queued = to_publish m ∷ rest })) rest))
]

pub release_loop-Keeps :
    (k : Measure) (now i : ℕ) (d : MsgData) (todo : List ClientMsg)
    → let d' = record d { queued = todo } in Keeps k d' (release_loop now i d' todo)
unfolding release_loop
release_loop-Keeps k now i d [] = Keeps-refl k _
release_loop-Keeps k now i d (m ∷ rest) =
    elim (Bool-cases (not (d.inflight_maximum == 0) && leb d.inflight_maximum i)) [
      | inl full ↦ rw full (Keeps-refl k _)
      | inr room ↦
          let m' = record (to_publish m) { timestamp = now } in
          rw room (
            Keeps-trans (dequeue_first-Keeps k d m m' rest refl) (
              release_loop-Keeps k now (i + 1) (dequeue_first (record d { queued = m' ∷ rest }))
                rest))
    ]

destorage_first-Keeps_list :
    (k : Measure) (d : MsgData) (xs : List ClientMsg) (t : Target)
    → let d' = record d { storage = xs } in Keeps k d' (destorage_first d' t)
unfolding destorage_first
destorage_first-Keeps_list k d [] t = Keeps-refl k _
destorage_first-Keeps_list k d (x ∷ xs) to_queue = record {
  same_counter = counter-same k _ _ refl refl refl refl;
  same_total = omega (arith, sum_of-append k d.queued (x ∷ []));
}
destorage_first-Keeps_list k d (x ∷ xs) to_inflight = record {
  same_counter = counter-same k _ _ refl refl refl refl;
  same_total = omega (arith, sum_of-append k d.inflight (x ∷ []));
}

-- The head of `storage` leaves it.
destorage_first-Keeps : (k : Measure) (d : MsgData) (t : Target) → Keeps k d (destorage_first d t)
destorage_first-Keeps k d t = destorage_first-Keeps_list k d d.storage t

storage-destorage_first_list :
    (d : MsgData) (xs : List ClientMsg) (t : Target)
    → (destorage_first (record d { storage = xs }) t).storage ≡ tail xs
unfolding destorage_first
storage-destorage_first_list d [] t = refl
storage-destorage_first_list d (x ∷ xs) to_queue = refl
storage-destorage_first_list d (x ∷ xs) to_inflight = refl

pub storage-destorage_first :
    (d : MsgData) (t : Target) → (destorage_first d t).storage ≡ tail d.storage
storage-destorage_first d t = storage-destorage_first_list d d.storage t

pub tail-append :
    (passed : List ClientMsg) (m : ClientMsg) (rest : List ClientMsg)
    → tail (passed ++ m ∷ rest) ≡ tail (passed ++ m ∷ []) ++ rest
tail-append [] m rest = refl
tail-append (p ∷ ps) m rest = append-cons ps m rest

-- A message on the way may have been changed, but not in its QoS and size.
storage-Keeps :
    (k : Measure) (d : MsgData) (passed rest : List ClientMsg) (m m' : ClientMsg)
    → weight k m' ≡ weight k m
    → d.storage ≡ passed ++ m ∷ rest
    → Keeps k d (record d { storage = (passed ++ m' ∷ []) ++ rest })
storage-Keeps k d passed rest m m' h e = record {
  same_counter = counter-same k _ _ refl refl refl refl;
  same_total = omega (
    arith,
    h,
    ap (sum_of k) e,
    sum_of-append k passed (m ∷ rest),
    sum_of-append k passed (m' ∷ []),
    sum_of-append k (passed ++ m' ∷ []) rest,
  );
}

module _ (k : Measure) (cfg : Config) (clk : Clock) (mode : TransferMode) where
  pub storage_loop-Keeps :
      (d : MsgData) (passed todo : List ClientMsg)
      → d.storage ≡ passed ++ todo
      → Keeps k d (storage_loop cfg clk mode d passed todo)
  unfolding storage_loop
  storage_loop-Keeps d passed [] e = Keeps-refl k d
  storage_loop-Keeps d passed (m ∷ rest) e = elim (Bool-cases (is_due cfg clk mode m)) [
    | inr waits ↦
        rw waits (storage_loop-Keeps d (passed ++ m ∷ []) rest (e ∙ append-cons passed m rest))
    | inl due ↦ rw due (elim (Bool-cases (quota_used_up d)) [
      | inl used ↦ rw used (
          Keeps-trans (destorage_first-Keeps k d to_queue) (
            storage_loop-Keeps (destorage_first d to_queue) (tail (passed ++ m ∷ [])) rest
              (storage-destorage_first d to_queue ∙ ap tail e ∙ tail-append passed m rest)))
      | inr free ↦
          let published = passed ++ to_publish m ∷ [] in
          let d' = record d { storage = published ++ rest } in
          rw free (
            Keeps-trans (storage-Keeps k d passed rest m (to_publish m) refl e) (
              Keeps-trans (destorage_first-Keeps k d' to_inflight) (
                storage_loop-Keeps (destorage_first d' to_inflight) (tail published) rest (
                  storage-destorage_first d' to_inflight
                  ∙ ap tail (sym (append-cons passed (to_publish m) rest))
                  ∙ tail-append passed (to_publish m) rest))))
    ])
  ]
