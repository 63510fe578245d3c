-- ===== src/Qos2/Release.antt =====
-- A released message of QoS 2 is handed on once: a second PUBREL for its identifier finds nothing.
use adaptive_mqtt_transmit_p.Common.{
  ℕ, ◌+◌, Bool, true, false, Option, some, List, [], ◌∷◌, ◌++◌, ◌==◌, ==_iff, ◌≢◌, if◌then◌else◌,
  ◌≡◌, refl, sym, ap, ◌∙◌, arith, Bool-cases, Option-cases, if_rule, inl, inr, ◌⊎◌, length,
}
use mathlib.Core.Path.{subst, fun_ext}
use mathlib.Core.List.{append_assoc}
use adaptive_mqtt_transmit_p.Common.Bytes.{Bytes}
use adaptive_mqtt_transmit_p.Broker.Types.{
  Context, ClientMsg, MsgData, Rc, success, nomem, not_found, no_subscribers, acl_denied,
}
use adaptive_mqtt_transmit_p.Broker.Queues.{uncount}
use adaptive_mqtt_transmit_p.Broker.Delivery.{Transport}
use adaptive_mqtt_transmit_p.Broker.Insert.Keeps.{IsSame, message_insert-IsSame}
use adaptive_mqtt_transmit_p.Subs.Tree.{Leaf, SubHiers, find_child}
use adaptive_mqtt_transmit_p.Subs.Tokens.{Tokens, failed, tokens, topic_tokenise, head_of}
use adaptive_mqtt_transmit_p.Subs.Search.Preserves.{sub_search_keeps}
use adaptive_mqtt_transmit_p.Subs.Publish.{
  Publication, Surroundings, World, keep_retained, messages_queue, send_to, subs_send, skips_leaf,
  search_root, is_given,
}
use adaptive_mqtt_transmit_p.Subs.Add.{Client}
use adaptive_mqtt_transmit_p.Qos2.{
  State, context_of, put_context, remove_in, publication, release_one, Scan, returned, scanned,
  release_scan, release_queued, finish_release, message_release_incoming,
}

-- Handing a message on leaves the incoming messages of every client as they are.
module _ (i : ℕ) (name : Option Bytes) (d : MsgData) (e : Surroundings) (p : Publication) where
  abbrev Keeps : World → Type 0
  Keeps s = IsSame name d (s.client i).context

  send_to-IsSame : (leaf : Leaf) (s : World) → Keeps s → Keeps (send_to e p leaf s).0
  unfolding send_to
  send_to-IsSame leaf s h = elim (Bool-cases (i == leaf.client)) [
    | inl same ↦
        rw (same, send_to)
          (message_insert-IsSame name d e.clock _ _ _ p.stored e.transport _ s.db true
            (subst (λ k. IsSame name d (s.client k).context) ((==_iff i leaf.client).0 same) h))
    | inr n ↦ rw (n, send_to) h
  ]

  granted-IsSame :
      (r : Rc) (leaf : Leaf) (s : World)
      → Keeps s
      → e.acl_check leaf.client p ≡ r
      → Keeps (subs_send e p leaf s).0
  unfolding subs_send
  granted-IsSame acl_denied leaf s h eq = rw (eq, subs_send) h
  granted-IsSame success leaf s h eq = rw (eq, subs_send) (send_to-IsSame leaf s h)
  granted-IsSame _ leaf s h eq = rw (eq, subs_send) h

  subs_send-IsSame : (leaf : Leaf) (s : World) → Keeps s → Keeps (subs_send e p leaf s).0
  subs_send-IsSame leaf s h = granted-IsSame _ leaf s h refl

  search_root-IsSame :
      (topics : List Bytes) (root : SubHiers) (s : World)
      → Keeps s
      → Keeps (search_root (subs_send e p) (skips_leaf p) (is_given p.source_id) topics root s).1
  unfolding search_root
  search_root-IsSame topics root s h = elim (Option-cases (find_child (head_of topics) root)) [
    | inl eq ↦ rw (eq, search_root) h
    | inr (n, eq) ↦
        rw (eq, search_root)
          (sub_search_keeps (subs_send e p) (skips_leaf p) (is_given p.source_id) Keeps
            subs_send-IsSame topics n s h)
  ]

  queue_tokens-IsSame :
      (t : Tokens) (root : SubHiers) (s : World)
      → Keeps s
      → topic_tokenise p.topic ≡ t
      → Keeps (messages_queue e p root s).1
  unfolding messages_queue keep_retained
  queue_tokens-IsSame (failed rc) root s h eq = rw (eq, messages_queue) h
  queue_tokens-IsSame (tokens topics sharename) root s h eq =
      rw (eq, messages_queue)
        (if_rule Keeps p.retain (search_root-IsSame topics root _ h)
          (search_root-IsSame topics root _ h))

  messages_queue-IsSame :
      (root : SubHiers) (s : World) → Keeps s → Keeps (messages_queue e p root s).1
  messages_queue-IsSame root s h = queue_tokens-IsSame _ root s h refl

-- A list without the messages that have the identifier.
unfoldable pub without : ℕ → List ClientMsg → List ClientMsg
without mid [] = []
without mid (m ∷ ms) = if m.mid == mid then without mid ms else m ∷ without mid ms

without-without : (mid : ℕ) (ms : List ClientMsg) → without mid (without mid ms) ≡ without mid ms
unfolding without
without-without mid [] = refl
without-without mid (m ∷ ms) = ground (arith, without-without mid ms)

-- The incoming messages of the client `i`: `ms` is in flight, and none waits.
abbrev pub Holds : ℕ → List ClientMsg → World → Type 0
Holds i ms s =
    ((s.client i).context.msgs_in.inflight ≡ ms) × ((s.client i).context.msgs_in.queued ≡ [])

remove_in-Holds :
    (i : ℕ) (m : ClientMsg) (left ms : List ClientMsg) (root : SubHiers) (s : World)
    → Holds i ms s
    → Holds i left (remove_in i m left (root, s)).1
unfolding remove_in uncount
remove_in-Holds i m left ms root s h = rw ((==_iff i i).1 refl) (refl, h.1)

-- Either the call is given up, or `left` is in flight behind it.
abbrev Goes : ℕ → List ClientMsg → State × Bool → Type 0
Goes i left o = (o.1 ≡ false) ⊎ Holds i left o.0.1

module _ (e : Surroundings) (i : ℕ) where
  queued-Holds :
      (p : Publication) (ms : List ClientMsg) (root : SubHiers) (s : World)
      → Holds i ms s
      → Holds i ms (messages_queue e p root s).1
  queued-Holds p ms root s h =
      let c = (s.client i).context in
      let k = (messages_queue-IsSame i c.id c.msgs_in e p root s (refl, refl)).1 in
      (ap (λ (d : MsgData). d.inflight) k ∙ h.0, ap (λ (d : MsgData). d.queued) k ∙ h.1)

  handed_on-Goes :
      (rc : Rc) (m : ClientMsg) (left ms : List ClientMsg) (x : State) (topic : Bytes)
      → m.store.topic ≡ some topic
      → (messages_queue e (publication topic m) x.0 x.1).2 ≡ rc
      → Holds i ms (messages_queue e (publication topic m) x.0 x.1).1
      → Goes i left (release_one e i m left x)
  unfolding release_one
  handed_on-Goes success m left ms x topic eq c h =
      let q = messages_queue e (publication topic m) x.0 x.1 in
      rw (eq, release_one, c) (inr (remove_in-Holds i m left ms q.0 q.1 h))
  handed_on-Goes no_subscribers m left ms x topic eq c h =
      let q = messages_queue e (publication topic m) x.0 x.1 in
      rw (eq, release_one, c) (inr (remove_in-Holds i m left ms q.0 q.1 h))
  handed_on-Goes _ m left ms x topic eq c h = rw (eq, release_one, c) (inl refl)

  release_one-Goes :
      (m : ClientMsg) (left ms : List ClientMsg) (x : State)
      → Holds i ms x.1
      → Goes i left (release_one e i m left x)
  unfolding release_one
  release_one-Goes m left ms x h = elim (Option-cases m.store.topic) [
    | inl eq ↦ rw (eq, release_one) (inr (remove_in-Holds i m left ms x.0 x.1 h))
    | inr (topic, eq) ↦
        handed_on-Goes _ m left ms x topic eq refl (queued-Holds (publication topic m) ms x.0 x.1 h)
  ]

-- What the first loop leaves in flight, unless it returns.
Left : ℕ → List ClientMsg → State × Scan → Type 0
Left i left (x, returned rc) = (rc ≢ success) × (rc ≢ not_found)
Left i left (x, scanned msg_index deleted) = Holds i left x.1

module _ (e : Surroundings) (i mid : ℕ) where
  release_scan-Left :
      (before todo : List ClientMsg) (msg_index : ℕ) (deleted : Bool) (x : State)
      → Holds i (before ++ todo) x.1
      → Left i (before ++ without mid todo) (release_scan e i mid before todo msg_index deleted x)
  unfolding release_scan without Left
  release_scan-Left before [] msg_index deleted x h = h
  release_scan-Left before (m ∷ todo) msg_index deleted x h =
      let onward = release_scan-Left before todo (msg_index + 1) true in
      let past = release_scan-Left (before ++ m ∷ []) todo (msg_index + 1) deleted x in
      elim (Bool-cases (m.mid == mid)) [
        | inr n ↦ rw n (
            subst
              (λ ms.
                Left i ms (release_scan e i mid (before ++ m ∷ []) todo (msg_index + 1) deleted x))
              (append_assoc before (m ∷ []) (without mid todo))
              (past (subst (λ ms. Holds i ms x.1) (sym (append_assoc before (m ∷ []) todo)) h)))
        | inl same ↦ elim (Bool-cases (m.store.qos == 2)) [
          | inr n ↦ rw (same, n) (ground arith)
          | inl two ↦ elim (release_one-Goes e i m (before ++ todo) (before ++ m ∷ todo) x h) [
            | inl f ↦ rw (same, two, f) (ground arith)
            | inr k ↦
                rw (same, two)
                  (let o = release_one e i m (before ++ todo) x in
                    if_rule (Left i (before ++ without mid todo)) o.1 {y = (o.0, returned nomem)}
                      (onward o.0 k) (ground arith))
          ]
        ]
      ]

  -- Where no message has the identifier, the loop changes nothing.
  release_scan-without :
      (before ms : List ClientMsg) (msg_index : ℕ) (deleted : Bool) (x : State)
      → release_scan e i mid before (without mid ms) msg_index deleted x
        ≡ (x, scanned (msg_index + length (without mid ms)) deleted)
  unfolding release_scan without
  release_scan-without before [] msg_index deleted x =
      ap (λ n. (x, scanned n deleted)) (omega arith)
  release_scan-without before (m ∷ ms) msg_index deleted x = elim (Bool-cases (m.mid == mid)) [
    | inl same ↦ rw same (release_scan-without before ms msg_index deleted x)
    | inr n ↦
        rw (n, release_scan, n)
          (release_scan-without (before ++ m ∷ []) ms (msg_index + 1) deleted x
            ∙ ap (λ n. (x, scanned n deleted)) (omega arith))
  ]

put_same : (i : ℕ) (s : World) → put_context i (s.client i).context s ≡ s
put_same i s =
    ap (λ (f : ℕ → Client). record s { client = f })
      (fun_ext λ j. elim (Bool-cases (j == i)) [
        | inl same ↦ rw (same, (==_iff j i).0 same) refl
        | inr n ↦ rw n refl
      ])

pub put_Holds :
    (i : ℕ) (ms : List ClientMsg) (c : Context) (s : World)
    → (c.msgs_in.inflight ≡ ms) × (c.msgs_in.queued ≡ [])
    → Holds i ms (put_context i c s)
put_Holds i ms c s h = rw ((==_iff i i).1 refl) h

-- Where no message waits, the second loop changes nothing.
none_moves :
    (t : Transport) (i now msg_index : ℕ) (left : List ClientMsg) (s : World)
    → Holds i left s
    → let c = (s.client i).context in
      put_context i (release_queued t now msg_index [] c c.msgs_in.queued) s ≡ s
unfolding release_queued
none_moves t i now msg_index left s h =
    let c = (s.client i).context in
    ap (λ q. put_context i (release_queued t now msg_index [] c q) s) h.1 ∙ put_same i s

module _ (e : Surroundings) (i mid : ℕ) where
  finish-Left :
      (left : List ClientMsg) (o : State × Scan) (rc : Rc)
      → Left i left o
      → (finish_release e i o).1 ≡ rc
      → (rc ≡ success) ⊎ (rc ≡ not_found)
      → Holds i left (finish_release e i o).0.1
  unfolding Left
  finish-Left left (x, returned r) rc h k (inl f) = ground (arith, h.0 (k ∙ f))
  finish-Left left (x, returned r) rc h k (inr f) = ground (arith, h.1 (k ∙ f))
  finish-Left left ((root, s), scanned msg_index deleted) rc h k f =
      subst (Holds i left) (sym (none_moves e.transport i s.db.now_s msg_index left s h)) h

  -- What is left in flight where the call ends without an error.
  pub release-Holds :
      (x : State) (rc : Rc)
      → (context_of i x).msgs_in.queued ≡ []
      → (message_release_incoming e i mid x).1 ≡ rc
      → (rc ≡ success) ⊎ (rc ≡ not_found)
      → Holds i
          (without mid (context_of i x).msgs_in.inflight)
          (message_release_incoming e i mid x).0.1
  unfolding message_release_incoming
  release-Holds x rc none_waits done f =
      let ms = (context_of i x).msgs_in.inflight in
      finish-Left (without mid ms) (release_scan e i mid [] ms 0 false x) rc
        (release_scan-Left e i mid [] ms 0 false x (refl, none_waits)) done f

  -- A second call for a message identifier changes nothing and hands nothing on.
  pub release-again :
      (left : List ClientMsg) (x : State)
      → Holds i (without mid left) x.1
      → message_release_incoming e i mid x ≡ (x, not_found)
  unfolding message_release_incoming
  release-again left x h =
      let ms = without mid left in
      ap (λ l. finish_release e i (release_scan e i mid [] l 0 false x)) h.0
      ∙ (ap (finish_release e i) (release_scan-without e i mid [] left 0 false x)
          ∙ ap (λ s. ((x.0, s), not_found))
              (none_moves e.transport i x.1.db.now_s (0 + length ms) ms x.1 h))

  -- If no incoming message of the client waits and `db__message_release_incoming` succeeds, the
  -- messages with the identifier have left those in flight and the others stay in their order; a
  -- second call then tells that nothing was found and changes neither the tree nor any client nor
  -- the message store.
  pub message_release_incoming-once :
      (x : State)
      → (context_of i x).msgs_in.queued ≡ []
      → (message_release_incoming e i mid x).1 ≡ success
      → let x' = (message_release_incoming e i mid x).0 in
        ((context_of i x').msgs_in.inflight ≡ without mid (context_of i x).msgs_in.inflight)
        × (message_release_incoming e i mid x' ≡ (x', not_found))
  message_release_incoming-once x none_waits done =
      let h = release-Holds x success none_waits done (inl refl) in
      (
        h.0,
        release-again (context_of i x).msgs_in.inflight (message_release_incoming e i mid x).0 h,
      )
