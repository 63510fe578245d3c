-- ===== src/Broker/Withhold/Release.antt =====
-- What `db__message_write_storage_out` does to the lists of an active client.
use mathlib.Core.List.{append-nil, append_assoc}
use adaptive_mqtt_transmit_p.Common.{
  ℕ, suc, ◌-◌, ◌≤◌, ◌≡◌, refl, ◌∙◌, ap, sym, false, true, inl, inr, List, [], ◌∷◌, ◌++◌, map, arith,
  Bool-cases, length, take, drop, All, take_while, drop_while,
}
use adaptive_mqtt_transmit_p.Broker.Types.{
  ClientMsg, MsgData, Context, Config, Clock, TransferMode, normal_mode, active,
}
use adaptive_mqtt_transmit_p.Broker.Queues.{to_publish, destorage_first, to_inflight, quota_used_up}
use adaptive_mqtt_transmit_p.Broker.Delivery.Queued.{
  allowance, allowance-zero, allowance-suc, allowance-none, quota-suc, sub-none,
}
use adaptive_mqtt_transmit_p.Broker.Withhold.{is_due, storage_loop, write_storage_out}

-- The messages `out` leave `storage`, which becomes `left`: the first `n` go to the inflight list,
-- the others to the queue.
abbrev pub release : ℕ → List ClientMsg → List ClientMsg → MsgData → MsgData
release n out left d = record d {
  inflight = d.inflight ++ map to_publish (take n out);
  queued = d.queued ++ drop n out;
  storage = left;
  inflight_quota = d.inflight_quota - n;
}

-- Oldest first, by the time at which a message went into storage.
abbrev pub IsOldestFirst : List ClientMsg → Type 0
IsOldestFirst [] = Unit {0}
IsOldestFirst (m ∷ ms) = All (λ n. m.storage_time ≤ n.storage_time) ms × IsOldestFirst ms

release-none : (ms : List ClientMsg) (d : MsgData) → release 0 [] ms d ≡ record d { storage = ms }
release-none ms d = rw (append-nil d.inflight, append-nil d.queued, sub-none d.inflight_quota)

release-used :
    (m : ClientMsg) (out left : List ClientMsg) (d : MsgData)
    → release 0 out left (record d { queued = d.queued ++ m ∷ [] }) ≡ release 0 (m ∷ out) left d
release-used m out left d = rw (append_assoc d.queued (m ∷ []) out)

release-free :
    (m : ClientMsg) (ms out left : List ClientMsg) (d : MsgData) (n : ℕ)
    → release n out left (destorage_first (record d { storage = to_publish m ∷ ms }) to_inflight)
      ≡ release (suc n) (m ∷ out) left d
unfolding destorage_first
release-free m ms out left d n = rw (
  append_assoc d.inflight (to_publish m ∷ []) (map to_publish (take n out)),
  quota-suc d.inflight_quota n,
)

module _ (cfg : Config) (clk : Clock) (mode : TransferMode) where
  -- Messages that are not due stay where they are.
  loop_keeps :
      (d : MsgData) (passed ms : List ClientMsg)
      → All (λ m. is_due cfg clk mode m ≡ false) ms
      → storage_loop cfg clk mode d passed ms ≡ d
  unfolding storage_loop
  loop_keeps d passed [] h = refl
  loop_keeps d passed (m ∷ ms) h = rw h.0 (loop_keeps d (passed ++ m ∷ []) ms h.1)

  -- A message younger than one that is not due is not due.
  not_due_mono :
      (m n : ClientMsg)
      → m.storage_time ≤ n.storage_time
      → is_due cfg clk mode m ≡ false
      → is_due cfg clk mode n ≡ false
  not_due_mono m n h e = ground arith

  not_due-All :
      (m : ClientMsg) (ms : List ClientMsg)
      → All (λ n. m.storage_time ≤ n.storage_time) ms
      → is_due cfg clk mode m ≡ false
      → All (λ n. is_due cfg clk mode n ≡ false) ms
  not_due-All m [] h e = tt
  not_due-All m (n ∷ ms) h e = (not_due_mono m n h.0 e, not_due-All m ms h.1 e)

  -- Behind the messages that are due no other is.
  unfoldable pub IsParted : List ClientMsg → Type 0
  IsParted ms = All (λ m. is_due cfg clk mode m ≡ false) (drop_while (is_due cfg clk mode) ms)

  pub IsParted-oldest_first : (ms : List ClientMsg) → IsOldestFirst ms → IsParted ms
  unfolding IsParted
  IsParted-oldest_first [] h = tt
  IsParted-oldest_first (m ∷ ms) h = elim (Bool-cases (is_due cfg clk mode m)) [
    | inl due ↦ rw due (IsParted-oldest_first ms h.1)
    | inr waits ↦ rw waits (waits, not_due-All m ms h.0 waits)
  ]

  Released : MsgData → List ClientMsg → Type 0
  Released d ms =
      let out = take_while (is_due cfg clk mode) ms in
      storage_loop cfg clk mode (record d { storage = ms }) [] ms
      ≡ release (allowance d (length out)) out (drop_while (is_due cfg clk mode) ms) d

  loop_lem : (d : MsgData) (ms : List ClientMsg) → IsParted ms → Released d ms
  unfolding storage_loop IsParted Released
  loop_lem d [] = λ h. rw allowance-none (sym (release-none [] d))
  loop_lem d (m ∷ ms) = elim (Bool-cases (is_due cfg clk mode m)) [
    | inr waits ↦
        rw (waits, allowance-none)
          (λ h.
            loop_keeps (record d { storage = m ∷ ms }) (m ∷ []) ms h.1
            ∙ sym (release-none (m ∷ ms) d))
    | inl due ↦
        let out = take_while (is_due cfg clk mode) ms in
        let left = drop_while (is_due cfg clk mode) ms in
        rw due (elim (Bool-cases (quota_used_up d)) [
          | inl used ↦
              let d' = record d { queued = d.queued ++ m ∷ [] } in
              rw (used, allowance-zero d (suc (length out)) used)
                (λ h.
                  loop_lem d' ms h
                  ∙ ap (λ n. release n out left d') (allowance-zero d (length out) used)
                  ∙ release-used m out left d)
          | inr free ↦
              rw (free, allowance-suc d (length out) free)
                (λ h.
                  loop_lem (destorage_first (record d { storage = to_publish m ∷ ms }) to_inflight)
                    ms h
                  ∙ release-free m ms out left d _)
        ])
  ]

module _ (cfg : Config) (clk : Clock) where
  is_due-normal : (m : ClientMsg) → is_due cfg clk normal_mode m ≡ true
  is_due-normal m = ground arith

  all_due :
      (ms : List ClientMsg)
      → (take_while (is_due cfg clk normal_mode) ms ≡ ms)
        × (drop_while (is_due cfg clk normal_mode) ms ≡ [])
  all_due [] = (refl, refl)
  all_due (m ∷ ms) = rw (is_due-normal m) (ap (λ l. m ∷ l) (all_due ms).0, (all_due ms).1)

  -- In normal mode the loop empties `storage`, in whatever order the messages lie there.
  pub loop-normal :
      (d : MsgData)
      → storage_loop cfg clk normal_mode d [] d.storage
        ≡ release (allowance d (length d.storage)) d.storage [] d
  unfolding IsParted Released
  loop-normal d =
      let (out, left) = all_due d.storage in
      loop_lem cfg clk normal_mode d d.storage (rw left tt)
      ∙ ap
          (λ l.
            release (allowance d (length l)) l (drop_while (is_due cfg clk normal_mode) d.storage)
              d)
          out
      ∙ ap (λ l. release (allowance d (length d.storage)) d.storage l d) left

-- For an active client whose withheld messages lie oldest first, by the test of the code.
pub write_storage_out_lem :
    (cfg : Config) (clk : Clock) (c : Context)
    → c.state ≡ active
    → IsOldestFirst c.msgs_out.storage
    → let d = c.msgs_out in
      let out = take_while (is_due cfg clk c.mode) d.storage in
      (write_storage_out cfg clk c).msgs_out
      ≡ release (allowance d (length out)) out (drop_while (is_due cfg clk c.mode) d.storage) d
unfolding write_storage_out Released
write_storage_out_lem cfg clk c h o = rw h (
    loop_lem cfg clk c.mode c.msgs_out c.msgs_out.storage
      (IsParted-oldest_first cfg clk c.mode c.msgs_out.storage o))
