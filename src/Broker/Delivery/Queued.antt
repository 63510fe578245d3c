-- ===== src/Broker/Delivery/Queued.antt =====
-- What `db__message_write_queued_out` does to the lists: the oldest queued messages, as many as the
-- quota allows, go to the end of the inflight list in their order.
use mathlib.Core.List.{append-nil, append_assoc}
use adaptive_mqtt_transmit_p.Common.{
  ℕ, suc, ◌-◌, ◌≡◌, ◌∙◌, sym, false, true, inl, inr, List, [], ◌∷◌, ◌++◌, map, min, arith,
  Bool-cases, ltb, ◌==◌, if◌then◌else◌, length, take, drop,
}
use adaptive_mqtt_transmit_p.Broker.Types.{ClientMsg, MsgData, Context, active}
use adaptive_mqtt_transmit_p.Broker.Util.{decrement_quota}
use adaptive_mqtt_transmit_p.Broker.Queues.{to_publish, dequeue_first, quota_used_up}
use adaptive_mqtt_transmit_p.Broker.Delivery.{queued_loop, write_queued_out}

-- How many of `n` messages may go; a maximum of 0 means that there is no limit.
abbrev pub allowance : MsgData → ℕ → ℕ
allowance d n = if d.inflight_maximum == 0 then n else min d.inflight_quota n

-- The first `n` of `queued` moved to the end of `inflight`.
abbrev pub move_queued : ℕ → MsgData → MsgData
move_queued n d = record d {
  inflight = d.inflight ++ map to_publish (take n d.queued);
  queued = drop n d.queued;
  inflight_quota = d.inflight_quota - n;
}

pub allowance-zero : (d : MsgData) (n : ℕ) → quota_used_up d ≡ true → allowance d n ≡ 0
allowance-zero d n h = ground arith

pub allowance-suc :
    (d : MsgData) (n : ℕ)
    → quota_used_up d ≡ false
    → allowance d (suc n) ≡ suc (allowance (decrement_quota d) n)
unfolding decrement_quota
allowance-suc d n h = ground arith

pub quota-suc : (q n : ℕ) → (if ltb 0 q then q - 1 else q) - n ≡ q - suc n
quota-suc q n = ground arith

move_queued-suc :
    (d : MsgData) (m : ClientMsg) (rest : List ClientMsg) (n : ℕ)
    → move_queued n (dequeue_first (record d { queued = to_publish m ∷ rest }))
      ≡ move_queued (suc n) (record d { queued = m ∷ rest })
unfolding dequeue_first
move_queued-suc d m rest n = rw (
  append_assoc d.inflight (to_publish m ∷ []) (map to_publish (take n rest)),
  quota-suc d.inflight_quota n,
)

pub allowance-none : (d : MsgData) → allowance d 0 ≡ 0
allowance-none d = ground arith

pub sub-none : (n : ℕ) → n - 0 ≡ n
sub-none n = omega arith

move_queued-none : (d : MsgData) → move_queued 0 d ≡ d
move_queued-none d = rw (append-nil d.inflight, sub-none d.inflight_quota)

queued_loop_lem :
    (d : MsgData) (todo : List ClientMsg)
    → queued_loop (record d { queued = todo }) todo
      ≡ move_queued (allowance d (length todo)) (record d { queued = todo })
unfolding queued_loop
queued_loop_lem d [] = rw allowance-none (sym (move_queued-none (record d { queued = [] })))
queued_loop_lem d (m ∷ rest) = elim (Bool-cases (quota_used_up d)) [
  | inl used ↦
      rw (used, allowance-zero d (suc (length rest)) used)
        (sym (move_queued-none (record d { queued = m ∷ rest })))
  | inr free ↦
      rw (free, allowance-suc d (length rest) free)
        (queued_loop_lem (dequeue_first (record d { queued = to_publish m ∷ rest })) rest
          ∙ move_queued-suc d m rest _)
]

-- On an active client the whole effect is that the oldest queued messages, as many as the quota
-- allows, are set to be published and appended to the inflight list in their order, and take their
-- number from the quota; with a maximum of 0 all of them go.
pub write_queued_out_lem :
    (c : Context)
    → c.state ≡ active
    → let d = c.msgs_out in
      (write_queued_out c).msgs_out ≡ move_queued (allowance d (length d.queued)) d
unfolding write_queued_out
write_queued_out_lem c h = rw h (queued_loop_lem c.msgs_out c.msgs_out.queued)
