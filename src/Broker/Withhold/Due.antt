-- ===== src/Broker/Withhold/Due.antt =====
-- Which withheld messages `db__message_write_storage_out` lets go, said without its loop.
use adaptive_mqtt_transmit_p.Common.{
  ◌+◌, ◌<◌, ◌≡◌, ◌⊎◌, refl, ap, true, false, inl, inr, Bool, List, [], ◌∷◌, ◌++◌, arith, Bool-cases,
  length, All, All-mono, take_while, drop_while,
}
use adaptive_mqtt_transmit_p.Broker.Types.{
  ClientMsg, Context, Config, Clock, TransferMode, normal_mode, slow_mode, active,
}
use adaptive_mqtt_transmit_p.Broker.Delivery.Queued.{allowance}
use adaptive_mqtt_transmit_p.Broker.Withhold.{is_due, write_storage_out}
use adaptive_mqtt_transmit_p.Broker.Withhold.Release.{
  release, IsOldestFirst, IsParted, IsParted-oldest_first, write_storage_out_lem,
}

-- The message has waited for longer than the timeout, or the client is in normal mode.
abbrev pub IsDue : Config → Clock → TransferMode → ClientMsg → Type 0
IsDue cfg clk mode m = (m.storage_time + cfg.msg_store_timeout < clk.mono_s) ⊎ (mode ≡ normal_mode)

-- The client `c'` is `c` after the due messages `out` have left its storage, the first of them to
-- the inflight list, as many as the quota allows, and the others to the queue.
pub record ReleasesDue (cfg : Config) (clk : Clock) (c c' : Context) : Type 0 where
  pub out : List ClientMsg
  pub left : List ClientMsg
  pub parts : out ++ left ≡ c.msgs_out.storage
  pub due : All (IsDue cfg clk c.mode) out
  pub waiting : All (λ m. ¬ IsDue cfg clk c.mode m) left
  pub effect : c'.msgs_out ≡ release (allowance c.msgs_out (length out)) out left c.msgs_out

is_due-true :
    (cfg : Config) (clk : Clock) (mode : TransferMode) (m : ClientMsg)
    → is_due cfg clk mode m ≡ true
    → IsDue cfg clk mode m
is_due-true cfg clk normal_mode m h = inr refl
is_due-true cfg clk slow_mode m h = inl (ground arith)

is_due-false :
    (cfg : Config) (clk : Clock) (mode : TransferMode) (m : ClientMsg)
    → is_due cfg clk mode m ≡ false
    → ¬ IsDue cfg clk mode m
is_due-false cfg clk normal_mode m h = λ d. ground arith
is_due-false cfg clk slow_mode m h = λ d. elim d [ inl late ↦ ground arith | inr e ↦ cc ]

take_while-drop_while :
    (p : ClientMsg → Bool) (ms : List ClientMsg) → take_while p ms ++ drop_while p ms ≡ ms
take_while-drop_while p [] = refl
take_while-drop_while p (m ∷ ms) = elim (Bool-cases (p m)) [
  | inl y ↦ rw y (ap (λ l. m ∷ l) (take_while-drop_while p ms))
  | inr n ↦ rw n refl
]

All-take_while :
    (p : ClientMsg → Bool) (ms : List ClientMsg) → All (λ m. p m ≡ true) (take_while p ms)
All-take_while p [] = tt
All-take_while p (m ∷ ms) = elim (Bool-cases (p m)) [
  | inl y ↦ rw y (y, All-take_while p ms)
  | inr n ↦ rw n tt
]

-- On an active client whose withheld messages lie oldest first, exactly the messages that have
-- waited for longer than the timeout leave storage, or all of them if the client is in normal mode.
-- The oldest of them, as many as the quota allows, are set to be published and go to the end of the
-- inflight list; the others go to the end of the queue; all keep their order.
pub write_storage_out-ReleasesDue :
    (cfg : Config) (clk : Clock) (c : Context)
    → c.state ≡ active
    → IsOldestFirst c.msgs_out.storage
    → ReleasesDue cfg clk c (write_storage_out cfg clk c)
unfolding IsParted
write_storage_out-ReleasesDue cfg clk c h o =
    let p = is_due cfg clk c.mode in
    let ms = c.msgs_out.storage in
    record {
      out = take_while p ms;
      left = drop_while p ms;
      parts = take_while-drop_while p ms;
      due = All-mono _ _ (take_while p ms) (is_due-true cfg clk c.mode) (All-take_while p ms);
      waiting =
          All-mono _ _ (drop_while p ms) (is_due-false cfg clk c.mode)
            (IsParted-oldest_first cfg clk c.mode ms o);
      effect = write_storage_out_lem cfg clk c h o;
    }
