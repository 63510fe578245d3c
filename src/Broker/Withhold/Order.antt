-- ===== src/Broker/Withhold/Order.antt =====
-- The withheld messages stay in the order in which they came.
use mathlib.Core.Path.{subst}
use adaptive_mqtt_transmit_p.Common.{
  ℕ, ◌≤◌, ◌≡◌, refl, ◌∙◌, ap, sym, List, [], ◌∷◌, ◌++◌, arith, not, if_rule, All, All-append,
  All-mono,
}
use adaptive_mqtt_transmit_p.Broker.Types.{ClientMsg, MsgData, Context, Config, Clock, TransferMode}
use adaptive_mqtt_transmit_p.Broker.Util.{is_active}
use adaptive_mqtt_transmit_p.Broker.Queues.{
  to_publish, destorage_first, to_queue, to_inflight, quota_used_up,
}
use adaptive_mqtt_transmit_p.Broker.Withhold.{is_due, storage_loop, write_storage_out, tail}
use adaptive_mqtt_transmit_p.Broker.Withhold.Release.{IsOldestFirst}
use adaptive_mqtt_transmit_p.Broker.Counts.Moves.{storage-destorage_first, tail-append, append-cons}

-- Oldest first, and none younger than `now`.
abbrev pub IsOrdered : ℕ → List ClientMsg → Type 0
IsOrdered now ms = IsOldestFirst ms × All (λ m. m.storage_time ≤ now) ms

pub IsOrdered-later :
    (now later : ℕ) (ms : List ClientMsg) → now ≤ later → IsOrdered now ms → IsOrdered later ms
IsOrdered-later now later ms le h = (h.0, All-mono _ _ ms (λ m p. omega (arith, p, le)) h.1)

IsOrdered-tail : (now : ℕ) (ms : List ClientMsg) → IsOrdered now ms → IsOrdered now (tail ms)
IsOrdered-tail now [] h = h
IsOrdered-tail now (m ∷ ms) h = (h.0.1, h.1.1)

IsOldestFirst-append :
    (m : ClientMsg) (ms : List ClientMsg)
    → IsOldestFirst ms
    → All (λ n. n.storage_time ≤ m.storage_time) ms
    → IsOldestFirst (ms ++ m ∷ [])
IsOldestFirst-append m [] h k = (tt, tt)
IsOldestFirst-append m (n ∷ ms) h k =
    (All-append _ ms (m ∷ []) h.0 (k.0, tt), IsOldestFirst-append m ms h.1 k.1)

-- A message that comes now goes to the end.
pub IsOrdered-append :
    (now : ℕ) (m : ClientMsg) (ms : List ClientMsg)
    → now ≡ m.storage_time
    → IsOrdered now ms
    → IsOrdered now (ms ++ m ∷ [])
IsOrdered-append now m ms e h = (
  IsOldestFirst-append m ms h.0 (All-mono _ _ ms (λ n p. omega (arith, p, e)) h.1),
  All-append _ ms (m ∷ []) h.1 (omega (arith, e), tt),
)

All-publish :
    (P : ℕ → Type 0) (ps : List ClientMsg) (m : ClientMsg) (rest : List ClientMsg)
    → All (λ n. P n.storage_time) (ps ++ m ∷ rest)
    → All (λ n. P n.storage_time) (ps ++ to_publish m ∷ rest)
All-publish P [] m rest h = h
All-publish P (p ∷ ps) m rest h = (h.0, All-publish P ps m rest h.1)

IsOldestFirst-publish :
    (ps : List ClientMsg) (m : ClientMsg) (rest : List ClientMsg)
    → IsOldestFirst (ps ++ m ∷ rest)
    → IsOldestFirst (ps ++ to_publish m ∷ rest)
IsOldestFirst-publish [] m rest h = h
IsOldestFirst-publish (p ∷ ps) m rest h =
    (All-publish (λ n. p.storage_time ≤ n) ps m rest h.0, IsOldestFirst-publish ps m rest h.1)

module _ (cfg : Config) (clk : Clock) (mode : TransferMode) (now : ℕ) where
  storage_loop-IsOrdered :
      (d : MsgData) (passed todo : List ClientMsg)
      → d.storage ≡ passed ++ todo
      → IsOrdered now (passed ++ todo)
      → IsOrdered now (storage_loop cfg clk mode d passed todo).storage
  unfolding storage_loop
  storage_loop-IsOrdered d passed [] e h = subst (IsOrdered now) (sym e) h
  storage_loop-IsOrdered d passed (m ∷ rest) e h =
      let published = passed ++ to_publish m ∷ [] in
      let d' = record d { storage = published ++ rest } in
      let still : IsOrdered now (passed ++ to_publish m ∷ rest) =
        (IsOldestFirst-publish passed m rest h.0, All-publish (λ n. n ≤ now) passed m rest h.1) in
      if_rule (λ (x : MsgData). IsOrdered now x.storage) (is_due cfg clk mode m)
        (if_rule (λ (x : MsgData). IsOrdered now x.storage) (quota_used_up d)
          (storage_loop-IsOrdered (destorage_first d to_queue) (tail (passed ++ m ∷ [])) rest
            (storage-destorage_first d to_queue ∙ ap tail e ∙ tail-append passed m rest)
            (subst (IsOrdered now) (tail-append passed m rest) (IsOrdered-tail now _ h)))
          (storage_loop-IsOrdered (destorage_first d' to_inflight) (tail published) rest
            (storage-destorage_first d' to_inflight
              ∙ ap tail (sym (append-cons passed (to_publish m) rest))
              ∙ tail-append passed (to_publish m) rest)
            (subst (IsOrdered now) (tail-append passed (to_publish m) rest)
              (IsOrdered-tail now _ still))))
        (storage_loop-IsOrdered d (passed ++ m ∷ []) rest (e ∙ append-cons passed m rest)
          (subst (IsOrdered now) (append-cons passed m rest) h))

pub write_storage_out-IsOrdered :
    (cfg : Config) (clk : Clock) (now : ℕ) (c : Context)
    → IsOrdered now c.msgs_out.storage
    → IsOrdered now (write_storage_out cfg clk c).msgs_out.storage
unfolding write_storage_out
write_storage_out-IsOrdered cfg clk now c h =
    if_rule (λ (c' : Context). IsOrdered now c'.msgs_out.storage) (not (is_active c.state)) h
      (storage_loop-IsOrdered cfg clk c.mode now c.msgs_out [] c.msgs_out.storage refl h)
