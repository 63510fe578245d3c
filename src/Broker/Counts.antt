-- ===== src/Broker/Counts.antt =====
-- What the counters of a `mosquitto_msg_data` stand for: messages and bytes, of all messages and of
-- those above QoS 0, over the three lists.
pub mod Moves
pub mod Walk
pub mod Steady
pub mod Insert
pub mod Ack
use adaptive_mqtt_transmit_p.Common.{ℕ, ◌+◌, ◌≡◌, List, [], ◌∷◌, ltb, if◌then◌else◌}
use adaptive_mqtt_transmit_p.Common.Int.{ℤ, pos, pos_part, neg_part}
use adaptive_mqtt_transmit_p.Broker.Types.{ClientMsg, MsgData}

pub data Measure : Type 0 where
  messages bytes messages12 bytes12 : Measure

-- What a message of this QoS and size adds to a measure.
abbrev pub amount : Measure → ℕ → ℕ → ℕ
amount messages qos size = 1
amount bytes qos size = size
amount messages12 qos size = if ltb 0 qos then 1 else 0
amount bytes12 qos size = if ltb 0 qos then size else 0

abbrev pub counter : Measure → MsgData → ℤ
counter messages d = d.msg_count
counter bytes d = d.msg_bytes
counter messages12 d = d.msg_count12
counter bytes12 d = d.msg_bytes12

abbrev pub sum_of : Measure → List ClientMsg → ℕ
sum_of k [] = 0
sum_of k (m ∷ ms) = amount k m.qos m.store.payloadlen + sum_of k ms

abbrev pub total : Measure → MsgData → ℕ
total k d = sum_of k d.inflight + sum_of k d.queued + sum_of k d.storage

-- The counters say what the lists hold.
abbrev pub Counted : MsgData → Type 0
Counted d = (k : Measure) → counter k d ≡ pos (total k d)

-- a + m ≡ b + n, for integers a and b.
abbrev pub Shift : ℤ → ℕ → ℤ → ℕ → Type 0
Shift a m b n = pos_part a + neg_part b + m ≡ pos_part b + neg_part a + n
