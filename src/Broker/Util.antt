-- ===== src/Broker/Util.antt =====
-- The quotas of lib/util_mosq.c, and the transfer mode that the policy adds there.
pub mod Identifiers
use adaptive_mqtt_transmit_p.Common.{
  ℕ, ◌+◌, ◌-◌, ◌%◌, ◌^◌, Bool, true, false, ltb, ◌==◌, if◌then◌else◌,
}
use adaptive_mqtt_transmit_p.Broker.Types.{
  MsgData, Context, TransferMode, normal_mode, slow_mode, ClientState, disused, active,
}

-- The bodies of `util__increment_send_quota` and `util__increment_receive_quota`.
unfoldable pub increment_quota : MsgData → MsgData
increment_quota d = record d {
  inflight_quota =
      if ltb d.inflight_quota d.inflight_maximum then d.inflight_quota + 1 else d.inflight_quota;
}

-- The bodies of `util__decrement_send_quota` and `util__decrement_receive_quota`.
unfoldable pub decrement_quota : MsgData → MsgData
decrement_quota d = record d {
  inflight_quota = if ltb 0 d.inflight_quota then d.inflight_quota - 1 else d.inflight_quota;
}

unfoldable pub increment_send_quota : Context → Context
increment_send_quota c = record c { msgs_out = increment_quota c.msgs_out }

unfoldable pub decrement_send_quota : Context → Context
decrement_send_quota c = record c { msgs_out = decrement_quota c.msgs_out }

-- The test `state != mosq_cs_disused`.
abbrev pub is_disused : ClientState → Bool
is_disused disused = true
is_disused _ = false

-- The test `state == mosq_cs_active`.
abbrev pub is_active : ClientState → Bool
is_active active = true
is_active _ = false

abbrev pub is_slow : TransferMode → Bool
is_slow slow_mode = true
is_slow normal_mode = false

unfoldable pub set_state : Context → ClientState → Context
set_state c s = record c { state = if is_disused c.state then c.state else s }

unfoldable pub set_mode : Context → TransferMode → Context
set_mode c m = record c { mode = if is_disused c.state then c.mode else m }

-- `mosquitto__mid_generate`: the next 16-bit packet identifier, never 0.
unfoldable pub mid_generate : ℕ → ℕ
mid_generate last_mid =
    let next = (last_mid + 1) % 2 ^ 16 in if next == 0 then (next + 1) % 2 ^ 16 else next
