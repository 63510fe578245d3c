-- ===== src/Examples/Identifiers.antt =====
-- The example for the packet identifiers of lib/util_mosq.c.
use adaptive_mqtt_transmit_p.Common.{◌≤◌, ◌<◌, ◌≢◌, arith}
use adaptive_mqtt_transmit_p.Broker.Util.Identifiers.{mid_after, mid_after-distinct}

mid_after-distinct_example :
    (0 < mid_after 3 65_534) × ((mid_after 3 65_534 ≤ 65_535) × (mid_after 3 65_534 ≢ 65_534))
mid_after-distinct_example =
    mid_after-distinct 3 65_534 (omega arith) (omega arith) (omega arith) (omega arith)
