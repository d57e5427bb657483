-- ===== src/Tests/Estimating.antt =====
-- The clock, the throttle, the round trip time, window sizes and the kinds of packets.
use rusty_enet.Base.{◌%◌, ◌^◌, ◌≡◌, refl, arith, sub32}
use rusty_enet.Packet.Kind.{reliable, kind, kind-reliable}
use rusty_enet.Acknowledge.{received_sent_time, time_difference, adjust_throttle, smooth}
use rusty_enet.Acknowledge.Clock.{time_difference-received_sent_time}
use rusty_enet.Tests.Samples.{throttle, round_trip, packet}

-- Sent 10 ms before the clock went round.
time_difference-received_sent_time_example :
    time_difference 5 (received_sent_time 5 (sub32 5 10 % 2 ^ 16)) ≡ 10
time_difference-received_sent_time_example =
    time_difference-received_sent_time 5 10 (omega arith) (omega arith)

-- With an acceleration of 2 ^ 32 - 1 the sum wraps.

wrapped : (adjust_throttle 50 round_trip throttle).packet_throttle ≡ 29
unfolding adjust_throttle
wrapped = refl

smoothed : (smooth 180 round_trip).round_trip_time ≡ 110
unfolding smooth
smoothed = refl

kind-reliable_example : kind (packet 0) ≡ reliable
kind-reliable_example = kind-reliable (packet 0)
