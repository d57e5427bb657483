-- ===== src/Acknowledge/Estimates.antt =====
-- Bounds on the throttle and on the estimates of the round trip time.
use rusty_enet.Base.{ℕ, ◌^◌, ◌≤◌, ◌<◌, ◌≡◌, arith, min, max}
use rusty_enet.Peer.{Throttle, RoundTrip}
use rusty_enet.Acknowledge.{adjust_throttle, smooth}

-- The throttle never passes its limit, which stays as it is, whatever parameters the other end has
-- configured, where it is not past the limit before and the limit fits 32 bits.
pub adjust_throttle-le-limit :
    (rtt : ℕ) (r : RoundTrip) (t : Throttle)
    → t.packet_throttle ≤ t.packet_throttle_limit
    → t.packet_throttle_limit < 2 ^ 32
    → let t' = adjust_throttle rtt r t in
      (t'.packet_throttle ≤ t'.packet_throttle_limit)
      × (t'.packet_throttle_limit ≡ t.packet_throttle_limit)
unfolding adjust_throttle
adjust_throttle-le-limit rtt r t h k = ground arith

-- The estimate of the round trip time moves towards the sample and not past it: it ends between
-- the two. Sample, estimate and variance fit 32 bits.
pub smooth_bounds :
    (rtt : ℕ) (r : RoundTrip)
    → rtt < 2 ^ 32
    → r.round_trip_time < 2 ^ 32
    → r.round_trip_time_variance < 2 ^ 32
    → (min rtt r.round_trip_time ≤ (smooth rtt r).round_trip_time)
      × ((smooth rtt r).round_trip_time ≤ max rtt r.round_trip_time)
unfolding smooth
smooth_bounds rtt r h k l = ground arith
