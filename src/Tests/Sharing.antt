-- ===== src/Tests/Sharing.antt =====
-- A host of limited bandwidth with two connected peers.
use rusty_enet.Base.{ℕ, ◌≡◌, ◌≢◌, refl, List, [], ◌∷◌, Option, none, some, arith, true, false}
use rusty_enet.Peer.{Peer, Host}
use rusty_enet.Outgoing.{
  queue_outgoing_command, setup_outgoing_command, number_command, number_peer, enqueue, prepare,
  stamp,
}
use rusty_enet.Throttling.{
  shared_throttle, set_limit, is_over, own_limit, take_share, limit_all, limit_loop, limit_others,
  total_data, begin_share, throttle_peers, is_below, take_division, bound_all, bound_loop,
  bound_peers, announce, bandwidth_throttle,
}
use rusty_enet.Throttling.Rounds.{bandwidth_throttle-ends}
use rusty_enet.Throttling.Limits.{AreThrottled, bandwidth_throttle-AreThrottled}
use rusty_enet.Tests.Samples.{peer, host}

abbrev talking : (outgoing_data_total : ℕ) → Peer
talking n =
    let p = peer false in
    record p { traffic = record p.traffic { outgoing_data_total = n; incoming_bandwidth = 1000 } }

abbrev narrow_host : Host
narrow_host = record (host []) {
  outgoing_bandwidth = 5000;
  incoming_bandwidth = 9000;
  connected_peers = 2;
  recalculate_bandwidth_limits = true;
}

abbrev talkers : List Peer
talkers = talking 90000 ∷ talking 100 ∷ []

bandwidth_throttle-ends_example : bandwidth_throttle 2000 narrow_host talkers ≢ none
bandwidth_throttle-ends_example = bandwidth_throttle-ends 2000 narrow_host talkers

abbrev throttled_or : Option (Host × List Peer) → Host × List Peer
throttled_or none = (narrow_host, [])
throttled_or (some r) = r

abbrev throttled : Host × List Peer
throttled = throttled_or (bandwidth_throttle 2000 narrow_host talkers)

throttled_sample : bandwidth_throttle 2000 narrow_host talkers ≡ some throttled
unfolding bandwidth_throttle throttle_peers limit_loop limit_all total_data begin_share
    shared_throttle is_over own_limit set_limit take_share limit_others bound_peers bound_loop
    bound_all is_below take_division announce queue_outgoing_command setup_outgoing_command
    number_command number_peer enqueue prepare stamp
throttled_sample = refl

talking-IsThrottled : AreThrottled talkers
talking-IsThrottled = (
  record { throttle_le = omega arith; limit_le = omega arith },
  (record { throttle_le = omega arith; limit_le = omega arith }, tt),
)

bandwidth_throttle-AreThrottled_example : AreThrottled throttled.1
bandwidth_throttle-AreThrottled_example =
    bandwidth_throttle-AreThrottled 2000 narrow_host throttled.0 talkers throttled.1
      talking-IsThrottled throttled_sample
