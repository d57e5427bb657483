-- ===== src/Acknowledge.antt =====
-- What an acknowledgement tells of the round trip: the clock of the packet it is for, the estimates,
-- and the throttle on unreliable packets. `enet_peer_throttle` of src/c/peer.rs and the first half of
-- `enet_protocol_handle_acknowledge` in src/c/protocol.rs.
pub mod Removing
pub mod Clock
pub mod Estimates
use rusty_enet.Base.{
  ℕ, ◌+◌, ◌-◌, ◌*◌, ◌/◌, ◌%◌, ◌^◌, Bool, true, false, ◌&&◌, ◌||◌, not, List, [], ◌∷◌, Option, none,
  some, ltb, leb, ◌==◌, if◌then◌else◌, add32, sub32, mul32, sub16, get_or, set, max,
}
use rusty_enet.Protocol.{command_number}
use rusty_enet.Packet.{release}
use rusty_enet.Peer.{
  PeerState, disconnected, acknowledging_connect, disconnect_later, disconnecting, zombie,
  OutgoingCommand, Channel, Throttle, RoundTrip, Timing, Peer, Context, Outcome, accepted, rejected,
}
use rusty_enet.Outgoing.{with_channel}
use rusty_enet.Connection.{notify_connect, notify_disconnect, has_outgoing_commands}
use rusty_enet.Connection.Ending.{peer_disconnect}
use rusty_enet.Window.{channel?}

-- The 32-bit time that the low half in an acknowledgement stands for: the upper half of the host's
-- clock, or one less if bit 15 shows that the clock has passed into a new one.
unfoldable pub received_sent_time : (service_time low : ℕ) → ℕ
received_sent_time service_time low =
    let t = low + service_time / 2 ^ 16 * 2 ^ 16 in
    if ltb (service_time / 2 ^ 15 % 2) (t / 2 ^ 15 % 2) then sub32 t (2 ^ 16) else t

-- The distance of two times, whichever is first; a day apart counts as the other way round.
unfoldable pub time_difference : ℕ → ℕ → ℕ
time_difference a b = if leb 86400000 (sub32 a b) then sub32 b a else sub32 a b

-- `enet_peer_throttle` on the two parts of the peer that it uses; its result is unused.
unfoldable pub adjust_throttle : (rtt : ℕ) → RoundTrip → Throttle → Throttle
adjust_throttle rtt r t =
    if leb r.last_round_trip_time r.last_round_trip_time_variance
    then record t { packet_throttle = t.packet_throttle_limit }
    else if leb rtt r.last_round_trip_time
    then (let sum = add32 t.packet_throttle t.packet_throttle_acceleration in
        record t {
          packet_throttle =
              (if ltb t.packet_throttle_limit sum then t.packet_throttle_limit else sum);
        })
    else if ltb (add32 r.last_round_trip_time (mul32 2 r.last_round_trip_time_variance)) rtt
    then record t {
      packet_throttle =
          (if ltb t.packet_throttle_deceleration t.packet_throttle
            then sub32 t.packet_throttle t.packet_throttle_deceleration
            else 0);
    }
    else t

-- The new estimates from one sample: an eighth of the difference, and a quarter of its size.
unfoldable pub smooth : (rtt : ℕ) → RoundTrip → RoundTrip
smooth rtt r =
    let variance = sub32 r.round_trip_time_variance (r.round_trip_time_variance / 4) in
    if leb r.round_trip_time rtt
    then (let diff = sub32 rtt r.round_trip_time in
        record r {
          round_trip_time_variance = add32 variance (diff / 4);
          round_trip_time = add32 r.round_trip_time (diff / 8);
        })
    else (let diff = sub32 r.round_trip_time rtt in
        record r {
          round_trip_time_variance = add32 variance (diff / 4);
          round_trip_time = sub32 r.round_trip_time (diff / 8);
        })

-- The first sample is taken as it is.
unfoldable pub first_sample : (rtt : ℕ) → RoundTrip → RoundTrip
first_sample rtt r = record r { round_trip_time = rtt; round_trip_time_variance = add32 rtt 1 / 2 }

-- The extremes since the last epoch.
unfoldable pub track_extremes : RoundTrip → RoundTrip
track_extremes r = record r {
  lowest_round_trip_time =
      (if ltb r.round_trip_time r.lowest_round_trip_time
        then r.round_trip_time
        else r.lowest_round_trip_time);
  highest_round_trip_time_variance =
      (if ltb r.highest_round_trip_time_variance r.round_trip_time_variance
        then r.round_trip_time_variance
        else r.highest_round_trip_time_variance);
}

-- Whether a throttle epoch ends, and the estimates with which the next one starts.
unfoldable pub epoch_ends : (service_time : ℕ) → Throttle → Bool
unfolding time_difference
epoch_ends service_time t =
    t.packet_throttle_epoch == 0
    || leb t.packet_throttle_interval (time_difference service_time t.packet_throttle_epoch)

unfoldable pub start_epoch : RoundTrip → RoundTrip
start_epoch r = record r {
  last_round_trip_time = r.lowest_round_trip_time;
  last_round_trip_time_variance = max r.highest_round_trip_time_variance 1;
  lowest_round_trip_time = r.round_trip_time;
  highest_round_trip_time_variance = r.round_trip_time_variance;
}

-- All that a sample of the round trip time changes in the peer.
unfoldable pub take_sample : (service_time rtt : ℕ) → Peer → Peer
unfolding adjust_throttle smooth first_sample track_extremes epoch_ends start_epoch
take_sample service_time rtt p =
    let first = p.last_receive_time == 0 in
    let t = if first then p.throttle else adjust_throttle rtt p.round_trip p.throttle in
    let r =
      track_extremes (if first then first_sample rtt p.round_trip else smooth rtt p.round_trip) in
    let ends = epoch_ends service_time t in
    record p {
      throttle = (if ends then record t { packet_throttle_epoch = service_time } else t);
      round_trip = (if ends then start_epoch r else r);
      timing = record p.timing { last_receive_time = max service_time 1; earliest_timeout = 0 };
    }
