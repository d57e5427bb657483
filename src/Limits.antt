-- ===== src/Limits.antt =====
-- Limits that hosts agree on: bandwidth, window size, channels and the throttle's parameters.
-- Functions of src/c/host.rs and handlers of src/c/protocol.rs.
pub mod Bounds
use rusty_enet.Base.{
  ℕ, ◌*◌, ◌/◌, Bool, true, false, ◌&&◌, ◌||◌, ltb, ◌==◌, if◌then◌else◌, add_size, sub_size, mul32,
}
use rusty_enet.Peer.{is_connected, Peer, Host, Context, Outcome, accepted, rejected}

-- The `if` on a window size that ends three functions.
unfoldable pub clamp_window : ℕ → ℕ
clamp_window w = if ltb w 4096 then 4096 else if ltb 65536 w then 65536 else w

-- One 4096-byte unit for each 64 KiB of bandwidth.
unfoldable pub scale_window : ℕ → ℕ
scale_window bandwidth = mul32 (bandwidth / (64 * 1024)) 4096

-- The window that the bandwidths of two ends allow: 0 stands for no limit.
unfoldable pub shared_window : (ours theirs : ℕ) → ℕ
unfolding clamp_window scale_window
shared_window ours theirs = clamp_window (
    if ours == 0 && theirs == 0
    then 65536
    else if ours == 0 || theirs == 0
    then scale_window (if ltb theirs ours then ours else theirs)
    else scale_window (if ltb ours theirs then ours else theirs))

-- The window that one end's bandwidth allows, before it is held within its bounds.
unfoldable pub own_window : ℕ → ℕ
unfolding scale_window
own_window bandwidth = if bandwidth == 0 then 65536 else scale_window bandwidth

-- The mtu in a connect or verify command, held within its bounds.
unfoldable pub clamp_mtu : ℕ → ℕ
clamp_mtu mtu = if ltb mtu 576 then 576 else if ltb 4096 mtu then 4096 else mtu

-- `enet_host_channel_limit`, and the same test in `enet_host_create`.
unfoldable pub set_channel_limit : ℕ → Host → Host
set_channel_limit limit h = record h {
  channel_limit = (if limit == 0 || ltb 255 limit then 255 else if ltb limit 1 then 1 else limit);
}

-- `enet_host_bandwidth_limit`.
unfoldable pub set_bandwidth_limit : (incoming outgoing : ℕ) → Host → Host
set_bandwidth_limit incoming outgoing h = record h {
  incoming_bandwidth = incoming;
  outgoing_bandwidth = outgoing;
  recalculate_bandwidth_limits = true;
}

-- `enet_protocol_handle_bandwidth_limit`.
unfoldable pub handle_bandwidth_limit : (incoming outgoing : ℕ) → Context → Outcome
unfolding shared_window
handle_bandwidth_limit incoming outgoing c =
    let limited =
      if c.peer.incoming_bandwidth == 0
      then c.host.bandwidth_limited_peers
      else sub_size c.host.bandwidth_limited_peers 1 in
    let c' : Context = record c {
      host = record c.host {
        bandwidth_limited_peers = (if incoming == 0 then limited else add_size limited 1);
      };
      peer = record c.peer {
        traffic = record c.peer.traffic {
          incoming_bandwidth = incoming;
          outgoing_bandwidth = outgoing;
        };
        flow = record c.peer.flow {
          window_size = shared_window c.host.outgoing_bandwidth incoming;
        };
      };
    } in
    if is_connected c.peer.state then accepted c' else rejected c

-- `enet_protocol_handle_throttle_configure`.
unfoldable pub handle_throttle_configure :
    (interval acceleration deceleration : ℕ) → Context → Outcome
handle_throttle_configure i a d c =
    if is_connected c.peer.state
    then accepted (record c {
      peer = record c.peer {
        throttle = record c.peer.throttle {
          packet_throttle_interval = i;
          packet_throttle_acceleration = a;
          packet_throttle_deceleration = d;
        };
      };
    })
    else rejected c

-- `enet_protocol_handle_ping`.
unfoldable pub handle_ping : Context → Outcome
handle_ping c = if is_connected c.peer.state then accepted c else rejected c
