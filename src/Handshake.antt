-- ===== src/Handshake.antt =====
-- The answer to a connection request: `enet_protocol_handle_verify_connect` of src/c/protocol.rs.
pub mod Agreement
use rusty_enet.Base.{ℕ, Bool, true, false, ◌&&◌, ◌||◌, not, ltb, leb, ◌==◌, if◌then◌else◌, min}
use rusty_enet.Protocol.{ConnectBody}
use rusty_enet.Peer.{PeerState, connecting, zombie, Peer, Context, Outcome, accepted, rejected}
use rusty_enet.Connection.{dispatch_state, notify_connect, with_event_data}
use rusty_enet.Limits.{clamp_window, clamp_mtu}
use rusty_enet.Acknowledge.Removing.{remove_sent_reliable_command}

-- The answer is for this request: it has a valid count of channels, and repeats the throttle's
-- parameters and the connection's number.
unfoldable pub answers : ConnectBody → Peer → Bool
answers b p =
    leb 1 b.channel_count
    && leb b.channel_count 255
    && b.packet_throttle_interval == p.packet_throttle_interval
    && b.packet_throttle_acceleration == p.packet_throttle_acceleration
    && b.packet_throttle_deceleration == p.packet_throttle_deceleration
    && b.connect_id == p.connect_id

-- The peer takes the other end's identifiers and bandwidths, and the smaller of each limit.
unfoldable pub agree : ConnectBody → Peer → Peer
agree b p =
    let mtu = clamp_mtu b.mtu in
    let window = clamp_window b.window_size in
    record p {
      link = record p.link {
        outgoing_peer_id = b.outgoing_peer_id;
        incoming_session_id = b.incoming_session_id;
        outgoing_session_id = b.outgoing_session_id;
      };
      traffic = record p.traffic {
        incoming_bandwidth = b.incoming_bandwidth;
        outgoing_bandwidth = b.outgoing_bandwidth;
      };
      flow = record p.flow {
        mtu = (if ltb mtu p.mtu then mtu else p.mtu);
        window_size = (if ltb window p.window_size then window else p.window_size);
      };
      queues = record p.queues {
        channel_count =
            (if ltb b.channel_count p.channel_count then b.channel_count else p.channel_count);
      };
    }

abbrev is_connecting : PeerState → Bool
is_connecting connecting = true
is_connecting _ = false

-- The connect command, which has the number 1 on the control channel, is done.
unfoldable pub take_answer : ConnectBody → Context → Context
take_answer b c =
    let d = (remove_sent_reliable_command 1 0xff c).1 in record d { peer = agree b d.peer }

unfoldable pub handle_verify_connect : ConnectBody → Context → Outcome
handle_verify_connect b c =
    if not (is_connecting c.peer.state)
    then accepted c
    else if answers b c.peer
    then accepted (notify_connect (take_answer b c))
    else rejected (dispatch_state zombie (with_event_data 0 c))
