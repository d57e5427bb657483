-- ===== src/Connection.antt =====
-- The life of a connection: how a peer changes state, is counted by its host, is reset and is
-- reported. Functions of src/c/peer.rs and src/c/protocol.rs on one peer and its host.
pub mod Ending
pub mod Counters
pub mod History
pub mod DispatchQueue
use rusty_enet.Base.{
  ℕ, Bool, true, false, ◌&&◌, not, List, [], ◌∷◌, ◌++◌, none, some, ◌==◌, if◌then◌else◌, add_size,
  sub_size, replicate,
}
use rusty_enet.Protocol.{Command, Body, disconnect, ping, throttle_configure}
use rusty_enet.Packet.{Packets, release}
use rusty_enet.Peer.{
  PeerState, disconnected, connecting, acknowledging_connect, connection_pending,
  connection_succeeded, connected, disconnect_later, disconnecting, acknowledging_disconnect,
  zombie, is_connected, OutgoingCommand, Peer, Context, Event, EventType, connect_event,
  disconnect_event,
}
use rusty_enet.Outgoing.{queue_outgoing_command}

-- `enet_peer_on_connect`.
unfoldable pub on_connect : Context → Context
on_connect c = if is_connected c.peer.state then c else record c {
  host = record c.host {
    bandwidth_limited_peers =
        (if c.peer.incoming_bandwidth == 0
          then c.host.bandwidth_limited_peers
          else add_size c.host.bandwidth_limited_peers 1);
    connected_peers = add_size c.host.connected_peers 1;
  };
}

-- `enet_peer_on_disconnect`.
unfoldable pub on_disconnect : Context → Context
on_disconnect c =
    if is_connected c.peer.state
    then record c {
      host = record c.host {
        bandwidth_limited_peers =
            (if c.peer.incoming_bandwidth == 0
              then c.host.bandwidth_limited_peers
              else sub_size c.host.bandwidth_limited_peers 1);
        connected_peers = sub_size c.host.connected_peers 1;
      };
    }
    else c

-- Unlinking a peer's node from the dispatch queue.
unfoldable pub unlink : ℕ → List ℕ → List ℕ
unlink i [] = []
unlink i (j ∷ q) = if j == i then q else j ∷ unlink i q

-- `enet_peer_reset_outgoing_commands`: what freeing a queue does to the packets.
unfoldable pub release_commands : List OutgoingCommand → Packets → Packets
unfolding release
release_commands [] m = m
release_commands (o ∷ os) m = elim o.packet [
  | none ↦ release_commands os m
  | some a ↦ release_commands os (release a m)
]

-- `enet_peer_reset_queues`. The packets of incoming commands belong to those alone and go with
-- them.
unfoldable pub reset_queues : Context → Context
unfolding release_commands unlink
reset_queues c = record c {
  host = record c.host {
    dispatch_queue =
        (if c.peer.needs_dispatch
          then unlink c.peer.incoming_peer_id c.host.dispatch_queue
          else c.host.dispatch_queue);
    packets = release_commands c.peer.outgoing_send_reliable_commands (
        release_commands c.peer.outgoing_commands
          (release_commands c.peer.sent_reliable_commands c.host.packets));
  };
  peer = record c.peer {
    link = record c.peer.link { needs_dispatch = false };
    queues = record {
      channels = [];
      channel_count = 0;
      acknowledgements = [];
      sent_reliable_commands = [];
      outgoing_send_reliable_commands = [];
      outgoing_commands = [];
      dispatched_commands = [];
    };
  };
}

-- The fields that `enet_peer_reset` writes. `incoming_peer_id` and the session ids stay; `flags` is
-- cleared here, before the queues are.
unfoldable pub reset_fields : (host_mtu : ℕ) → Peer → Peer
reset_fields host_mtu p = record p {
  link = record p.link {
    outgoing_peer_id = 4095;
    connect_id = 0;
    state = disconnected;
    event_data = 0;
    needs_dispatch = false;
    continue_sending = false;
  };
  traffic = record {
    incoming_bandwidth = 0;
    outgoing_bandwidth = 0;
    incoming_bandwidth_throttle_epoch = 0;
    outgoing_bandwidth_throttle_epoch = 0;
    incoming_data_total = 0;
    outgoing_data_total = 0;
    packet_loss_epoch = 0;
    packets_sent = 0;
    packets_lost = 0;
    packet_loss = 0;
    packet_loss_variance = 0;
  };
  throttle = record {
    packet_throttle = 32;
    packet_throttle_limit = 32;
    packet_throttle_counter = 0;
    packet_throttle_epoch = 0;
    packet_throttle_acceleration = 2;
    packet_throttle_deceleration = 2;
    packet_throttle_interval = 5000;
  };
  timing = record {
    last_send_time = 0;
    last_receive_time = 0;
    next_timeout = 0;
    earliest_timeout = 0;
    ping_interval = 500;
    timeout_limit = 32;
    timeout_minimum = 5000;
    timeout_maximum = 30000;
  };
  round_trip = record {
    last_round_trip_time = 500;
    lowest_round_trip_time = 500;
    last_round_trip_time_variance = 0;
    highest_round_trip_time_variance = 0;
    round_trip_time = 500;
    round_trip_time_variance = 0;
  };
  flow = record {
    mtu = host_mtu;
    window_size = 65536;
    reliable_data_in_transit = 0;
    outgoing_reliable_sequence_number = 0;
    incoming_unsequenced_group = 0;
    outgoing_unsequenced_group = 0;
    unsequenced_window = replicate 1024 false;
    total_waiting_data = 0;
  };
}

-- `enet_peer_reset`.
unfoldable pub reset : Context → Context
unfolding on_disconnect reset_queues reset_fields
reset c =
    let c' = on_disconnect c in reset_queues (record c' { peer = reset_fields c'.host.mtu c'.peer })

abbrev pub with_state : PeerState → Peer → Peer
with_state s p = record p { link = record p.link { state = s } }

-- `enet_protocol_change_state`.
unfoldable pub change_state : PeerState → Context → Context
unfolding on_connect on_disconnect
change_state s c =
    let c' = if is_connected s then on_connect c else on_disconnect c in
    record c' { peer = with_state s c'.peer }

-- The tail of several functions: the peer enters the dispatch queue unless it is in it.
unfoldable pub schedule_dispatch : Context → Context
schedule_dispatch c = if c.peer.needs_dispatch then c else record c {
  host = record c.host { dispatch_queue = c.host.dispatch_queue ++ (c.peer.incoming_peer_id ∷ []) };
  peer = record c.peer { link = record c.peer.link { needs_dispatch = true } };
}

-- `enet_protocol_dispatch_state`.
unfoldable pub dispatch_state : PeerState → Context → Context
unfolding change_state schedule_dispatch
dispatch_state s c = schedule_dispatch (change_state s c)

abbrev recalculate : Context → Context
recalculate c = record c { host = record c.host { recalculate_bandwidth_limits = true } }

abbrev report : EventType → ℕ → Context → Event → Context
report t d c e = record c {
  event = some (record e { event_type = t; event_peer = c.peer.incoming_peer_id; event_data = d });
}

-- `enet_protocol_notify_connect`.
unfoldable pub notify_connect : Context → Context
unfolding change_state dispatch_state
notify_connect c = elim c.event [
  | none ↦
      dispatch_state
        (elim c.peer.state [ connecting ↦ connection_succeeded | _ ↦ connection_pending ])
        (recalculate c)
  | some e ↦
      let c' = change_state connected (recalculate c) in
      report connect_event c'.peer.event_data c' e
]

-- `state >= ENET_PEER_STATE_CONNECTION_PENDING`.
abbrev pub is_established : PeerState → Bool
is_established disconnected = false
is_established connecting = false
is_established acknowledging_connect = false
is_established _ = true

-- `state != CONNECTING && state < CONNECTION_SUCCEEDED`.
abbrev pub is_unreported : PeerState → Bool
is_unreported disconnected = true
is_unreported acknowledging_connect = true
is_unreported connection_pending = true
is_unreported _ = false

abbrev pub with_event_data : ℕ → Context → Context
with_event_data d c = record c {
  peer = record c.peer { link = record c.peer.link { event_data = d } };
}

-- `enet_protocol_notify_disconnect`.
unfoldable pub notify_disconnect : Context → Context
unfolding reset dispatch_state
notify_disconnect c =
    let c' = if is_established c.peer.state then recalculate c else c in
    if is_unreported c'.peer.state then reset c' else elim c'.event [
      | none ↦ dispatch_state zombie (with_event_data 0 c')
      | some e ↦ reset (report disconnect_event 0 c' e)
    ]

-- `enet_peer_has_outgoing_commands`.
abbrev pub is_empty : List OutgoingCommand → Bool
is_empty [] = true
is_empty (_ ∷ _) = false

unfoldable pub has_outgoing_commands : Peer → Bool
has_outgoing_commands p = not (
    is_empty p.outgoing_commands
    && is_empty p.outgoing_send_reliable_commands
    && is_empty p.sent_reliable_commands)
