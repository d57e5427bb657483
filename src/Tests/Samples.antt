-- ===== src/Tests/Samples.antt =====
-- A host with one peer, and the small data on which the theorems are tried.
use rusty_enet.Base.{ℕ, ◌+◌, true, false, List, [], ◌∷◌, none, Bool, replicate}
use rusty_enet.Protocol.{ConnectBody, Command, send_reliable}
use rusty_enet.Packet.{Packet}
use rusty_enet.Peer.{
  connecting, connected, IncomingCommand, Channel, Throttle, RoundTrip, Peer, Host, Context,
}

abbrev pub reliable_command : (number : ℕ) → Command
reliable_command number = record {
  flag_acknowledge = true;
  flag_unsequenced = false;
  channel_id = 0;
  reliable_sequence_number = number;
  body = send_reliable 3;
}

abbrev pub packet : (flags : ℕ) → Packet
packet flags = record { reference_count = 1; flags = flags; contents = 4 ∷ 5 ∷ 6 ∷ [] }

abbrev pub incoming : (number : ℕ) → IncomingCommand
incoming number = record {
  address = number + 100;
  reliable_sequence_number = number;
  unreliable_sequence_number = 0;
  command = reliable_command number;
  fragment_count = 0;
  fragments_remaining = 0;
  fragments = [];
  packet = packet 1;
}

-- The numbers 5, 6 and 8 wait, and 4 was the last to be delivered.
abbrev pub channel : Channel
channel = record {
  outgoing_reliable_sequence_number = 65534;
  outgoing_unreliable_sequence_number = 2;
  used_reliable_windows = 0;
  reliable_windows = replicate 16 0;
  incoming_reliable_sequence_number = 4;
  incoming_unreliable_sequence_number = 0;
  incoming_reliable_commands = incoming 5 ∷ incoming 6 ∷ incoming 8 ∷ [];
  incoming_unreliable_commands = [];
}

abbrev pub throttle : Throttle
throttle = record {
  packet_throttle = 30;
  packet_throttle_limit = 32;
  packet_throttle_counter = 0;
  packet_throttle_epoch = 0;
  packet_throttle_acceleration = 4294967295;
  packet_throttle_deceleration = 2;
  packet_throttle_interval = 5000;
}

abbrev pub round_trip : RoundTrip
round_trip = record {
  last_round_trip_time = 100;
  lowest_round_trip_time = 90;
  last_round_trip_time_variance = 20;
  highest_round_trip_time_variance = 40;
  round_trip_time = 100;
  round_trip_time_variance = 20;
}

abbrev pub peer : (needs_dispatch : Bool) → Peer
peer needs_dispatch = record {
  link = record {
    outgoing_peer_id = 1;
    incoming_peer_id = 3;
    connect_id = 77;
    outgoing_session_id = 0;
    incoming_session_id = 0;
    state = connected;
    event_data = 0;
    needs_dispatch = needs_dispatch;
    continue_sending = false;
  };
  traffic = record {
    incoming_bandwidth = 57600;
    outgoing_bandwidth = 0;
    incoming_bandwidth_throttle_epoch = 0;
    outgoing_bandwidth_throttle_epoch = 0;
    incoming_data_total = 0;
    outgoing_data_total = 0;
    packet_loss_epoch = 0;
    packets_sent = 0;
    packets_lost = 0;
    packet_loss = 0;
    packet_loss_variance = 0;
  };
  throttle = throttle;
  timing = record {
    last_send_time = 0;
    last_receive_time = 0;
    next_timeout = 0;
    earliest_timeout = 0;
    ping_interval = 500;
    timeout_limit = 32;
    timeout_minimum = 5000;
    timeout_maximum = 30000;
  };
  round_trip = round_trip;
  flow = record {
    mtu = 1392;
    window_size = 65536;
    reliable_data_in_transit = 0;
    outgoing_reliable_sequence_number = 0;
    incoming_unsequenced_group = 0;
    outgoing_unsequenced_group = 0;
    unsequenced_window = replicate 1024 false;
    total_waiting_data = 0;
  };
  queues = record {
    channels = channel ∷ [];
    channel_count = 1;
    acknowledgements = [];
    sent_reliable_commands = [];
    outgoing_send_reliable_commands = [];
    outgoing_commands = [];
    dispatched_commands = [];
  };
}

-- Two other peers are connected, neither of them limited.
abbrev pub host : (dispatch_queue : List ℕ) → Host
host dispatch_queue = record {
  mtu = 1392;
  incoming_bandwidth = 0;
  outgoing_bandwidth = 0;
  bandwidth_throttle_epoch = 0;
  recalculate_bandwidth_limits = false;
  channel_limit = 255;
  service_time = 1000;
  dispatch_queue = dispatch_queue;
  total_queued = 0;
  has_checksum = false;
  connected_peers = 3;
  bandwidth_limited_peers = 1;
  duplicate_peers = 4095;
  maximum_packet_size = 33554432;
  maximum_waiting_data = 33554432;
  using_new_packet = true;
  packets = λ a. none;
}

abbrev pub quiet : Context
quiet = record { host = host []; peer = peer false; event = none }

-- The peer stands in the dispatch queue.
abbrev pub waiting : Context
waiting = record { host = host (3 ∷ []); peer = peer true; event = none }

-- A peer that waits for the answer to its connection request, and the answer.
abbrev pub asking : Context
asking =
    let p = peer false in
    record quiet { peer = record p { link = record p.link { state = connecting } } }

abbrev pub answer : ConnectBody
answer = record {
  outgoing_peer_id = 2;
  incoming_session_id = 1;
  outgoing_session_id = 1;
  mtu = 500;
  window_size = 32768;
  channel_count = 1;
  incoming_bandwidth = 0;
  outgoing_bandwidth = 8000;
  packet_throttle_interval = 5000;
  packet_throttle_acceleration = 4294967295;
  packet_throttle_deceleration = 2;
  connect_id = 77;
}
