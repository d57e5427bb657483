-- ===== src/Network/Creating.antt =====
-- A new host: `Host::new` of src/host.rs and `enet_host_create` of src/c/host.rs.
use rusty_enet.Base.{
  ℕ, zero, suc, ◌+◌, ◌*◌, ◌/◌, ◌%◌, ◌^◌, Bool, true, false, ◌||◌, List, [], ◌∷◌, Option, none, some,
  ltb, ◌==◌, if◌then◌else◌, add32, bit_or, u32, replicate,
}
use rusty_enet.Peer.{disconnected, Peer, Host}
use rusty_enet.Connection.{reset}
use rusty_enet.Limits.{set_channel_limit}
use rusty_enet.Network.{Slot, Network}

-- `HostSettings`. The compressor is a parameter where datagrams are read and sent, the clock an argument
-- of its own, and `checksum` is whether there is one.
pub record HostSettings : Type 0 where
  pub peer_limit : ℕ
  pub channel_limit : ℕ
  pub incoming_bandwidth_limit : Option ℕ
  pub outgoing_bandwidth_limit : Option ℕ
  pub checksum : Bool
  pub seed : Option ℕ
  pub using_new_packet : Bool

-- The setting that a bad parameter is.
pub data Setting : Type 0 where
  bad_channel_limit bad_incoming_limit bad_outgoing_limit bad_peer_limit : Setting

pub data HostNewError (E : Type 0) : Type 0 where
  bad_parameter : Setting → HostNewError E
  failed_to_initialize_socket : E → HostNewError E

pub data Creation (A E : Type 0) : Type 0 where
  created : Network A → Creation A E
  not_created : HostNewError E → Creation A E

-- A peer in memory that was set to zero. Its windows are those of `enet_peer_reset`.
abbrev pub zero_peer : Peer
zero_peer = record {
  link = record {
    outgoing_peer_id = 0;
    incoming_peer_id = 0;
    connect_id = 0;
    outgoing_session_id = 0;
    incoming_session_id = 0;
    state = disconnected;
    event_data = 0;
    needs_dispatch = false;
    continue_sending = false;
  };
  traffic = record {
    incoming_bandwidth = 0;
    outgoing_bandwidth = 0;
    incoming_bandwidth_throttle_epoch = 0;
    outgoing_bandwidth_throttle_epoch = 0;
    incoming_data_total = 0;
    outgoing_data_total = 0;
    packet_loss_epoch = 0;
    packets_sent = 0;
    packets_lost = 0;
    packet_loss = 0;
    packet_loss_variance = 0;
  };
  throttle = record {
    packet_throttle = 0;
    packet_throttle_limit = 0;
    packet_throttle_counter = 0;
    packet_throttle_epoch = 0;
    packet_throttle_acceleration = 0;
    packet_throttle_deceleration = 0;
    packet_throttle_interval = 0;
  };
  timing = record {
    last_send_time = 0;
    last_receive_time = 0;
    next_timeout = 0;
    earliest_timeout = 0;
    ping_interval = 0;
    timeout_limit = 0;
    timeout_minimum = 0;
    timeout_maximum = 0;
  };
  round_trip = record {
    last_round_trip_time = 0;
    lowest_round_trip_time = 0;
    last_round_trip_time_variance = 0;
    highest_round_trip_time_variance = 0;
    round_trip_time = 0;
    round_trip_time_variance = 0;
  };
  flow = record {
    mtu = 0;
    window_size = 0;
    reliable_data_in_transit = 0;
    outgoing_reliable_sequence_number = 0;
    incoming_unsequenced_group = 0;
    outgoing_unsequenced_group = 0;
    unsequenced_window = replicate 1024 false;
    total_waiting_data = 0;
  };
  queues = record {
    channels = [];
    channel_count = 0;
    acknowledgements = [];
    sent_reliable_commands = [];
    outgoing_send_reliable_commands = [];
    outgoing_commands = [];
    dispatched_commands = [];
  };
}

unfoldable pub number_peer_slot : (index : ℕ) → Peer
number_peer_slot i = record zero_peer {
  link = record zero_peer.link {
    incoming_peer_id = i % 2 ^ 16;
    incoming_session_id = 255;
    outgoing_session_id = 255;
  };
}

unfoldable pub new_host : (using_new_packet : Bool) (channel_limit incoming outgoing : ℕ) → Host
new_host new_packet limit incoming outgoing = set_channel_limit limit (record {
  mtu = 1392;
  incoming_bandwidth = incoming;
  outgoing_bandwidth = outgoing;
  bandwidth_throttle_epoch = 0;
  recalculate_bandwidth_limits = false;
  channel_limit = 0;
  service_time = 0;
  dispatch_queue = [];
  total_queued = 0;
  has_checksum = false;
  connected_peers = 0;
  bandwidth_limited_peers = 0;
  duplicate_peers = 4095;
  maximum_packet_size = 32 * 1024 * 1024;
  maximum_waiting_data = 32 * 1024 * 1024;
  using_new_packet = new_packet;
  packets = λ a. none;
})

-- Without a seed, the address of the host in memory and the time make one.
abbrev pub make_seed : (address time : ℕ) → Option ℕ → ℕ
make_seed address time none =
    let s = add32 (u32 address) time in bit_or (u32 (s * 2 ^ 16)) (s / 2 ^ 16)
make_seed address time (some s) = s

abbrev pub limit_or_zero : Option ℕ → ℕ
limit_or_zero none = 0
limit_or_zero (some n) = n

abbrev pub is_zero : Option ℕ → Bool
is_zero none = false
is_zero (some n) = n == 0

module _ {A : Type 0} where
  unfoldable pub make_slots : Host → (index count : ℕ) → List (Slot A)
  unfolding number_peer_slot
  make_slots h i zero = []
  make_slots h i (suc n) =
      record {
        peer = (reset (record { host = h; peer = number_peer_slot i; event = none })).peer;
        address = none;
      }
      ∷ make_slots h (i + 1) n

module _ {A E : Type 0} where
  -- `enet_host_create`, where the socket is initialised, or reports an error.
  unfoldable pub host_create : (socket : Option E) (address time : ℕ) → HostSettings → Creation A E
  unfolding new_host
  host_create (some e) address time s = not_created (failed_to_initialize_socket e)
  host_create none address time s =
      let h =
        new_host s.using_new_packet s.channel_limit (limit_or_zero s.incoming_bandwidth_limit)
          (limit_or_zero s.outgoing_bandwidth_limit) in
      created (record {
        host = h;
        random_seed = make_seed address time s.seed;
        received_address = none;
        slots = make_slots h 0 s.peer_limit;
      })

  abbrev pub set_checksum : Bool → Creation A E → Creation A E
  set_checksum c (not_created e) = not_created e
  set_checksum c (created n) =
      if c then created (record n { host = record n.host { has_checksum = true } }) else created n

  -- `Host::new`.
  unfoldable pub host_new : (socket : Option E) (address time : ℕ) → HostSettings → Creation A E
  host_new socket address time s =
      if s.channel_limit == 0
      then not_created (bad_parameter bad_channel_limit)
      else if is_zero s.incoming_bandwidth_limit
      then not_created (bad_parameter bad_incoming_limit)
      else if is_zero s.outgoing_bandwidth_limit
      then not_created (bad_parameter bad_outgoing_limit)
      else if s.peer_limit == 0 || ltb 4095 s.peer_limit
      then not_created (bad_parameter bad_peer_limit)
      else set_checksum s.checksum (host_create socket address time s)
