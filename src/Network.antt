-- ===== src/Network.antt =====
-- A host with all its peers, and the request for a connection: `enet_host_connect` and
-- `enet_host_random` of src/c/host.rs.
pub mod Answering
pub mod Terms
pub mod Agreement
pub mod Free
pub mod Tally
pub mod Creating
pub mod Dispatching
pub mod Steps
pub mod Reaching
pub mod Verdict
pub mod Sessions
use rusty_enet.Base.{
  ℕ, zero, suc, ◌+◌, ◌*◌, ◌/◌, ◌%◌, ◌^◌, Bool, true, false, ◌&&◌, ◌||◌, not, List, [], ◌∷◌, Option,
  none, some, ltb, leb, ◌==◌, if◌then◌else◌, add32, mul32, add_size, replicate, set, get_elem?,
  bit_xor, bit_or,
}
use rusty_enet.Protocol.{Command, Body, ConnectBody, connect, verify_connect}
use rusty_enet.Peer.{
  PeerState, disconnected, connecting, acknowledging_connect, Channel, Peer, Host, Event, Context,
}
use rusty_enet.Connection.Ending.{queue_control}
use rusty_enet.Limits.{clamp_window, clamp_mtu, own_window, shared_window}

-- The trait `Address`, whose types come from outside.
pub record Addresses (A : Type 0) : Type 0 where
  pub same_host : A → A → Bool
  pub same : A → A → Bool
  pub is_broadcast : A → Bool
  pub port : A → ℕ

-- An element of the array `peers`, with its address.
pub record Slot (A : Type 0) : Type 0 where
  pub peer : Peer
  pub address : Option A

pub record Network (A : Type 0) : Type 0 where
  pub host : Host
  pub random_seed : ℕ
  pub received_address : Option A
  pub slots : List (Slot A)

abbrev pub is_disconnected : PeerState → Bool
is_disconnected disconnected = true
is_disconnected _ = false

abbrev pub is_connecting : PeerState → Bool
is_connecting connecting = true
is_connecting _ = false

-- The new seed of `enet_host_random`, and the number that it returns for it.
abbrev pub next_seed : ℕ → ℕ
next_seed seed = add32 seed 0x6d2b79f5

unfoldable pub random : (seed : ℕ) → ℕ
random seed =
    let n = mul32 (bit_xor seed (seed / 2 ^ 15)) (bit_or seed 1) in
    let m = bit_xor n (add32 n (mul32 (bit_xor n (n / 2 ^ 7)) (bit_or n 61))) in
    bit_xor m (m / 2 ^ 14)

-- A channel that nothing has been sent on.
abbrev pub fresh_channel : Channel
fresh_channel = record {
  outgoing_reliable_sequence_number = 0;
  outgoing_unreliable_sequence_number = 0;
  used_reliable_windows = 0;
  reliable_windows = replicate 16 0;
  incoming_reliable_sequence_number = 0;
  incoming_unreliable_sequence_number = 0;
  incoming_reliable_commands = [];
  incoming_unreliable_commands = [];
}

abbrev pub clamp_channels : ℕ → ℕ
clamp_channels n = if ltb n 1 then 1 else if ltb 255 n then 255 else n

-- What a peer becomes for an outgoing request.
unfoldable pub prepare_request : Host → (count connect_id : ℕ) → Peer → Peer
prepare_request h count connect_id p = record p {
  link = record p.link { state = connecting; connect_id = connect_id };
  flow = record p.flow {
    mtu = h.mtu;
    window_size = clamp_window (own_window h.outgoing_bandwidth);
  };
  queues = record p.queues { channels = replicate count fresh_channel; channel_count = count };
}

-- The request that goes out for it.
unfoldable pub request : Host → Peer → ConnectBody
request h p = record {
  outgoing_peer_id = p.incoming_peer_id;
  incoming_session_id = p.incoming_session_id;
  outgoing_session_id = p.outgoing_session_id;
  mtu = p.mtu;
  window_size = p.window_size;
  channel_count = p.channel_count;
  incoming_bandwidth = h.incoming_bandwidth;
  outgoing_bandwidth = h.outgoing_bandwidth;
  packet_throttle_interval = p.packet_throttle_interval;
  packet_throttle_acceleration = p.packet_throttle_acceleration;
  packet_throttle_deceleration = p.packet_throttle_deceleration;
  connect_id = p.connect_id;
}

unfoldable pub start_request : Host → (count connect_id connect_data : ℕ) → Peer → Context
start_request h count connect_id d p =
    let q = prepare_request h count connect_id p in
    queue_control true false (connect (request h q) d) (record { host = h; peer = q; event = none })

module _ {A : Type 0} where
  -- The first free peer, counted from `i`.
  unfoldable pub find_free : (i : ℕ) → List (Slot A) → Option ℕ
  find_free i [] = none
  find_free i (s ∷ l) =
      let next = find_free (i + 1) l in if is_disconnected s.peer.state then some i else next

  abbrev pub peer_at : List (Slot A) → ℕ → Option Peer
  peer_at [] i = none
  peer_at (s ∷ l) zero = some s.peer
  peer_at (s ∷ l) (suc i) = peer_at l i

  abbrev pub find_peer : Network A → ℕ → Option Peer
  find_peer n i = peer_at n.slots i

  abbrev pub set_peer : List (Slot A) → ℕ → Peer → List (Slot A)
  set_peer [] i p = []
  set_peer (s ∷ l) zero p = record s { peer = p } ∷ l
  set_peer (s ∷ l) (suc i) p = s ∷ set_peer l i p

  -- The host and one of its peers, for a function that works on these.
  abbrev pub focus : Network A → Peer → Option Event → Context
  focus n p e = record { host = n.host; peer = p; event = e }

  abbrev pub restore : Network A → ℕ → Context → Network A
  restore n i c = record n { host = c.host; slots = set_peer n.slots i c.peer }

  abbrev pub put_back : Network A → ℕ → Option A → Context → Network A
  put_back n i a c = record n {
    host = c.host;
    slots = set n.slots i (record { peer = c.peer; address = a });
  }

  abbrev pub request_found :
      A → (count connect_data : ℕ) → Network A → ℕ → Option Peer → Option (ℕ × Network A)
  request_found a count d n i none = none
  request_found a count d n i (some p) =
      let seed = next_seed n.random_seed in
      some (
        i,
        put_back (record n { random_seed = seed }) i (some a)
            (start_request n.host (clamp_channels count) (random seed) d p),
      )

  abbrev pub request_at :
      A → (count connect_data : ℕ) → Network A → Option ℕ → Option (ℕ × Network A)
  request_at a count d n none = none
  request_at a count d n (some i) = request_found a count d n i (find_peer n i)

  -- `enet_host_connect`, with the index of the peer that it returns.
  unfoldable pub host_connect : A → (count connect_data : ℕ) → Network A → Option (ℕ × Network A)
  host_connect a count d n = request_at a count d n (find_free 0 n.slots)
