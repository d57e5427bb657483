-- ===== src/Peer.antt =====
-- The state of a host and of its peers: the structs of src/c.rs, src/c/peer.rs and src/c/host.rs.
-- An intrusive list is a `List`, first element first. `address` and `data` of a peer, and what a
-- host keeps for its socket, clock, checksum and compressor are not part of the state.
use rusty_enet.Base.{ℕ, Bool, true, false, List, Option}
use rusty_enet.Protocol.{Command}
use rusty_enet.Packet.{Packet, Packets}

-- `ENET_PEER_STATE_*`.
pub data PeerState : Type 0 where
  disconnected connecting acknowledging_connect connection_pending : PeerState
  connection_succeeded connected disconnect_later disconnecting : PeerState
  acknowledging_disconnect zombie : PeerState

-- `ENetOutgoingCommand`; a packet is the address of one in `Host.packets`.
pub record OutgoingCommand : Type 0 where
  pub reliable_sequence_number : ℕ
  pub unreliable_sequence_number : ℕ
  pub sent_time : ℕ
  pub round_trip_timeout : ℕ
  pub queue_time : ℕ
  pub fragment_offset : ℕ
  pub fragment_length : ℕ
  pub send_attempts : ℕ
  pub command : Command
  pub packet : Option ℕ

-- `ENetIncomingCommand`. Nothing else refers to its packet, so the packet itself stands here.
-- `address` is where the allocator put the command: the source compares such pointers.
-- A bit set, `fragments` here and
-- `unsequenced_window` below, is a list of Booleans, one for each of its bits.
pub record IncomingCommand : Type 0 where
  pub address : ℕ
  pub reliable_sequence_number : ℕ
  pub unreliable_sequence_number : ℕ
  pub command : Command
  pub fragment_count : ℕ
  pub fragments_remaining : ℕ
  pub fragments : List Bool
  pub packet : Packet

-- `ENetAcknowledgement`.
pub record Acknowledgement : Type 0 where
  pub sent_time : ℕ
  pub command : Command

-- `ENetChannel`.
pub record Channel : Type 0 where
  pub outgoing_reliable_sequence_number : ℕ
  pub outgoing_unreliable_sequence_number : ℕ
  pub used_reliable_windows : ℕ
  pub reliable_windows : List ℕ
  pub incoming_reliable_sequence_number : ℕ
  pub incoming_unreliable_sequence_number : ℕ
  pub incoming_reliable_commands : List IncomingCommand
  pub incoming_unreliable_commands : List IncomingCommand

-- The fields of `ENetPeer` in groups: who the peer is,
pub record Link : Type 0 where
  pub outgoing_peer_id : ℕ
  pub incoming_peer_id : ℕ
  pub connect_id : ℕ
  pub outgoing_session_id : ℕ
  pub incoming_session_id : ℕ
  pub state : PeerState
  pub event_data : ℕ
  pub needs_dispatch : Bool
  pub continue_sending : Bool

-- the traffic,
pub record Traffic : Type 0 where
  pub incoming_bandwidth : ℕ
  pub outgoing_bandwidth : ℕ
  pub incoming_bandwidth_throttle_epoch : ℕ
  pub outgoing_bandwidth_throttle_epoch : ℕ
  pub incoming_data_total : ℕ
  pub outgoing_data_total : ℕ
  pub packet_loss_epoch : ℕ
  pub packets_sent : ℕ
  pub packets_lost : ℕ
  pub packet_loss : ℕ
  pub packet_loss_variance : ℕ

-- the throttle on unreliable packets,
pub record Throttle : Type 0 where
  pub packet_throttle : ℕ
  pub packet_throttle_limit : ℕ
  pub packet_throttle_counter : ℕ
  pub packet_throttle_epoch : ℕ
  pub packet_throttle_acceleration : ℕ
  pub packet_throttle_deceleration : ℕ
  pub packet_throttle_interval : ℕ

-- times and timeouts,
pub record Timing : Type 0 where
  pub last_send_time : ℕ
  pub last_receive_time : ℕ
  pub next_timeout : ℕ
  pub earliest_timeout : ℕ
  pub ping_interval : ℕ
  pub timeout_limit : ℕ
  pub timeout_minimum : ℕ
  pub timeout_maximum : ℕ

-- the round trip time,
pub record RoundTrip : Type 0 where
  pub last_round_trip_time : ℕ
  pub lowest_round_trip_time : ℕ
  pub last_round_trip_time_variance : ℕ
  pub highest_round_trip_time_variance : ℕ
  pub round_trip_time : ℕ
  pub round_trip_time_variance : ℕ

-- limits and sequence numbers of the whole peer,
pub record Flow : Type 0 where
  pub mtu : ℕ
  pub window_size : ℕ
  pub reliable_data_in_transit : ℕ
  pub outgoing_reliable_sequence_number : ℕ
  pub incoming_unsequenced_group : ℕ
  pub outgoing_unsequenced_group : ℕ
  pub unsequenced_window : List Bool
  pub total_waiting_data : ℕ

-- and the queues. `channel_count` is stored, since a peer may lower it below its allocation.
pub record Queues : Type 0 where
  pub channels : List Channel
  pub channel_count : ℕ
  pub acknowledgements : List Acknowledgement
  pub sent_reliable_commands : List OutgoingCommand
  pub outgoing_send_reliable_commands : List OutgoingCommand
  pub outgoing_commands : List OutgoingCommand
  pub dispatched_commands : List IncomingCommand

-- `ENetPeer`.
pub record Peer : Type 0 where
  pub link : Link
  pub open link use *
  pub traffic : Traffic
  pub open traffic use *
  pub throttle : Throttle
  pub open throttle use *
  pub timing : Timing
  pub open timing use *
  pub round_trip : RoundTrip
  pub open round_trip use *
  pub flow : Flow
  pub open flow use *
  pub queues : Queues
  pub open queues use *

-- `ENetHost` without its peers. `dispatch_queue` holds the `incoming_peer_id` of the peers that
-- wait in it; `has_checksum` is whether `checksum` is set.
pub record Host : Type 0 where
  pub mtu : ℕ
  pub incoming_bandwidth : ℕ
  pub outgoing_bandwidth : ℕ
  pub bandwidth_throttle_epoch : ℕ
  pub recalculate_bandwidth_limits : Bool
  pub channel_limit : ℕ
  pub service_time : ℕ
  pub dispatch_queue : List ℕ
  pub total_queued : ℕ
  pub has_checksum : Bool
  pub connected_peers : ℕ
  pub bandwidth_limited_peers : ℕ
  pub duplicate_peers : ℕ
  pub maximum_packet_size : ℕ
  pub maximum_waiting_data : ℕ
  pub using_new_packet : Bool
  pub packets : Packets

-- `ENetEvent`; the peer is named by its `incoming_peer_id`.
pub data EventType : Type 0 where
  no_event connect_event disconnect_event receive_event : EventType

pub record Event : Type 0 where
  pub event_type : EventType
  pub event_peer : ℕ
  pub event_channel_id : ℕ
  pub event_packet : Option Packet
  pub event_data : ℕ

-- What the functions of the source on one peer work on: its host, the peer, and the event that the
-- caller wants filled in, if it passed a pointer to one.
pub record Context : Type 0 where
  pub host : Host
  pub peer : Peer
  pub event : Option Event

-- How a handler of a command ends: with 0, or with -1, after which the rest of the datagram is
-- dropped. What the handler has changed stays either way.
pub data Outcome : Type 0 where
  accepted rejected : Context → Outcome

abbrev pub context : Outcome → Context
context (accepted c) = c
context (rejected c) = c

-- The two states in which a peer counts as connected.
abbrev pub is_connected : PeerState → Bool
is_connected connected = true
is_connected disconnect_later = true
is_connected _ = false
