-- ===== src/Protocol.antt =====
-- The commands of the wire protocol: the structs and constants of src/c/protocol.rs.
-- A multi-byte field holds the value whose big-endian form the source stores, so `to_be` and
-- `from_be` are not written here.
use rusty_enet.Base.{ℕ, Bool}

-- The fields after the command header, one record or constructor for each struct of the union.
pub record ConnectBody : Type 0 where
  pub outgoing_peer_id : ℕ
  pub incoming_session_id : ℕ
  pub outgoing_session_id : ℕ
  pub mtu : ℕ
  pub window_size : ℕ
  pub channel_count : ℕ
  pub incoming_bandwidth : ℕ
  pub outgoing_bandwidth : ℕ
  pub packet_throttle_interval : ℕ
  pub packet_throttle_acceleration : ℕ
  pub packet_throttle_deceleration : ℕ
  pub connect_id : ℕ

pub record FragmentBody : Type 0 where
  pub start_sequence_number : ℕ
  pub data_length : ℕ
  pub fragment_count : ℕ
  pub fragment_number : ℕ
  pub total_length : ℕ
  pub fragment_offset : ℕ

pub data Body : Type 0 where
  acknowledge : (received_reliable_sequence_number received_sent_time : ℕ) → Body
  connect : ConnectBody → (connect_data : ℕ) → Body
  verify_connect : ConnectBody → Body
  disconnect : (disconnect_data : ℕ) → Body
  ping : Body
  send_reliable : (data_length : ℕ) → Body
  send_unreliable : (unreliable_sequence_number data_length : ℕ) → Body
  send_fragment : FragmentBody → Body
  send_unsequenced : (unsequenced_group data_length : ℕ) → Body
  bandwidth_limit : (incoming_bandwidth outgoing_bandwidth : ℕ) → Body
  throttle_configure : (interval acceleration deceleration : ℕ) → Body
  send_unreliable_fragment : FragmentBody → Body

-- `header.command & ENET_PROTOCOL_COMMAND_MASK`.
abbrev pub command_number : Body → ℕ
command_number (acknowledge _ _) = 1
command_number (connect _ _) = 2
command_number (verify_connect _) = 3
command_number (disconnect _) = 4
command_number ping = 5
command_number (send_reliable _) = 6
command_number (send_unreliable _ _) = 7
command_number (send_fragment _) = 8
command_number (send_unsequenced _ _) = 9
command_number (bandwidth_limit _ _) = 10
command_number (throttle_configure _ _ _) = 11
command_number (send_unreliable_fragment _) = 12

-- `COMMAND_SIZES`: the size of each packed struct, its four-byte command header included.
abbrev pub command_size : Body → ℕ
command_size (acknowledge _ _) = 8
command_size (connect _ _) = 48
command_size (verify_connect _) = 44
command_size (disconnect _) = 8
command_size ping = 4
command_size (send_reliable _) = 6
command_size (send_unreliable _ _) = 8
command_size (send_fragment _) = 24
command_size (send_unsequenced _ _) = 8
command_size (bandwidth_limit _ _) = 12
command_size (throttle_configure _ _ _) = 16
command_size (send_unreliable_fragment _) = 24

-- The union. Bits 7 and 6 of the command byte are the two flags, the low four its number.
pub record Command : Type 0 where
  pub flag_acknowledge : Bool
  pub flag_unsequenced : Bool
  pub channel_id : ℕ
  pub reliable_sequence_number : ℕ
  pub body : Body
