-- ===== src/Datagram.antt =====
-- The datagram that is being filled: the fields `commands`, `buffers` and `packet_size` of `ENetHost`,
-- `enet_protocol_send_acknowledgements` and `enet_protocol_remove_sent_unreliable_commands` of
-- src/c/protocol.rs.
pub mod Choosing
pub mod Filling
pub mod Ending
pub mod Rounds
pub mod Moves
pub mod Room
pub mod Acknowledging
pub mod Transit
pub mod Dropping
pub mod Conservation
use rusty_enet.Base.{
  ℕ, ◌+◌, Bool, true, false, ◌&&◌, ◌||◌, not, List, [], ◌∷◌, ◌++◌, Option, none, some, ltb, leb,
  ◌==◌, if◌then◌else◌, add_size, sub_size, u16, length,
}
use rusty_enet.Protocol.{Command, Body, acknowledge, disconnect, command_size}
use rusty_enet.Packet.{Packets, release}
use rusty_enet.Peer.{
  PeerState, disconnect_later, zombie, OutgoingCommand, Acknowledgement, Peer, Context,
}
use rusty_enet.Connection.{dispatch_state, has_outgoing_commands}
use rusty_enet.Connection.Ending.{peer_disconnect}

-- What a buffer holds beside a command: the address of a packet, and a part of its bytes.
pub record Part : Type 0 where
  pub packet : ℕ
  pub offset : ℕ
  pub size : ℕ

-- An element of `commands`, and the buffer behind it if there is one.
pub record Entry : Type 0 where
  pub command : Command
  pub part : Option Part

pub record Datagram : Type 0 where
  pub entries : List Entry
  pub command_count : ℕ
  pub buffer_count : ℕ
  pub packet_size : ℕ
  pub has_sent_time : Bool

abbrev pub part_size : Option Part → ℕ
part_size none = 0
part_size (some a) = a.size

abbrev pub part_buffers : Option Part → ℕ
part_buffers none = 0
part_buffers (some _) = 1

-- A command, and the part of a packet with it, at the end of the datagram.
unfoldable pub write : Entry → Datagram → Datagram
write e d = record d {
  entries = d.entries ++ (e ∷ []);
  command_count = d.command_count + 1;
  buffer_count = d.buffer_count + 1 + part_buffers e.part;
  packet_size = add_size (add_size d.packet_size (command_size e.command.body)) (part_size e.part);
}

abbrev pub with_continue_sending : Peer → Peer
with_continue_sending p = record p { link = record p.link { continue_sending = true } }

-- `commands` has 32 elements, `buffers` 65.
unfoldable pub no_room_for_acknowledgement : Peer → Datagram → Bool
no_room_for_acknowledgement p d =
    leb 32 d.command_count || leb 65 d.buffer_count || ltb (sub_size p.mtu d.packet_size) 8

unfoldable pub acknowledge_command : Acknowledgement → Command
acknowledge_command a = record {
  flag_acknowledge = false;
  flag_unsequenced = false;
  channel_id = a.command.channel_id;
  reliable_sequence_number = a.command.reliable_sequence_number;
  body = acknowledge a.command.reliable_sequence_number (u16 a.sent_time);
}

abbrev pub is_disconnect : Body → Bool
is_disconnect (disconnect _) = true
is_disconnect _ = false

abbrev pub with_acknowledgements : List Acknowledgement → Peer → Peer
with_acknowledgements l p = record p { queues = record p.queues { acknowledgements = l } }

-- The loop, with the acknowledgements that are left.
unfoldable pub acknowledge_all : List Acknowledgement → Context → Datagram → Context × Datagram
unfolding dispatch_state
acknowledge_all [] c d = (record c { peer = with_acknowledgements [] c.peer }, d)
acknowledge_all (a ∷ l) c d =
    let c' = if is_disconnect a.command.body then dispatch_state zombie c else c in
    let rest =
      acknowledge_all l c' (write (record { command = acknowledge_command a; part = none }) d) in
    if no_room_for_acknowledgement c.peer d
    then (record c { peer = with_continue_sending (with_acknowledgements (a ∷ l) c.peer) }, d)
    else rest

-- `enet_protocol_send_acknowledgements`.
unfoldable pub send_acknowledgements : Context → Datagram → Context × Datagram
send_acknowledgements c d = acknowledge_all c.peer.acknowledgements c d

abbrev pub release_of : OutgoingCommand → Packets → Packets
release_of o m = elim o.packet [ none ↦ m | some a ↦ release a m ]

unfoldable pub release_all : List OutgoingCommand → Packets → Packets
release_all [] m = m
release_all (o ∷ l) m = release_all l (release_of o m)

abbrev pub is_leaving : PeerState → Bool
is_leaving disconnect_later = true
is_leaving _ = false

module _ (flush : Context → Context) where
  -- The end of two functions: a peer that waits to be disconnected and has sent everything is.
  unfoldable pub leave_when_done : Context → Context
  leave_when_done c =
      if is_leaving c.peer.state && not (has_outgoing_commands c.peer)
      then peer_disconnect flush c.peer.event_data c
      else c

  -- `enet_protocol_remove_sent_unreliable_commands`. The flag that a packet was sent is set just
  -- before the packet is freed, and is not modelled.
  unfoldable pub remove_sent_unreliable_commands : List OutgoingCommand → Context → Context
  remove_sent_unreliable_commands [] c = c
  remove_sent_unreliable_commands (o ∷ l) c =
      leave_when_done
        (record c { host = record c.host { packets = release_all (o ∷ l) c.host.packets } })
