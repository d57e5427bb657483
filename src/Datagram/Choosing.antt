-- ===== src/Datagram/Choosing.antt =====
-- Which command a peer sends next, and whether it may: the tests of
-- `enet_protocol_check_outgoing_commands` in src/c/protocol.rs.
use rusty_enet.Base.{
  ℕ, ◌+◌, ◌-◌, ◌*◌, ◌/◌, ◌%◌, ◌^◌, Bool, ◌&&◌, ◌||◌, not, List, [], ◌∷◌, Option, none, some, ltb,
  leb, ◌==◌, if◌then◌else◌, add32, sub32, mul32, u16, sub_size, get_elem?, get_or, bit_and, bit_or,
}
use rusty_enet.Protocol.{command_size}
use rusty_enet.Packet.{Packets}
use rusty_enet.Peer.{OutgoingCommand, Channel, Peer}
use rusty_enet.Outgoing.{has_packet}
use rusty_enet.Datagram.{Datagram}

-- The state of the loop: the commands that it has passed and left in the two queues, and those that
-- it has freed, which the source does not keep.
pub record Progress : Type 0 where
  pub peer : Peer
  pub packets : Packets
  pub datagram : Datagram
  pub kept : List OutgoingCommand
  pub kept_reliable : List OutgoingCommand
  pub sent_unreliable : List OutgoingCommand
  pub dropped : List OutgoingCommand
  pub window_wrap : Bool
  pub can_ping : Bool

-- The next command, and what is left of the two queues.
pub data Pick : Type 0 where
  nothing : Pick
  from_outgoing from_reliable : OutgoingCommand → (outgoing reliable : List OutgoingCommand) → Pick

-- The older of the two first commands.
unfoldable pub pick : (outgoing reliable : List OutgoingCommand) → Pick
pick [] [] = nothing
pick [] (q ∷ r) = from_reliable q [] r
pick (o ∷ l) [] = from_outgoing o l []
pick (o ∷ l) (q ∷ r) =
    if leb 86400000 (sub32 q.queue_time o.queue_time)
    then from_reliable q (o ∷ l) r
    else from_outgoing o l (q ∷ r)

abbrev pub channel_of : OutgoingCommand → Peer → Option Channel
channel_of o p =
    if ltb o.command.channel_id p.channel_count
    then get_elem? p.channels o.command.channel_id
    else none

-- A new window starts, and the one before it is full, or one of the ten from it on is in use.
unfoldable pub wraps : OutgoingCommand → Channel → Bool
wraps o c =
    let w = o.reliable_sequence_number / 4096 in
    ltb o.send_attempts 1
    && o.reliable_sequence_number % 4096 == 0
    && (leb 4096 (get_or c.reliable_windows ((w + 16 - 1) % 16) 0)
        || not (bit_and c.used_reliable_windows (bit_or (1023 * 2 ^ w) (1023 / 2 ^ (16 - w))) == 0))

-- The reliable data that may be on its way.
unfoldable pub transit_limit : Peer → ℕ
transit_limit p =
    let w = mul32 p.packet_throttle p.window_size / 32 in if ltb p.mtu w then w else p.mtu

unfoldable pub exceeds : OutgoingCommand → Peer → Bool
unfolding transit_limit
exceeds o p =
    has_packet o && ltb (transit_limit p) (add32 p.reliable_data_in_transit o.fragment_length)

-- Whether a command may be sent now: it is left in its queue alone, or with it all that is left of
-- the reliable queue.
pub data Admission : Type 0 where
  admitted passed wrapped held : Admission

abbrev pub admit_channel : Bool → OutgoingCommand → Option Channel → Option Admission
admit_channel wrap o none = none
admit_channel wrap o (some c) =
    if wrap then some passed else if wraps o c then some wrapped else none

unfoldable pub admission : OutgoingCommand → Progress → Admission
unfolding exceeds
admission o s =
    if not o.command.flag_acknowledge
    then admitted
    else elim (admit_channel s.window_wrap o (channel_of o s.peer)) [
      | some a ↦ a
      | none ↦ if exceeds o s.peer then held else admitted
    ]

unfoldable pub is_full : OutgoingCommand → Peer → Datagram → Bool
is_full o p d =
    let left = sub_size p.mtu d.packet_size in
    let size = command_size o.command.body in
    leb 32 d.command_count
    || leb 65 (d.buffer_count + 1)
    || ltb left size
    || has_packet o && ltb (u16 left) (u16 (size + o.fragment_length))
