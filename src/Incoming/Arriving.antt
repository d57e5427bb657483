-- ===== src/Incoming/Arriving.antt =====
-- What arrives and what the application takes: `enet_peer_queue_incoming_command` and
-- `enet_peer_receive` of src/c/peer.rs.
use rusty_enet.Base.{
  ℕ, ◌+◌, ◌*◌, Bool, true, false, ◌&&◌, ◌||◌, List, [], ◌∷◌, Option, none, some, ltb, leb, ◌==◌,
  if◌then◌else◌, add_size, sub_size, replicate, ◌/◌, get_elem?, length,
}
use rusty_enet.Protocol.{
  Command, Body, send_reliable, send_unreliable, send_fragment, send_unsequenced,
  send_unreliable_fragment, command_number,
}
use rusty_enet.Packet.{Packet, data_length}
use rusty_enet.Peer.{PeerState, disconnect_later, IncomingCommand, Channel, Peer, Context}
use rusty_enet.Window.{in_window}
use rusty_enet.Incoming.{
  Delivery, deliver_reliable, deliver_unreliable, hand_over, insert_incoming, place_reliable,
  place_unreliable,
}

-- The three ways in which `enet_peer_queue_incoming_command` ends: the command is queued, it is
-- dropped for good (the source returns its dummy command), or it fails (null).
pub data Queued : Type 0 where
  queued : Context → Queued
  ignored failed : Queued

-- The label where a command is discarded: only one that is a whole packet counts as handled.
abbrev pub discard : (fragment_count : ℕ) → Queued
discard n = if n == 0 then ignored else failed

-- What comes with a command: its packet, in how many fragments, and where the allocator puts it.
pub record Arrival : Type 0 where
  pub command : Command
  pub contents : List ℕ
  pub packet_flags : ℕ
  pub fragment_count : ℕ
  pub address : ℕ

unfoldable pub new_incoming : (unreliable : ℕ) → Arrival → IncomingCommand
new_incoming unreliable a = record {
  address = a.address;
  reliable_sequence_number = a.command.reliable_sequence_number;
  unreliable_sequence_number = unreliable;
  command = a.command;
  fragment_count = a.fragment_count;
  fragments_remaining = a.fragment_count;
  fragments = replicate (32 * ((a.fragment_count + 31) / 32)) false;
  packet = record { reference_count = 1; flags = a.packet_flags; contents = a.contents };
}

abbrev pub with_reliable_commands : List IncomingCommand → Channel → Channel
with_reliable_commands l ch = record ch { incoming_reliable_commands = l }

abbrev pub with_unreliable_commands : List IncomingCommand → Channel → Channel
with_unreliable_commands l ch = record ch { incoming_unreliable_commands = l }

-- After the place is found: the limits, the packet's share of the waiting data, and the dispatch.
unfoldable pub charge : (bytes : ℕ) → Context → Context
charge n c = record c {
  peer = record c.peer {
    flow = record c.peer.flow { total_waiting_data = add_size c.peer.total_waiting_data n };
  };
}

unfoldable pub admit : Arrival → Delivery → Context → Queued
admit a d c =
    if leb c.host.maximum_waiting_data c.peer.total_waiting_data
    then failed
    else if ltb (1024 * 1024) a.fragment_count
    then failed
    else queued (hand_over a.command.channel_id d (charge (length a.contents) c))

-- The command goes where its place was found, or is dropped.
unfoldable pub admit_placed :
    Arrival → (List IncomingCommand → Delivery) → Option (List IncomingCommand) → Context → Queued
admit_placed a deliver none c = discard a.fragment_count
admit_placed a deliver (some l) c = admit a (deliver l) c

unfoldable pub queue_reliable : Arrival → Channel → Context → Queued
queue_reliable a ch c =
    let place =
      place_reliable ch.incoming_reliable_sequence_number a.command.reliable_sequence_number in
    admit_placed a (λ l. deliver_reliable (some a.address) (with_reliable_commands l ch))
      (insert_incoming place (new_incoming 0 a) ch.incoming_reliable_commands) c

unfoldable pub queue_unreliable : (unreliable : ℕ) → Arrival → Channel → Context → Queued
queue_unreliable unreliable a ch c =
    let place =
      place_unreliable ch.incoming_reliable_sequence_number a.command.reliable_sequence_number
        unreliable in
    admit_placed a (λ l. deliver_unreliable (some a.address) (with_unreliable_commands l ch))
      (insert_incoming place (new_incoming unreliable a) ch.incoming_unreliable_commands) c

-- Unsequenced commands go to the front.
unfoldable pub queue_unsequenced : Arrival → Channel → Context → Queued
queue_unsequenced a ch c =
    let l = new_incoming 0 a ∷ ch.incoming_unreliable_commands in
    admit a (deliver_unreliable (some a.address) (with_unreliable_commands l ch)) c

-- By the kind of command: a reliable one that was just passed and an unreliable one that is not
-- newer than the last are dropped at once, an unsequenced one goes to the front.
unfoldable pub queue_by_kind : Arrival → Channel → Context → Queued
queue_by_kind a ch c =
    let number = a.command.reliable_sequence_number in
    let reliable =
      if number == ch.incoming_reliable_sequence_number
      then discard a.fragment_count
      else queue_reliable a ch c in
    let unreliable = λ (u : ℕ).
      if number == ch.incoming_reliable_sequence_number
        && leb u ch.incoming_unreliable_sequence_number
      then discard a.fragment_count
      else queue_unreliable u a ch c in
    elim a.command.body [
      | send_reliable _ ↦ reliable
      | send_fragment _ ↦ reliable
      | send_unreliable u _ ↦ unreliable u
      | send_unreliable_fragment f ↦ unreliable f.start_sequence_number
      | send_unsequenced _ _ ↦ queue_unsequenced a ch c
      | _ ↦ discard a.fragment_count
    ]

abbrev pub is_unsequenced_body : Body → Bool
is_unsequenced_body b = command_number b == 9

abbrev is_leaving : PeerState → Bool
is_leaving disconnect_later = true
is_leaving _ = false

-- `enet_peer_queue_incoming_command`. The handlers check the channel's index before they call it;
-- without a channel the command counts as dropped here.
unfoldable pub queue_incoming_command : Arrival → Context → Queued
queue_incoming_command a c = elim (get_elem? c.peer.channels a.command.channel_id) [
  | none ↦ discard a.fragment_count
  | some ch ↦
      if is_leaving c.peer.state
      then discard a.fragment_count
      else if is_unsequenced_body a.command.body
          || in_window ch.incoming_reliable_sequence_number a.command.reliable_sequence_number
      then queue_by_kind a ch c
      else discard a.fragment_count
]

-- `enet_peer_receive`: the oldest delivered command's channel and packet.
unfoldable pub receive : Peer → Option (ℕ × Packet × Peer)
receive p = elim p.dispatched_commands [
  | [] ↦ none
  | i ∷ l ↦ some (
    i.command.channel_id,
    record i.packet { reference_count = sub_size i.packet.reference_count 1 },
    record p {
      queues = record p.queues { dispatched_commands = l };
      flow = record p.flow {
        total_waiting_data = sub_size p.total_waiting_data (data_length i.packet);
      };
    },
  )
]
