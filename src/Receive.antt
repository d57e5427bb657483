-- ===== src/Receive.antt =====
-- The handlers of the commands that carry whole packets: `enet_protocol_handle_send_reliable`,
-- `_unreliable` and `_unsequenced` of src/c/protocol.rs. The rest of the datagram behind a command
-- stands for the source's pointer into it.
pub mod Fragment
pub mod Assembly
pub mod Reassembly
pub mod RoundTrip
pub mod Unsequenced
use rusty_enet.Base.{
  ℕ, zero, suc, ◌+◌, ◌-◌, ◌*◌, ◌/◌, ◌%◌, ◌^◌, Bool, true, false, ◌&&◌, ◌||◌, not, List, [], ◌∷◌,
  Option, none, some, ltb, leb, ◌==◌, if◌then◌else◌, add32, sub32, u32, get_elem?, get_or, set,
  take, length, replicate,
}
use mathlib.Core.List.{reverse}
use rusty_enet.Protocol.{Command, Body, FragmentBody, command_number}
use rusty_enet.Packet.{Packet, data_length}
use rusty_enet.Peer.{
  PeerState, is_connected, IncomingCommand, Channel, Peer, Host, Context, Outcome, accepted,
  rejected,
}
use rusty_enet.Window.{in_window}
use rusty_enet.Incoming.{
  Placement, skip, stop, duplicate, place_reliable, place_unreliable, deliver_reliable,
  deliver_unreliable, Delivery, hand_over,
}
use rusty_enet.Incoming.Arriving.{
  Arrival, Queued, queued, ignored, failed, queue_incoming_command, with_reliable_commands,
  with_unreliable_commands,
}

-- What all of these handlers ask of the peer, and of the packet's bytes.
abbrev pub takes_packets : ℕ → Peer → Bool
takes_packets channel_id p = ltb channel_id p.channel_count && is_connected p.state

abbrev pub fits : (data_length : ℕ) → (rest : List ℕ) → Host → Bool
fits n rest h = leb n h.maximum_packet_size && leb n (length rest)

-- Anything but null counts as handled.
abbrev pub handled : Context → Queued → Outcome
handled c (queued d) = accepted d
handled c ignored = accepted c
handled c failed = rejected c

abbrev pub whole : (flags address data_length : ℕ) → Command → (rest : List ℕ) → Arrival
whole flags address n k rest = record {
  command = k;
  contents = take n rest;
  packet_flags = flags;
  fragment_count = 0;
  address = address;
}

-- `enet_protocol_handle_send_reliable`.
unfoldable pub handle_send_reliable :
    (address data_length : ℕ) → Command → (rest : List ℕ) → Context → Outcome
handle_send_reliable address n k rest c =
    if takes_packets k.channel_id c.peer && fits n rest c.host
    then handled c (queue_incoming_command (whole 1 address n k rest) c)
    else rejected c

-- `enet_protocol_handle_send_unreliable`.
unfoldable pub handle_send_unreliable :
    (address data_length : ℕ) → Command → (rest : List ℕ) → Context → Outcome
handle_send_unreliable address n k rest c =
    if takes_packets k.channel_id c.peer && fits n rest c.host
    then handled c (queue_incoming_command (whole 0 address n k rest) c)
    else rejected c

-- The window of unsequenced groups: what the peer remembers of the last 1024.
abbrev pub with_window : (group : ℕ) → List Bool → Peer → Peer
with_window group w p = record p {
  flow = record p.flow { incoming_unsequenced_group = group; unsequenced_window = w };
}

-- A group too far ahead is dropped. One outside the current block of 1024 starts a new one.
unfoldable pub unsequenced_ahead : (current group : ℕ) → ℕ
unsequenced_ahead current group = if ltb group current then group + 2 ^ 16 else group

unfoldable pub enter_window : (group : ℕ) → Peer → Peer
enter_window group p =
    let block = sub32 group (group % 1024) in
    if block == p.incoming_unsequenced_group
    then p
    else with_window (block % 2 ^ 16) (replicate 1024 false) p

unfoldable pub mark_group : (group : ℕ) → Peer → Peer
mark_group group p =
    with_window p.incoming_unsequenced_group (set p.unsequenced_window (group % 1024) true) p

abbrev pub mark_handled : (group : ℕ) → Outcome → Outcome
mark_handled group (rejected c) = rejected c
mark_handled group (accepted c) = accepted (record c { peer = mark_group group c.peer })

-- `enet_protocol_handle_send_unsequenced`. Nothing is queued, and 0 returned, for a group that is too
-- far ahead or was seen before.
unfoldable pub handle_send_unsequenced :
    (address group data_length : ℕ) → Command → (rest : List ℕ) → Context → Outcome
handle_send_unsequenced address group n k rest c =
    let p = enter_window group c.peer in
    let d = record c { peer = p } in
    if not (takes_packets k.channel_id c.peer && fits n rest c.host)
    then rejected c
    else if leb (c.peer.incoming_unsequenced_group + 32 * 1024)
        (unsequenced_ahead c.peer.incoming_unsequenced_group group)
    then accepted c
    else if get_or p.unsequenced_window (group % 1024) false
    then accepted c
    else mark_handled group (handled d (queue_incoming_command (whole 2 address n k rest) d))
