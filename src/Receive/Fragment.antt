-- ===== src/Receive/Fragment.antt =====
-- The handlers of fragments: `enet_protocol_handle_send_fragment` and `_unreliable_fragment` of
-- src/c/protocol.rs, and the putting together of a packet that they share.
use rusty_enet.Base.{
  ℕ, zero, suc, ◌-◌, ◌*◌, Bool, true, false, ◌&&◌, ◌||◌, not, List, [], ◌∷◌, Option, none, some,
  ltb, leb, ◌==◌, if◌then◌else◌, add32, sub32, u32, get_elem?, get_or, set, take,
}
use mathlib.Core.List.{reverse}
use rusty_enet.Protocol.{Command, FragmentBody, command_number}
use rusty_enet.Packet.{data_length}
use rusty_enet.Peer.{IncomingCommand, Host, Context, Outcome, accepted, rejected}
use rusty_enet.Window.{in_window}
use rusty_enet.Incoming.{
  Placement, skip, stop, duplicate, place_reliable, place_unreliable, deliver_reliable,
  deliver_unreliable, hand_over,
}
use rusty_enet.Incoming.Arriving.{
  Arrival, Queued, queued, queue_incoming_command, with_reliable_commands, with_unreliable_commands,
}
use rusty_enet.Receive.{takes_packets, fits}

-- Copying a fragment into its packet.
unfoldable pub write_at : (offset : ℕ) → (bytes contents : List ℕ) → List ℕ
write_at zero [] l = l
write_at zero (b ∷ bs) [] = []
write_at zero (b ∷ bs) (x ∷ l) = b ∷ write_at zero bs l
write_at (suc n) bs [] = []
write_at (suc n) bs (x ∷ l) = x ∷ write_at n bs l

-- A fragment that is new is marked and copied in, and cut at the packet's end.
unfoldable pub fragment_size : FragmentBody → IncomingCommand → ℕ
fragment_size f i =
    if ltb (data_length i.packet) (add32 f.fragment_offset f.data_length)
    then u32 (data_length i.packet - f.fragment_offset)
    else f.data_length

unfoldable pub copy_fragment : FragmentBody → (rest : List ℕ) → IncomingCommand → IncomingCommand
copy_fragment f rest i = record i {
  fragments_remaining = sub32 i.fragments_remaining 1;
  fragments = set i.fragments f.fragment_number true;
  packet = record i.packet {
    contents = write_at f.fragment_offset (take (fragment_size f i) rest) i.packet.contents;
  };
}

unfoldable pub add_fragment : FragmentBody → (rest : List ℕ) → IncomingCommand → IncomingCommand
add_fragment f rest i =
    if get_or i.fragments f.fragment_number false then i else copy_fragment f rest i

-- Whether the fragment is the one that was missing.
abbrev pub completes : FragmentBody → IncomingCommand → Bool
completes f i =
    not (get_or i.fragments f.fragment_number false) && sub32 i.fragments_remaining 1 == 0

-- The walk from the end of a queue to the command that the fragment belongs to.
pub data Start : Type 0 where
  absent mismatch : Start
  started : IncomingCommand → Start

abbrev belongs : (number : ℕ) → FragmentBody → IncomingCommand → Bool
belongs number f i =
    command_number i.command.body == number
    && f.total_length == data_length i.packet
    && f.fragment_count == i.fragment_count

unfoldable pub find_start :
    (IncomingCommand → Placement) → (number : ℕ) → FragmentBody → List IncomingCommand → Start
find_start place number f [] = absent
find_start place number f (i ∷ r) =
    let rest = find_start place number f r in
    elim (place i) [
      | stop ↦ absent
      | skip ↦ rest
      | duplicate ↦ if belongs number f i then started i else mismatch
    ]

-- The command at an address, changed in place.
unfoldable pub update_command :
    (address : ℕ)
    → (IncomingCommand → IncomingCommand)
    → List IncomingCommand
    → List IncomingCommand
update_command a g [] = []
update_command a g (i ∷ l) = if i.address == a then g i ∷ l else i ∷ update_command a g l

unfoldable pub command_at : (address : ℕ) → List IncomingCommand → Option IncomingCommand
command_at a [] = none
command_at a (i ∷ l) = if i.address == a then some i else command_at a l

-- A fragment's numbers make sense: it lies within its packet, and the packet within the limits.
abbrev pub in_packet : FragmentBody → Host → Bool
in_packet f h =
    leb f.fragment_count (1024 * 1024)
    && ltb f.fragment_number f.fragment_count
    && leb f.total_length h.maximum_packet_size
    && ltb f.fragment_offset f.total_length
    && leb f.data_length (sub32 f.total_length f.fragment_offset)

-- The first fragment that arrives brings the command for the whole packet, whose bytes are not
-- initialised: `memory` is what they happen to be.
abbrev pub beginning : (flags address : ℕ) → (memory : List ℕ) → FragmentBody → Command → Arrival
beginning flags address memory f k = record {
  command = k;
  contents = memory;
  packet_flags = flags;
  fragment_count = f.fragment_count;
  address = address;
}

-- The fragment goes to the reliable command at `a`, and the queue is handed on if that is whole.
unfoldable pub finish_fragment :
    (channel_id a : ℕ) → FragmentBody → (rest : List ℕ) → Context → Outcome
finish_fragment channel_id a f rest c = elim (get_elem? c.peer.channels channel_id) [
  | none ↦ rejected c
  | some ch ↦
      let l = update_command a (add_fragment f rest) ch.incoming_reliable_commands in
      let ch' = with_reliable_commands l ch in
      elim (command_at a ch.incoming_reliable_commands) [
        | none ↦ rejected c
        | some i ↦
            if completes f i
            then accepted (hand_over channel_id (deliver_reliable none ch') c)
            else accepted (hand_over channel_id (record { channel = ch'; delivered = [] }) c)
      ]
]

-- A fragment's command is never just ignored: it is queued or fails.
abbrev finish_queued :
    (channel_id a : ℕ) → FragmentBody → (rest : List ℕ) → Context → Queued → Outcome
finish_queued channel_id a f rest c (queued d) = finish_fragment channel_id a f rest d
finish_queued channel_id a f rest c _ = rejected c

-- `enet_protocol_handle_send_fragment`.
unfoldable pub handle_send_fragment :
    (address : ℕ) → (memory : List ℕ) → FragmentBody → Command → (rest : List ℕ) → Context → Outcome
handle_send_fragment address memory f k rest c = elim (get_elem? c.peer.channels k.channel_id) [
  | none ↦ rejected c
  | some ch ↦
      let start = f.start_sequence_number in
      let current = ch.incoming_reliable_sequence_number in
      let host_command = record k { reliable_sequence_number = start } in
      if not (takes_packets k.channel_id c.peer && fits f.data_length rest c.host)
        || f.data_length == 0
      then rejected c
      else if not (in_window current start)
      then accepted c
      else if not (in_packet f c.host && leb f.fragment_count f.total_length)
      then rejected c
      else elim (find_start (place_reliable current start) 8 f
          (reverse ch.incoming_reliable_commands)) [
            | mismatch ↦ rejected c
            | started i ↦ finish_fragment k.channel_id i.address f rest c
            | absent ↦
                finish_queued k.channel_id address f rest c
                  (queue_incoming_command (beginning 1 address memory f host_command) c)
          ]
]

-- The fragment goes to the unreliable command at `a`, and the queue is handed on if that is whole.
unfoldable pub finish_unreliable_fragment :
    (channel_id a : ℕ) → FragmentBody → (rest : List ℕ) → Context → Outcome
finish_unreliable_fragment channel_id a f rest c = elim (get_elem? c.peer.channels channel_id) [
  | none ↦ rejected c
  | some ch ↦
      let l = update_command a (add_fragment f rest) ch.incoming_unreliable_commands in
      let ch' = with_unreliable_commands l ch in
      elim (command_at a ch.incoming_unreliable_commands) [
        | none ↦ rejected c
        | some i ↦
            if completes f i
            then accepted (hand_over channel_id (deliver_unreliable none ch') c)
            else accepted (hand_over channel_id (record { channel = ch'; delivered = [] }) c)
      ]
]

abbrev pub finish_queued_unreliable :
    (channel_id a : ℕ) → FragmentBody → (rest : List ℕ) → Context → Queued → Outcome
finish_queued_unreliable channel_id a f rest c (queued d) =
    finish_unreliable_fragment channel_id a f rest d
finish_queued_unreliable channel_id a f rest c _ = rejected c

-- `enet_protocol_handle_send_unreliable_fragment`.
unfoldable pub handle_send_unreliable_fragment :
    (address : ℕ) → (memory : List ℕ) → FragmentBody → Command → (rest : List ℕ) → Context → Outcome
handle_send_unreliable_fragment address memory f k rest c =
    elim (get_elem? c.peer.channels k.channel_id) [
      | none ↦ rejected c
      | some ch ↦
          let number = k.reliable_sequence_number in
          let start = f.start_sequence_number in
          let current = ch.incoming_reliable_sequence_number in
          if not (takes_packets k.channel_id c.peer && fits f.data_length rest c.host)
          then rejected c
          else if not (in_window current number)
          then accepted c
          else if number == current && leb start ch.incoming_unreliable_sequence_number
          then accepted c
          else if not (in_packet f c.host)
          then rejected c
          else elim (find_start (place_unreliable current number start) 12 f
              (reverse ch.incoming_unreliable_commands)) [
                | mismatch ↦ rejected c
                | started i ↦ finish_unreliable_fragment k.channel_id i.address f rest c
                | absent ↦
                    finish_queued_unreliable k.channel_id address f rest c
                      (queue_incoming_command (beginning 8 address memory f k) c)
              ]
    ]
