-- ===== src/Send.antt =====
-- `enet_peer_send` of src/c/peer.rs: the checks, the cutting of a packet that does not fit into
-- fragments, and the choice of a command for one that does.
pub mod Fragments
pub mod Sequence
use rusty_enet.Base.{
  ℕ, zero, suc, ◌+◌, ◌-◌, ◌*◌, ◌/◌, ◌<◌, Bool, true, false, ◌&&◌, ◌||◌, not, List, [], ◌∷◌, Option,
  none, some, ltb, leb, ◌==◌, if◌then◌else◌, add16, add32, add_size, sub_size, u16, u32, get_elem?,
  length,
}
use rusty_enet.Protocol.{
  Command, Body, FragmentBody, send_reliable, send_unreliable, send_unsequenced, send_fragment,
  send_unreliable_fragment,
}
use rusty_enet.Packet.{
  Packet, data_length, is_reliable, is_unsequenced, is_unreliable_fragment, retain,
}
use rusty_enet.Peer.{PeerState, connected, OutgoingCommand, Channel, Peer, Host, Context}
use rusty_enet.Outgoing.{setup_outgoing_command, queue_outgoing_command, new_command}

-- The bytes of a packet that fit into one datagram beside the headers: the protocol header of four
-- bytes, or ten in the new form, the fragment command of 24 and the checksum.
unfoldable pub max_fragment_length : Host → Peer → ℕ
max_fragment_length h p =
    let n = sub_size (sub_size p.mtu (if h.using_new_packet then 10 else 4)) 24 in
    if h.has_checksum then sub_size n 4 else n

-- `(data_length + fragment_length - 1) / fragment_length`. The source divides by 0, which panics,
-- only where the mtu is as small as the headers; the mtu is held at 576 or more.
unfoldable pub fragment_count : (data_length fragment_length : ℕ) → ℕ
fragment_count n f = u32 (sub_size (add_size n f) 1 / f)

-- What all fragments of one packet have in common.
pub record Cut : Type 0 where
  pub reliable : Bool
  pub channel_id : ℕ
  pub address : ℕ
  pub start_sequence_number : ℕ
  pub count : ℕ
  pub total : ℕ

unfoldable pub fragment_body : Cut → (number offset size : ℕ) → FragmentBody
fragment_body c number offset size = record {
  start_sequence_number = c.start_sequence_number;
  data_length = u16 size;
  fragment_count = c.count;
  fragment_number = number;
  total_length = u32 c.total;
  fragment_offset = offset;
}

unfoldable pub fragment : Cut → (number offset size : ℕ) → OutgoingCommand
fragment c number offset size =
    new_command
      (record {
        flag_acknowledge = c.reliable;
        flag_unsequenced = false;
        channel_id = c.channel_id;
        reliable_sequence_number = 0;
        body =
            (if c.reliable
              then send_fragment (fragment_body c number offset size)
              else send_unreliable_fragment (fragment_body c number offset size));
      })
      (some c.address) offset (u16 size)

-- The loop, with fuel: it goes on while the offset is before the end, and shortens the last
-- fragment. `none` means that the fuel ran out.
unfoldable pub cut_from :
    (fuel : ℕ) → Cut → (size number offset : ℕ) → Option (List OutgoingCommand)
cut_from zero c size number offset = none
cut_from (suc fuel) c size number offset =
    let left = sub_size c.total offset in
    let size' = if ltb left size then left else size in
    let rest = cut_from fuel c size' (add32 number 1) (u32 (add_size offset size')) in
    if ltb offset c.total
    then elim rest [ none ↦ none | some l ↦ some (fragment c number offset size' ∷ l) ]
    else some []

unfoldable pub setup_all : List OutgoingCommand → Context → Context
setup_all [] c = c
setup_all (o ∷ l) c = setup_all l (setup_outgoing_command c o)

-- `PeerSendError`, success, and the fuel of the loop.
pub data Sent : Type 0 where
  sent : Context → Sent
  not_connected invalid_channel packet_too_large fragments_exceeded out_of_fuel : Sent

-- Whether the fragments go unreliably: the packet must ask for it, and the channel have a number.
unfoldable pub goes_unreliably : Packet → Channel → Bool
goes_unreliably pkt ch =
    not (is_reliable pkt)
    && is_unreliable_fragment pkt
    && ltb ch.outgoing_unreliable_sequence_number 0xffff

unfoldable pub cut : (channel_id address : ℕ) → Packet → Channel → (count : ℕ) → Cut
unfolding goes_unreliably
cut channel_id address pkt ch count =
    let unreliable = goes_unreliably pkt ch in
    record {
      reliable = not unreliable;
      channel_id = channel_id;
      address = address;
      start_sequence_number =
          (if unreliable
            then add16 ch.outgoing_unreliable_sequence_number 1
            else add16 ch.outgoing_reliable_sequence_number 1);
      count = count;
      total = data_length pkt;
    }

unfoldable pub send_fragments :
    (channel_id address : ℕ) → Packet → Channel → (size : ℕ) → Context → Sent
send_fragments channel_id address pkt ch size c =
    let count = fragment_count (data_length pkt) size in
    if ltb (1024 * 1024) count
    then fragments_exceeded
    else elim (cut_from (data_length pkt + 1) (cut channel_id address pkt ch count) size 0 0) [
      | none ↦ out_of_fuel
      | some l ↦ sent (
          setup_all l (record c {
            host = record c.host { packets = retain address (length l) c.host.packets };
          }))
    ]

-- The command for a packet that fits into one datagram.
unfoldable pub whole_command : (channel_id : ℕ) → Packet → Channel → Command
whole_command channel_id pkt ch =
    let n = u16 (data_length pkt) in
    if not (is_reliable pkt) && is_unsequenced pkt
    then record {
      flag_acknowledge = false;
      flag_unsequenced = true;
      channel_id = channel_id;
      reliable_sequence_number = 0;
      body = send_unsequenced 0 n;
    }
    else if is_reliable pkt || leb 0xffff ch.outgoing_unreliable_sequence_number
    then record {
      flag_acknowledge = true;
      flag_unsequenced = false;
      channel_id = channel_id;
      reliable_sequence_number = 0;
      body = send_reliable n;
    }
    else record {
      flag_acknowledge = false;
      flag_unsequenced = false;
      channel_id = channel_id;
      reliable_sequence_number = 0;
      body = send_unreliable 0 n;
    }

abbrev is_ready : PeerState → Bool
is_ready connected = true
is_ready _ = false

-- `enet_peer_send` of the packet `pkt` that stands at `address`. The source reads the channel only
-- where its index is below `channel_count`; with no channel there the index is invalid here too.
unfoldable pub send : (channel_id address : ℕ) → Packet → Context → Sent
send channel_id address pkt c = elim (get_elem? c.peer.channels channel_id) [
  | none ↦ if is_ready c.peer.state then invalid_channel else not_connected
  | some ch ↦
      let size = max_fragment_length c.host c.peer in
      if not (is_ready c.peer.state)
      then not_connected
      else if leb c.peer.channel_count channel_id
      then invalid_channel
      else if ltb c.host.maximum_packet_size (data_length pkt)
      then packet_too_large
      else if ltb size (data_length pkt)
      then send_fragments channel_id address pkt ch size c
      else sent (
          queue_outgoing_command c (whole_command channel_id pkt ch) (some address) 0
            (u16 (data_length pkt)))
]
