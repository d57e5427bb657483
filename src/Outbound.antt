-- ===== src/Outbound.antt =====
-- A datagram that leaves: the header and the buffers that `enet_protocol_send_outgoing_commands` of
-- src/c/protocol.rs puts together for the socket. A clock's time and a checksum are numbers of 32 bits.
pub mod Sending
pub mod Heading
pub mod Reading
pub mod Walking
pub mod Counted
pub mod Tallied
use rusty_enet.Base.{
  ℕ, ◌+◌, ◌-◌, ◌*◌, ◌/◌, ◌%◌, ◌^◌, Bool, true, false, ◌&&◌, ◌||◌, not, List, [], ◌∷◌, ◌++◌, Option,
  none, some, ltb, leb, ◌==◌, if◌then◌else◌, add32, sub32, mul32, u16, take, drop, replicate,
  length, bit_or, bit_and, bit_xor,
}
use rusty_enet.Packet.{Packets}
use rusty_enet.Peer.{Peer}
use rusty_enet.Acknowledge.{time_difference}
use rusty_enet.Network.{next_seed, random}
use rusty_enet.Datagram.{Part, Entry}
use rusty_enet.Wire.{put16, put32_raw, encode_command}

-- The bytes of a part of a packet. The packet is in memory until after the datagram is sent.
abbrev pub part_bytes : Packets → Part → List ℕ
part_bytes m a = elim (m a.packet) [ none ↦ [] | some p ↦ take a.size (drop a.offset p.contents) ]

-- The elements of `buffers` behind the first.
unfoldable pub entry_buffers : Packets → Entry → List (List ℕ)
entry_buffers m e = elim e.part [
  | none ↦ encode_command e.command [] ∷ []
  | some a ↦ encode_command e.command [] ∷ part_bytes m a ∷ []
]

unfoldable pub all_buffers : Packets → List Entry → List (List ℕ)
all_buffers m [] = []
all_buffers m (e ∷ l) = entry_buffers m e ++ all_buffers m l

-- `conglomerate_buffer`.
unfoldable pub conglomerate : List (List ℕ) → List ℕ
conglomerate [] = []
conglomerate (b ∷ l) = b ++ conglomerate l

-- The three numbers in front of the header of a new packet; the port is that of the host's first
-- peer. The source adds 1 to the port as a `u16`.
pub record Integrity : Type 0 where
  pub first : ℕ
  pub second : ℕ
  pub third : ℕ

abbrev pub make_integrity : (seed port : ℕ) → Integrity
make_integrity seed port =
    let a = random (next_seed seed) % 2 ^ 16 % (port + 1) in
    let b = random (next_seed (next_seed seed)) % 2 ^ 16 in
    record { first = a; second = bit_xor a port; third = bit_or (bit_and b 0x61d2) 0x920d }

-- `header_flags`, with the session number that an established peer has.
abbrev pub session_bits : Peer → ℕ
session_bits p = if ltb p.outgoing_peer_id 4095 then p.outgoing_session_id * 2 ^ 12 else 0

unfoldable pub header_flags : (has_sent_time compressed : Bool) → Peer → ℕ
header_flags has_sent_time compressed p = u16 (
    bit_or ((if has_sent_time then 2 ^ 15 else 0) + (if compressed then 2 ^ 14 else 0))
      (session_bits p))

abbrev pub put_integrity : Option Integrity → List ℕ → List ℕ
put_integrity none l = l
put_integrity (some i) l = put16 i.first (put16 i.second (put16 i.third l))

-- The header up to the checksum. Without a time, `sent_time` is left out.
unfoldable pub encode_header :
    Option Integrity → (has_sent_time compressed : Bool) → (now : ℕ) → Peer → List ℕ
encode_header i has_sent_time compressed now p = put_integrity i (
    put16 (u16 (bit_or p.outgoing_peer_id (header_flags has_sent_time compressed p)))
      (if has_sent_time then put16 (now % 2 ^ 16) [] else []))

-- `packet_size` at the start: the size of the header with its time, less the checksum's.
abbrev pub initial_size : (using_new_packet : Bool) → ℕ
initial_size true = 10
initial_size false = 4

-- The array of all 65 buffers that the checksum is taken of; the unused ones are empty.
abbrev pub padded : List (List ℕ) → List (List ℕ)
padded l = l ++ replicate (65 - length l) []

-- The number that stands in the place of the checksum while it is computed.
abbrev pub checked_id : Peer → ℕ
checked_id p = if ltb p.outgoing_peer_id 4095 then p.connect_id else 0

unfoldable pub with_checksum :
    (checksum : List (List ℕ) → ℕ)
    → (has_checksum : Bool) → Peer
    → (header : List ℕ) → (buffers : List (List ℕ)) → List ℕ
with_checksum checksum false p h l = h
with_checksum checksum true p h l =
    h ++ put32_raw (checksum (padded ((h ++ put32_raw (checked_id p) []) ∷ l))) []

-- The trait `Compressor` in its present state: what `compress` returns for the buffers, their size
-- and the length of its output, and that output.
abbrev pub Compress : Type 0
Compress = List (List ℕ) → ℕ → ℕ → ℕ × List ℕ

abbrev pub compressed_payload : (original_size : ℕ) → ℕ × List ℕ → Option (List ℕ)
compressed_payload original_size (n, out) =
    if ltb 0 n && ltb n original_size then some (take n out) else none

-- What is sent in place of the buffers, if that is smaller.
unfoldable pub compress_payload :
    Option Compress → (original_size : ℕ) → List (List ℕ) → Option (List ℕ)
compress_payload none original_size l = none
compress_payload (some f) original_size l =
    compressed_payload original_size (f l original_size original_size)

-- The whole datagram. The checksum is taken of the payload before it is compressed.
abbrev pub finish_datagram :
    Option (List ℕ) → ((compressed : Bool) → List ℕ) → (buffers : List (List ℕ)) → List ℕ
finish_datagram none header l = header false ++ conglomerate l
finish_datagram (some out) header l = header true ++ out

-- What the application has set for a host, in its present state.
pub record Callbacks : Type 0 where
  pub checksum : List (List ℕ) → ℕ
  pub compress : Option Compress

unfoldable pub encode_datagram :
    Callbacks
    → (has_checksum : Bool) → Option Integrity
    → (now original_size : ℕ) → (has_sent_time : Bool) → Peer
    → List (List ℕ)
    → List ℕ
encode_datagram b has_checksum i now original_size has_sent_time p l =
    finish_datagram (compress_payload b.compress original_size l)
      (λ compressed.
        with_checksum b.checksum has_checksum p (encode_header i has_sent_time compressed now p) l)
      l

-- The share of packets that were lost, in 65536ths, taken every ten seconds, and smoothed.
unfoldable pub smooth_loss : (packet_loss : ℕ) → Peer → Peer
smooth_loss loss p = record p {
  traffic = record p.traffic {
    packet_loss_variance =
        add32 (mul32 p.packet_loss_variance 3)
          (if ltb loss p.packet_loss then sub32 p.packet_loss loss else sub32 loss p.packet_loss)
        / 4;
    packet_loss = add32 (mul32 p.packet_loss 7) loss / 8;
  };
}

unfoldable pub update_packet_loss : (now : ℕ) → Peer → Peer
unfolding smooth_loss
update_packet_loss now p =
    if p.packet_loss_epoch == 0
    then record p { traffic = record p.traffic { packet_loss_epoch = now } }
    else if leb 10000 (time_difference now p.packet_loss_epoch) && ltb 0 p.packets_sent
    then (let q = smooth_loss (mul32 p.packets_lost 65536 / p.packets_sent) p in
        record q {
          traffic = record q.traffic {
            packet_loss_epoch = now;
            packets_sent = 0;
            packets_lost = 0;
          };
        })
    else p
