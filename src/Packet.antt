-- ===== src/Packet.antt =====
-- Packets and the memory that holds those queued for sending: src/c/packet.rs.
pub mod Kind
use rusty_enet.Base.{
  ℕ, ◌/◌, ◌%◌, ◌^◌, Bool, List, Option, none, some, ◌==◌, if◌then◌else◌, add_size, sub_size, length,
}

-- `ENetPacket`; `data` and `data_length` are one list of bytes.
pub record Packet : Type 0 where
  pub reference_count : ℕ
  pub flags : ℕ
  pub contents : List ℕ

abbrev pub data_length : Packet → ℕ
data_length p = length p.contents

-- `flags & 2 ^ k != 0`.
abbrev pub has_flag : ℕ → ℕ → Bool
has_flag k flags = flags / 2 ^ k % 2 == 1

-- `ENET_PACKET_FLAG_RELIABLE`, `_UNSEQUENCED` and `_UNRELIABLE_FRAGMENT`.
abbrev pub is_reliable : Packet → Bool
is_reliable p = has_flag 0 p.flags

abbrev pub is_unsequenced : Packet → Bool
is_unsequenced p = has_flag 1 p.flags

abbrev pub is_unreliable_fragment : Packet → Bool
is_unreliable_fragment p = has_flag 3 p.flags

-- The packets in memory, by address. A packet that is freed is gone.
abbrev pub Packets : Type 0
Packets = ℕ → Option Packet

abbrev pub store : ℕ → Option Packet → Packets → Packets
store a p m b = if a == b then p else m b

-- `reference_count.wrapping_add(n)`.
unfoldable pub retain : ℕ → ℕ → Packets → Packets
retain a n m = elim (m a) [
  | none ↦ m
  | some p ↦ store a (some (record p { reference_count = add_size p.reference_count n })) m
]

-- `reference_count.wrapping_sub(1)`, and `enet_packet_destroy` at zero.
unfoldable pub release : ℕ → Packets → Packets
release a m = elim (m a) [
  | none ↦ m
  | some p ↦
      let count = sub_size p.reference_count 1 in
      if count == 0 then store a none m else store a (some (record p { reference_count = count })) m
]
