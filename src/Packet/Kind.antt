-- ===== src/Packet/Kind.antt =====
-- The kinds of packet of src/packet.rs, and how one is read back from a packet's flags.
use Prim.Native.Nat.{bit_or}
use rusty_enet.Base.{ℕ, ◌-◌, ◌^◌, ◌≡◌, Bool, true, false, not, List, arith, if◌then◌else◌, ◌≢◌}
use rusty_enet.Base.Bits.{bit_or_step}
use rusty_enet.Packet.{Packet, has_flag}

pub data PacketKind : Type 0 where
  unreliable always_unreliable : (sequenced : Bool) → PacketKind
  reliable : PacketKind

-- The flags of `Packet::new`.
unfoldable pub kind_flags : PacketKind → ℕ
kind_flags (unreliable true) = 0
kind_flags (unreliable false) = 2
kind_flags (always_unreliable true) = 8
kind_flags (always_unreliable false) = 10
kind_flags reliable = 1

-- `Packet::new`. The packet starts without a reference and takes one at once.
unfoldable pub new : List ℕ → PacketKind → Packet
unfolding kind_flags
new bytes k = record { reference_count = 1; flags = kind_flags k; contents = bytes }

-- `Packet::kind`, which reads `flags | !ENET_PACKET_FLAG_SENT`.
unfoldable pub kind : Packet → PacketKind
kind p =
    let flags = bit_or p.flags (2 ^ 32 - 1 - 256) in
    let sequenced = not (has_flag 1 flags) in
    if has_flag 0 flags
    then reliable
    else if has_flag 3 flags
    then always_unreliable sequenced
    else unreliable sequenced

-- `Packet::kind` calls every packet reliable, whatever its flags.
pub kind-reliable : (p : Packet) → kind p ≡ reliable
unfolding kind
kind-reliable p = ground (arith, bit_or_step p.flags (2 ^ 32 - 1 - 256))

-- `Packet::kind` does not return the kind that a packet was made with, for any kind but the
-- reliable one.
pub kind-new_ne : (bytes : List ℕ) (k : PacketKind) → k ≢ reliable → kind (new bytes k) ≢ k
kind-new_ne bytes k h e = ground (arith, kind-reliable (new bytes k))
