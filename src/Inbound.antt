-- ===== src/Inbound.antt =====
-- A datagram that arrives, up to its commands: the first half of
-- `enet_protocol_handle_incoming_commands` of src/c/protocol.rs.
-- The checksum and the compressor are callbacks of the application, and come in as parameters.
pub mod Commands
pub mod Quiet
pub mod Counted
pub mod Leading
pub mod Refinement
pub mod Termination
pub mod Confinement
pub mod Isolation
pub mod Refusing
pub mod Sparing
pub mod Acknowledging
use rusty_enet.Base.{
  ℕ, ◌+◌, ◌-◌, ◌^◌, Bool, true, false, ◌&&◌, ◌||◌, not, List, [], ◌∷◌, ◌++◌, Option, none, some,
  ltb, leb, ◌==◌, if◌then◌else◌, add32, take, drop, get_elem?, set, length,
}
use rusty_enet.Peer.{PeerState, disconnected, zombie, Peer}
use rusty_enet.Receive.Fragment.{write_at}
use rusty_enet.Network.{Addresses, Slot, Network}
use rusty_enet.Wire.{put32_raw}
use rusty_enet.Wire.Decoding.{read32_raw}
use rusty_enet.Wire.Header.{Header}

-- The buffer of 4096 bytes that `received_data` points to, and how much of it has arrived.
pub record ReceivedData : Type 0 where
  pub buffer : List ℕ
  pub received_data_length : ℕ

-- What stands behind the header.
abbrev pub payload : (header_size : ℕ) → ReceivedData → List ℕ
payload size d = take (d.received_data_length - size) (drop size d.buffer)

abbrev pub is_dead : PeerState → Bool
is_dead disconnected = true
is_dead zombie = true
is_dead _ = false

-- Whom a datagram is from. An address that is not set is unwrapped, which panics.
pub data Sender : Type 0 where
  nobody_yet refused_sender panicking : Sender
  known : (index : ℕ) → Sender

module _ {A : Type 0} (addresses : Addresses A) where
  -- The tests on the peer that the header names.
  unfoldable pub admits :
      (received known_address : Option A) → (session_id index : ℕ) → Peer → Sender
  admits received k session i p = if is_dead p.state then refused_sender else elim received [
    | none ↦ panicking
    | some x ↦ elim k [
      | none ↦ panicking
      | some y ↦
          if not (addresses.same x y) && not (addresses.is_broadcast y)
            || ltb p.outgoing_peer_id 4095 && not (session == p.incoming_session_id)
          then refused_sender
          else known i
    ]
  ]

  -- 4095 is the number of no peer.
  unfoldable pub find_sender : Header → Network A → Sender
  find_sender h n = if h.peer_id == 4095 then nobody_yet else elim (get_elem? n.slots h.peer_id) [
    | none ↦ refused_sender
    | some s ↦ admits n.received_address s.address h.session_id h.peer_id s.peer
  ]

-- The trait `Compressor` in its present state: the size that `decompress` returns for some bytes and
-- the length of the slice for its output, and that output.
abbrev pub Decompress : Type 0
Decompress = List ℕ → ℕ → ℕ × List ℕ

-- The datagram with its payload decompressed. Where less has arrived than the header's size, the
-- source makes a slice of a wrapped-around length, which is undefined.
pub data Unpacking : Type 0 where
  not_unpacked undefined : Unpacking
  unpacked : ReceivedData → Unpacking

abbrev pub expand : (header_size : ℕ) → ReceivedData → (original_size : ℕ) → List ℕ → Unpacking
expand size d n out =
    if n == 0 || ltb (4096 - size) n
    then not_unpacked
    else unpacked (record { buffer = take size d.buffer ++ out; received_data_length = size + n })

unfoldable pub unpack :
    Option Decompress → (flag_compressed : Bool) → (header_size : ℕ) → ReceivedData → Unpacking
unpack decompress false size d = unpacked d
unpack none true size d = not_unpacked
unpack (some f) true size d =
    if ltb d.received_data_length size
    then undefined
    else (let (n, out) = f (payload size d) (4096 - size) in expand size d n out)

-- The checksum is taken with the connection's number in its place.
unfoldable pub with_connect_id : (header_size connect_id : ℕ) → ReceivedData → ReceivedData
with_connect_id size connect_id d = record d {
  buffer = write_at (size - 4) (put32_raw connect_id []) d.buffer;
}

unfoldable pub verify_checksum :
    (checksum : List (List ℕ) → ℕ)
    → (has_checksum : Bool) → (header_size connect_id : ℕ) → ReceivedData
    → Option ReceivedData
verify_checksum checksum false size connect_id d = some d
verify_checksum checksum true size connect_id d =
    let e = with_connect_id size connect_id d in
    if checksum (take e.received_data_length e.buffer ∷ []) == read32_raw (size - 4) d.buffer
    then some e
    else none

module _ {A : Type 0} where
  -- The peer's address is the one that the datagram came from, and its bytes are counted.
  unfoldable pub heard_from : (received_data_length : ℕ) → Option A → Slot A → Slot A
  heard_from n x s = record {
    peer = record s.peer {
      traffic = record s.peer.traffic { incoming_data_total = add32 s.peer.incoming_data_total n };
    };
    address = x;
  }

  abbrev pub hear_at : ℕ → (received_data_length : ℕ) → Option (Slot A) → Network A → Network A
  hear_at i length none n = n
  hear_at i length (some s) n = record n {
    slots = set n.slots i (heard_from length n.received_address s);
  }

  unfoldable pub hear : (index received_data_length : ℕ) → Network A → Network A
  hear i length n = hear_at i length (get_elem? n.slots i) n
