-- ===== src/Outbound/Heading.antt =====
-- The header that one host writes is the one that the other reads:
-- `enet_protocol_send_outgoing_commands` and `enet_protocol_handle_incoming_commands` of
-- src/c/protocol.rs.
use rusty_enet.Base.{
  ℕ, zero, suc, ◌+◌, ◌*◌, ◌%◌, ◌^◌, ◌≤◌, ◌<◌, ◌≡◌, refl, Bool, true, false, List, ◌++◌, none, arith,
  length, bit_or, if◌then◌else◌, ltb,
}
use rusty_enet.Base.Bits.{bit_or_low}
use rusty_enet.Peer.{Peer}
use rusty_enet.Wire.Header.{Header, decode_header}
use rusty_enet.Outbound.{header_flags, encode_header}

-- Two bits of the session number and the two flags.
flags_or :
    (t c : Bool) (s : ℕ)
    → s < 4
    → bit_or ((if t then 2 ^ 15 else 0) + (if c then 2 ^ 14 else 0)) (s * 2 ^ 12) % 2 ^ 16
      ≡ ((if t then 8 else 0) + (if c then 4 else 0) + s) * 2 ^ 12
flags_or false false zero h = refl
flags_or false true zero h = refl
flags_or true false zero h = refl
flags_or true true zero h = refl
flags_or false false (suc zero) h = refl
flags_or false true (suc zero) h = refl
flags_or true false (suc zero) h = refl
flags_or true true (suc zero) h = refl
flags_or false false (suc (suc zero)) h = refl
flags_or false true (suc (suc zero)) h = refl
flags_or true false (suc (suc zero)) h = refl
flags_or true true (suc (suc zero)) h = refl
flags_or false false (suc (suc (suc zero))) h = refl
flags_or false true (suc (suc (suc zero))) h = refl
flags_or true false (suc (suc (suc zero))) h = refl
flags_or true true (suc (suc (suc zero))) h = refl
flags_or t c (suc (suc (suc (suc s)))) h = absurd (omega arith)

-- The session number that goes into the header.
abbrev pub sent_session : Peer → ℕ
sent_session p = if ltb p.outgoing_peer_id 4095 then p.outgoing_session_id else 0

-- The values of the two fields that the header is made of.
pub record HeaderFits (p : Peer) : Type 0 where
  pub peer_id_fits : p.outgoing_peer_id ≤ 4095
  pub session_fits : p.outgoing_session_id < 4

peer_id_bits :
    (t c : Bool) (p : Peer)
    → HeaderFits p
    → bit_or p.outgoing_peer_id (header_flags t c p)
      ≡ p.outgoing_peer_id + ((if t then 8 else 0) + (if c then 4 else 0) + sent_session p) * 2 ^ 12
unfolding header_flags
peer_id_bits t c p h = ground (
  arith,
  flags_or t c p.outgoing_session_id h.session_fits,
  flags_or t c 0,
  bit_or_low 12 p.outgoing_peer_id
      ((if t then 8 else 0) + (if c then 4 else 0) + p.outgoing_session_id),
  bit_or_low 12 p.outgoing_peer_id ((if t then 8 else 0) + (if c then 4 else 0)),
)

-- What the header of a datagram says, read from its bytes.
pub record Announces (t c : Bool) (now : ℕ) (p : Peer) (h : Header) : Type 0 where
  pub peer_id : h.peer_id ≡ p.outgoing_peer_id
  pub session_id : h.session_id ≡ sent_session p
  pub compressed : h.flag_compressed ≡ c
  pub has_sent_time : h.flag_sent_time ≡ t
  pub sent_time : t ≡ true → h.sent_time ≡ now % 2 ^ 16

-- The header of a datagram to a peer, whose number is of 12 bits and whose session number of two,
-- is read as that number, the session's number if the peer is established and 0 if not, the two
-- flags, and the low half of the time if that is there; whatever bytes follow. Hosts that use the
-- new packet put more in front and are not covered.
pub decode_header-encode_header :
    (t c : Bool) (now : ℕ) (p : Peer) (l : List ℕ)
    → HeaderFits p
    → Announces t c now p (decode_header (encode_header none t c now p ++ l))
unfolding decode_header encode_header
decode_header-encode_header t c now p l h = ground (arith, peer_id_bits t c p h)

pub length-encode_header :
    (t c : Bool) (now : ℕ) (p : Peer) → length (encode_header none t c now p) ≡ (if t then 4 else 2)
unfolding encode_header
length-encode_header t c now p = ground arith
