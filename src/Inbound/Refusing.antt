-- ===== src/Inbound/Refusing.antt =====
-- Datagrams that are dropped whole: the tests at the head of
-- `enet_protocol_handle_incoming_commands` in src/c/protocol.rs.
use rusty_enet.Base.{ℕ, ◌<◌, ◌≡◌, ◌≢◌, false, Option, some, arith, get_elem?}
use rusty_enet.Peer.{disconnected, zombie, Peer, Event}
use rusty_enet.Network.{Addresses, Slot, Network}
use rusty_enet.Wire.Header.{decode_header}
use rusty_enet.Inbound.{ReceivedData, refused_sender, admits, find_sender}
use rusty_enet.Inbound.Commands.{Surroundings, received, handle_incoming_commands}

-- What a peer does not take: anything without a connection, a datagram from elsewhere unless its
-- address is the broadcast one, and one with the number of an earlier session.
pub data IsForeign {A : Type 0} (addresses : Addresses A) (x y : A) (session_id : ℕ) (p : Peer)
    : Type 0 where
  is_disconnected : p.state ≡ disconnected → IsForeign addresses x y session_id p
  is_zombie : p.state ≡ zombie → IsForeign addresses x y session_id p
  from_elsewhere :
      addresses.same x y ≡ false
      → addresses.is_broadcast y ≡ false
      → IsForeign addresses x y session_id p
  of_earlier_session :
      p.outgoing_peer_id < 4095
      → session_id ≢ p.incoming_session_id
      → IsForeign addresses x y session_id p

module _ {A : Type 0} (addresses : Addresses A) where
  admits_foreign :
      (x y : A) (k i : ℕ) (p : Peer)
      → IsForeign addresses x y k p
      → admits addresses (some x) (some y) k i p ≡ refused_sender
  unfolding admits
  admits_foreign x y k i p (is_disconnected e) = ground arith
  admits_foreign x y k i p (is_zombie e) = ground arith
  admits_foreign x y k i p (from_elsewhere e f) = ground arith
  admits_foreign x y k i p (of_earlier_session e f) = ground arith

  -- A datagram that names a peer, and comes from `x` while the peer is at `y`, is dropped whole
  -- and changes nothing at all, neither a peer nor the host nor the event, if the peer has no
  -- connection, if `x` is not the peer's address and that is not a broadcast one, or if the
  -- connection is set up and the datagram has another session's number. Whatever else it holds.
  pub handle_incoming_commands_foreign :
      (s : Surroundings) (d : ReceivedData) (e : Option Event) (n : Network A) (t : Slot A)
      (x y : A)
      → n.received_address ≡ some x
      → get_elem? n.slots (decode_header d.buffer).peer_id ≡ some t
      → t.address ≡ some y
      → (decode_header d.buffer).peer_id ≢ 4095
      → IsForeign addresses x y (decode_header d.buffer).session_id t.peer
      → handle_incoming_commands addresses s d e n ≡ received e n
  unfolding handle_incoming_commands find_sender
  handle_incoming_commands_foreign s d e n t x y g i a b f =
      let h = decode_header d.buffer in
      ground (arith, admits_foreign x y h.session_id h.peer_id t.peer f)
