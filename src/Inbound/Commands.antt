-- ===== src/Inbound/Commands.antt =====
-- The commands of a datagram: the second half of `enet_protocol_handle_incoming_commands` of
-- src/c/protocol.rs, the loop with its handlers and the acknowledgements that it queues.
use rusty_enet.Base.{
  ℕ, zero, suc, Bool, true, false, not, List, Option, none, some, ltb, if◌then◌else◌, drop, length,
}
use rusty_enet.Protocol.{
  Command, Body, acknowledge, connect, verify_connect, disconnect, ping, send_reliable,
  send_unreliable, send_fragment, send_unsequenced, bandwidth_limit, throttle_configure,
  send_unreliable_fragment,
}
use rusty_enet.Peer.{
  PeerState, disconnected, acknowledging_connect, disconnecting, acknowledging_disconnect, zombie,
  Peer, Context, Event, no_event, Outcome, accepted, rejected,
}
use rusty_enet.Connection.Ending.{handle_disconnect}
use rusty_enet.Limits.{handle_bandwidth_limit, handle_throttle_configure, handle_ping}
use rusty_enet.Window.{queue_acknowledgement}
use rusty_enet.Receive.{handle_send_reliable, handle_send_unreliable, handle_send_unsequenced}
use rusty_enet.Receive.Fragment.{handle_send_fragment, handle_send_unreliable_fragment}
use rusty_enet.Acknowledge.Removing.{handle_acknowledge}
use rusty_enet.Handshake.{handle_verify_connect}
use rusty_enet.Network.{Addresses, Network, find_peer, focus, restore}
use rusty_enet.Network.Answering.{Reply, refused, failed, answered, handle_connect}
use rusty_enet.Wire.Decoding.{decode_command}
use rusty_enet.Wire.Header.{Header, decode_header, header_size}
use rusty_enet.Inbound.{
  ReceivedData, payload, Sender, nobody_yet, refused_sender, panicking, known, find_sender,
  Decompress, Unpacking, not_unpacked, undefined, unpacked, unpack, verify_checksum, hear,
}

-- What the allocator answers while the command with so many bytes behind it is handled: the address
-- of a new command, and the bytes of a new packet that are not yet written.
pub record Allocator : Type 0 where
  pub address : (behind : ℕ) → ℕ
  pub memory : (behind size : ℕ) → List ℕ

-- What the handlers take of the bytes behind a command.
abbrev pub carried_length : Body → ℕ
carried_length (send_reliable n) = n
carried_length (send_unreliable _ n) = n
carried_length (send_unsequenced _ n) = n
carried_length (send_fragment f) = f.data_length
carried_length (send_unreliable_fragment f) = f.data_length
carried_length _ = 0

-- The two pointers that a handler may have been given null for: the peer, here its index, and the
-- event that the caller wants filled in.
pub record Reading (A : Type 0) : Type 0 where
  pub network : Network A
  pub event : Option Event
  pub peer : Option ℕ

-- A command is done, and the loop goes on or ends; or the code panics.
pub data Handled (A : Type 0) : Type 0 where
  goes_on ends : Reading A → Handled A
  panics : Handled A

-- Which commands are acknowledged, by the state of the peer once they are handled.
unfoldable pub acknowledges : PeerState → Body → Bool
acknowledges disconnecting b = false
acknowledges acknowledging_connect b = false
acknowledges disconnected b = false
acknowledges zombie b = false
acknowledges acknowledging_disconnect (disconnect _) = true
acknowledges acknowledging_disconnect b = false
acknowledges s b = true

unfoldable pub answer_command : (sent_time : ℕ) → Command → Peer → Peer
answer_command sent_time k p =
    if acknowledges p.state k.body then queue_acknowledgement k sent_time p else p

abbrev pub with_answer : (sent_time : ℕ) → Command → Context → Context
with_answer sent_time k c = record c { peer = answer_command sent_time k c.peer }

-- `flush` is `enet_host_flush`, on the peer that is worked on.
module _ (flush : Context → Context) (allocator : Allocator) where
  -- The `match` on the number of a command, where the peer is known. A request from it ends the loop.
  unfoldable pub handle_body : Command → (rest : List ℕ) → Context → Body → Outcome
  handle_body k rest c (acknowledge number time) =
      handle_acknowledge flush k.channel_id number time c
  handle_body k rest c (connect b d) = rejected c
  handle_body k rest c (verify_connect b) = handle_verify_connect b c
  handle_body k rest c (disconnect d) = accepted (handle_disconnect k.flag_acknowledge d c)
  handle_body k rest c ping = handle_ping c
  handle_body k rest c (send_reliable n) =
      handle_send_reliable (allocator.address (length rest)) n k rest c
  handle_body k rest c (send_unreliable u n) =
      handle_send_unreliable (allocator.address (length rest)) n k rest c
  handle_body k rest c (send_fragment f) =
      handle_send_fragment (allocator.address (length rest))
        (allocator.memory (length rest) f.total_length) f k rest c
  handle_body k rest c (send_unsequenced g n) =
      handle_send_unsequenced (allocator.address (length rest)) g n k rest c
  handle_body k rest c (bandwidth_limit i o) = handle_bandwidth_limit i o c
  handle_body k rest c (throttle_configure i a d) = handle_throttle_configure i a d c
  handle_body k rest c (send_unreliable_fragment f) =
      handle_send_unreliable_fragment (allocator.address (length rest))
        (allocator.memory (length rest) f.total_length) f k rest c

  abbrev pub handle_from_peer : Command → (rest : List ℕ) → Context → Outcome
  handle_from_peer k rest c = handle_body k rest c k.body

module _ {A : Type 0} where
  -- What a handler has done to one peer, and to the event.
  abbrev pub reading : Network A → ℕ → Context → Reading A
  reading n i c = record { network = restore n i c; event = c.event; peer = some i }

  -- After a handler: a command without the flag is not acknowledged, and one with it in a datagram
  -- without a time ends the loop.
  unfoldable pub finish_command : Header → Command → Network A → ℕ → Context → Handled A
  finish_command h k n i c =
      if not k.flag_acknowledge
      then goes_on (reading n i c)
      else if not h.flag_sent_time
      then ends (reading n i c)
      else goes_on (reading n i (with_answer h.sent_time k c))

  abbrev pub after_handler : Header → Command → Network A → ℕ → Outcome → Handled A
  after_handler h k n i (accepted c) = finish_command h k n i c
  after_handler h k n i (rejected c) = ends (reading n i c)

  abbrev pub finish_at : Header → Command → Network A → ℕ → Option Event → Option Peer → Handled A
  finish_at h k n i e none = panics
  finish_at h k n i e (some p) = finish_command h k n i (focus n p e)

  -- A request that was answered has its peer from then on.
  abbrev pub after_request : Header → Command → Reading A → Reply A → Handled A
  after_request h k s refused = ends s
  after_request h k s failed = panics
  after_request h k s (answered i n) = finish_at h k n i s.event (find_peer n i)

  module _ (addresses : Addresses A) (flush : Context → Context) (allocator : Allocator) where
    abbrev pub handle_at :
        Header → Command → (rest : List ℕ) → Reading A → ℕ → Option Peer → Handled A
    handle_at h k rest s i none = panics
    handle_at h k rest s i (some p) =
        after_handler h k s.network i
          (handle_from_peer flush allocator k rest (focus s.network p s.event))

    abbrev pub handle_request : Header → Command → Reading A → Body → Handled A
    handle_request h k s (connect b d) =
        after_request h k s (handle_connect addresses b d s.network)
    handle_request h k s _ = ends s

    abbrev pub handle_for : Header → Command → (rest : List ℕ) → Reading A → Option ℕ → Handled A
    handle_for h k rest s none = handle_request h k s k.body
    handle_for h k rest s (some i) = handle_at h k rest s i (find_peer s.network i)

    -- One round of the loop: without a peer, anything but a request ends it.
    unfoldable pub handle_command : Header → Command → (rest : List ℕ) → Reading A → Handled A
    handle_command h k rest s = handle_for h k rest s s.peer

    -- The loop, down the bytes of the datagram. Each round takes a command of at least four bytes.
    unfoldable pub handle_commands : (fuel : ℕ) → Header → List ℕ → Reading A → Option (Reading A)
    handle_commands zero h l s = some s
    handle_commands (suc fuel) h l s = elim (decode_command l) [
      | none ↦ some s
      | some r ↦ elim (handle_command h r.0 r.1 s) [
        | panics ↦ none
        | ends t ↦ some t
        | goes_on t ↦ handle_commands fuel h (drop (carried_length r.0.body) r.1) t
      ]
    ]

-- How the whole function ends: with the host and the event, or in a panic or undefined behaviour.
pub data Receipt (A : Type 0) : Type 0 where
  stuck : Receipt A
  received : Option Event → Network A → Receipt A

-- What the function returns.
abbrev pub reports : Option Event → Bool
reports none = false
reports (some e) = elim e.event_type [ no_event ↦ false | _ ↦ true ]

-- The parameters that a datagram comes with: the application's callbacks and the allocator.
pub record Surroundings : Type 0 where
  pub flush : Context → Context
  pub allocator : Allocator
  pub checksum : List (List ℕ) → ℕ
  pub decompress : Option Decompress

module _ {A : Type 0} where
  abbrev pub receipt : Option (Reading A) → Receipt A
  receipt none = stuck
  receipt (some s) = received s.event s.network

  abbrev pub sender_connect_id : Network A → Option ℕ → ℕ
  sender_connect_id n none = 0
  sender_connect_id n (some i) = elim (find_peer n i) [ none ↦ 0 | some p ↦ p.connect_id ]

  abbrev pub hear_sender : Option ℕ → (received_data_length : ℕ) → Network A → Network A
  hear_sender none length n = n
  hear_sender (some i) length n = hear i length n

  module _ (addresses : Addresses A) (s : Surroundings) where
    -- The checksum is right: the commands are handled.
    abbrev pub handle_verified :
        Header → Option ℕ → Option Event → Network A → Option ReceivedData → Receipt A
    handle_verified h i e n none = received e n
    handle_verified h i e n (some d) =
        let l = payload (header_size n.host.has_checksum h) d in
        receipt (
          handle_commands addresses s.flush s.allocator (length l) h l
            (record { network = hear_sender i d.received_data_length n; event = e; peer = i }))

    abbrev pub handle_unpacked :
        Header → Option ℕ → Option Event → Network A → Unpacking → Receipt A
    handle_unpacked h i e n not_unpacked = received e n
    handle_unpacked h i e n undefined = stuck
    handle_unpacked h i e n (unpacked d) =
        let checked =
          verify_checksum s.checksum n.host.has_checksum (header_size n.host.has_checksum h)
            (sender_connect_id n i) d in
        handle_verified h i e n checked

    -- The datagram is from someone, and nothing is known yet of its payload.
    unfoldable pub handle_from :
        Header → ReceivedData → Option Event → Network A → (peer : Option ℕ) → Receipt A
    handle_from h d e n i =
        handle_unpacked h i e n
          (unpack s.decompress h.flag_compressed (header_size n.host.has_checksum h) d)

    abbrev pub handle_sender : Header → ReceivedData → Option Event → Network A → Sender → Receipt A
    handle_sender h d e n refused_sender = received e n
    handle_sender h d e n panicking = stuck
    handle_sender h d e n nobody_yet = handle_from h d e n none
    handle_sender h d e n (known i) = handle_from h d e n (some i)

    -- `enet_protocol_handle_incoming_commands`, which returns `reports` of the event.
    unfoldable pub handle_incoming_commands : ReceivedData → Option Event → Network A → Receipt A
    handle_incoming_commands d e n =
        let h = decode_header d.buffer in
        if ltb d.received_data_length 2
        then received e n
        else handle_sender h d e n (find_sender addresses h n)
