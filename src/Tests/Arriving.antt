-- ===== src/Tests/Arriving.antt =====
-- A datagram with a ping and a packet arrives at a client, and one of an earlier session.
use rusty_enet.Base.{
  ℕ, ◌+◌, ◌≡◌, ◌⊎◌, refl, List, [], ◌∷◌, Option, none, some, true, false, arith, get_elem?,
}
use rusty_enet.Peer.{Event}
use rusty_enet.Network.{Network}
use rusty_enet.Wire.Header.{Header, decode_header, header_size}
use rusty_enet.Limits.{handle_ping}
use rusty_enet.Window.{in_window, reliable_window, queue_acknowledgement}
use rusty_enet.Incoming.{insert_incoming, insert_from_end, place_reliable}
use rusty_enet.Incoming.Arriving.{
  queue_incoming_command, queue_by_kind, queue_reliable, admit_placed, admit,
}
use rusty_enet.Receive.{handle_send_reliable, whole}
use rusty_enet.Wire.Decoding.{decode_command}
use rusty_enet.Inbound.{
  ReceivedData, find_sender, admits, unpack, verify_checksum, hear, heard_from,
}
use rusty_enet.Inbound.Commands.{
  Allocator, Reading, Surroundings, Receipt, stuck, received, handle_commands,
  handle_incoming_commands, handle_from, handle_command, handle_body, finish_command,
  answer_command, acknowledges,
}
use rusty_enet.Inbound.Termination.{handle_commands-enough}
use rusty_enet.Inbound.Confinement.{Touches}
use rusty_enet.Inbound.Isolation.{handle_incoming_commands-Touches}
use rusty_enet.Inbound.Refusing.{of_earlier_session}
use rusty_enet.Inbound.Sparing.{handle_incoming_commands_spares}
use rusty_enet.Inbound.Acknowledging.{IsAcknowledged, handle_command-IsAcknowledged}
use rusty_enet.Protocol.{Command, send_reliable}
use rusty_enet.Tests.Samples.{peer, channel}
use rusty_enet.Tests.Delivery.{channel-IsOrderly, seven_in_window, seven_not_waiting}
use rusty_enet.Tests.Meeting.{ports, client}

abbrev pub plain_allocator : Allocator
plain_allocator = record { address = λ n. 500 + n; memory = λ n size. [] }

abbrev pub plain : Surroundings
plain = record { flush = λ c. c; allocator = plain_allocator; checksum = λ l. 0; decompress = none }

-- Commands 3 on the control channel and 7 on the first, which waits for 5 and 6.
abbrev commands : List ℕ
commands = 133 ∷ 255 ∷ 0 ∷ 3 ∷ 134 ∷ 0 ∷ 0 ∷ 7 ∷ 0 ∷ 3 ∷ 1 ∷ 2 ∷ 3 ∷ []

abbrev pub datagram : ReceivedData
datagram = record { buffer = 128 ∷ 0 ∷ 0 ∷ 9 ∷ commands; received_data_length = 17 }

-- The same, of session 2.
abbrev late_datagram : ReceivedData
late_datagram = record { buffer = 160 ∷ 0 ∷ 0 ∷ 9 ∷ commands; received_data_length = 17 }

abbrev handled : Receipt ℕ
handled = handle_incoming_commands ports plain datagram none client

abbrev left : Receipt ℕ → Network ℕ
left stuck = client
left (received e n) = n

abbrev told : Receipt ℕ → Option Event
told stuck = none
told (received e n) = e

handled_sample : handled ≡ received (told handled) (left handled)
unfolding handle_incoming_commands find_sender decode_header admits handle_from unpack
    verify_checksum handle_commands header_size decode_command handle_command hear handle_body
    handle_ping heard_from finish_command handle_send_reliable queue_incoming_command queue_by_kind
    queue_reliable admit_placed admit in_window reliable_window insert_incoming insert_from_end
    place_reliable answer_command acknowledges queue_acknowledgement
handled_sample = refl

-- What is left of a datagram of session 2, for the first peer of session 0.
late_dropped : handle_incoming_commands ports plain late_datagram none client ≡ received none client
unfolding handle_incoming_commands find_sender decode_header admits
late_dropped = refl

handle_incoming_commands_spares_example :
    get_elem? client.slots 0 ≡ some (record { peer = peer false; address = some 65537 })
unfolding decode_header
handle_incoming_commands_spares_example =
    handle_incoming_commands_spares ports 0 (record { peer = peer false; address = some 65537 })
      plain late_datagram none none client client 65537 65537
      (record { found = refl; in_use = λ e. absurd (ground arith) }) refl refl
      (of_earlier_session (omega arith) (λ e. absurd (omega arith))) late_dropped

handle_incoming_commands-Touches_example :
    (i : ℕ) × (((decode_header datagram.buffer).peer_id ≡ 4095)
      ⊎ ((decode_header datagram.buffer).peer_id ≡ i))
    × Touches i client (left handled)
handle_incoming_commands-Touches_example =
    handle_incoming_commands-Touches ports plain datagram none (told handled) client (left handled)
      handled_sample

abbrev begun : Reading ℕ
begun = record { network = client; event = none; peer = some 0 }

handle_commands-enough_example :
    handle_commands ports (λ c. c) plain_allocator 13 (decode_header datagram.buffer) commands begun
    ≡ handle_commands ports
        (λ c. c)
        plain_allocator
        4096
        (decode_header datagram.buffer)
        commands
        begun
handle_commands-enough_example =
    handle_commands-enough ports (λ c. c) plain_allocator 13 4096 (decode_header datagram.buffer)
      commands begun (omega arith) (omega arith)

abbrev timed : Header
timed = decode_header datagram.buffer

-- Number 7 with three bytes behind it.
abbrev seventh : Command
seventh = record {
  flag_acknowledge = true;
  flag_unsequenced = false;
  channel_id = 0;
  reliable_sequence_number = 7;
  body = send_reliable 3;
}

abbrev from_first : Reading ℕ
from_first = record { network = client; event = none; peer = some 0 }

handle_command-IsAcknowledged_example :
    IsAcknowledged timed seventh
      (whole 1 503 3 seventh (1 ∷ 2 ∷ 3 ∷ []))
      0
      channel
      (peer false)
      from_first
      (handle_command ports (λ c. c) plain_allocator timed seventh (1 ∷ 2 ∷ 3 ∷ []) from_first)
unfolding decode_header
handle_command-IsAcknowledged_example =
    handle_command-IsAcknowledged ports (λ c. c) plain_allocator timed seventh (1 ∷ 2 ∷ 3 ∷ [])
      from_first 0 3 (peer false) channel refl refl refl refl refl refl refl refl refl
      channel-IsOrderly (omega arith) seven_in_window (λ e. absurd (omega arith)) seven_not_waiting
