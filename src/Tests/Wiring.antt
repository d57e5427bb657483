-- ===== src/Tests/Wiring.antt =====
-- Commands as bytes, and a datagram from one end to the other.
use rusty_enet.Base.{ℕ, ◌≡◌, refl, true, false, List, [], ◌∷◌, ◌++◌, none, some, arith}
use rusty_enet.Protocol.{ping}
use rusty_enet.Packet.{Packets, store}
use rusty_enet.Datagram.{Entry}
use rusty_enet.Wire.{encode_command, encode_body, command_byte}
use rusty_enet.Wire.Decoding.{decode_command}
use rusty_enet.Wire.RoundTrip.{CommandFits, decode_command-encode_command}
use rusty_enet.Wire.Header.{Header, decode_header}
use rusty_enet.Inbound.Commands.{Reading, handle_commands}
use rusty_enet.Outbound.{encode_header}
use rusty_enet.Outbound.Heading.{Announces, decode_header-encode_header}
use rusty_enet.Outbound.Reading.{
  entries_bytes, AreFramed, handle_entries, handle_commands-entries_bytes,
}
use rusty_enet.Tests.Samples.{reliable_command, packet, peer}
use rusty_enet.Tests.Meeting.{ports, client}
use rusty_enet.Tests.Arriving.{plain_allocator}

encode_command_sample : encode_command (reliable_command 7) [] ≡ 134 ∷ 0 ∷ 0 ∷ 7 ∷ 0 ∷ 3 ∷ []
unfolding encode_command command_byte encode_body
encode_command_sample = refl

reliable_command-CommandFits : CommandFits (reliable_command 7)
reliable_command-CommandFits = record {
  channel_id_fits = omega arith;
  reliable_sequence_number_fits = omega arith;
  body_fits = omega arith;
}

decode_command-encode_command_example :
    decode_command (encode_command (reliable_command 7) (9 ∷ []))
    ≡ some (reliable_command 7, 9 ∷ [])
decode_command-encode_command_example =
    decode_command-encode_command (reliable_command 7) (9 ∷ []) reliable_command-CommandFits

decode_header-encode_header_example :
    Announces true false 70000
      (peer false)
      (decode_header (encode_header none true false 70000 (peer false) ++ (5 ∷ [])))
decode_header-encode_header_example =
    decode_header-encode_header true false 70000 (peer false) (5 ∷ [])
      (record { peer_id_fits = omega arith; session_fits = omega arith })

abbrev packets : Packets
packets = store 8 (some (packet 1)) (λ a. none)

abbrev entries : List Entry
entries =
    record {
      command = reliable_command 5;
      part = some (record { packet = 8; offset = 0; size = 3 });
    }
    ∷ record {
      command = record {
        flag_acknowledge = true;
        flag_unsequenced = false;
        channel_id = 255;
        reliable_sequence_number = 2;
        body = ping;
      };
      part = none;
    }
    ∷ []

entries-AreFramed : AreFramed packets entries
entries-AreFramed = (
  record {
    fits = record {
      channel_id_fits = omega arith;
      reliable_sequence_number_fits = omega arith;
      body_fits = omega arith;
    };
    carries = refl;
  },
  (
    record {
      fits = record {
        channel_id_fits = omega arith;
        reliable_sequence_number_fits = omega arith;
        body_fits = tt;
      };
      carries = refl;
    },
    tt,
  ),
)

abbrev begun : Reading ℕ
begun = record { network = client; event = none; peer = some 0 }

abbrev header : Header
header = record {
  peer_id = 0;
  session_id = 0;
  flag_compressed = false;
  flag_sent_time = true;
  sent_time = 9;
}

entries_bytes_sample :
    entries_bytes packets entries ≡ 134 ∷ 0 ∷ 0 ∷ 5 ∷ 0 ∷ 3 ∷ 4 ∷ 5 ∷ 6 ∷ 133 ∷ 255 ∷ 0 ∷ 2 ∷ []
unfolding entries_bytes encode_command command_byte encode_body
entries_bytes_sample = refl

handle_commands-entries_bytes_example :
    handle_commands ports (λ c. c) plain_allocator 4096 header (entries_bytes packets entries) begun
    ≡ handle_entries ports (λ c. c) plain_allocator packets header entries begun
unfolding entries_bytes encode_command command_byte encode_body
handle_commands-entries_bytes_example =
    handle_commands-entries_bytes ports (λ c. c) plain_allocator 4096 packets header entries begun
      entries-AreFramed (omega arith)
