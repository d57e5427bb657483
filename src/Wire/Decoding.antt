-- ===== src/Wire/Decoding.antt =====
-- How a command is read from the bytes of a datagram: the table `COMMAND_SIZES` and the tests at the
-- head of the loop in `enet_protocol_handle_incoming_commands` of src/c/protocol.rs, and the fields
-- that its handlers read.
use rusty_enet.Base.{
  ℕ, ◌+◌, ◌*◌, ◌%◌, ◌^◌, List, [], ◌∷◌, ◌||◌, Option, none, some, ltb, leb, ◌==◌, if◌then◌else◌,
  get_or, length, drop,
}
use rusty_enet.Protocol.{
  ConnectBody, FragmentBody, Body, acknowledge, connect, verify_connect, disconnect, ping,
  send_reliable, send_unreliable, send_fragment, send_unsequenced, bandwidth_limit,
  throttle_configure, send_unreliable_fragment, Command,
}

-- A field at an offset.
abbrev pub read8 : ℕ → List ℕ → ℕ
read8 i l = get_or l i 0

abbrev pub read16 : ℕ → List ℕ → ℕ
read16 i l = read8 i l * 256 + read8 (i + 1) l

abbrev pub read32 : ℕ → List ℕ → ℕ
read32 i l = read8 i l * 2 ^ 24 + read8 (i + 1) l * 2 ^ 16 + read8 (i + 2) l * 256 + read8 (i + 3) l

abbrev pub read32_raw : ℕ → List ℕ → ℕ
read32_raw i l =
    read8 (i + 3) l * 2 ^ 24 + read8 (i + 2) l * 2 ^ 16 + read8 (i + 1) l * 256 + read8 i l

-- `COMMAND_SIZES`.
abbrev pub command_sizes : List ℕ
command_sizes = 0 ∷ 8 ∷ 48 ∷ 44 ∷ 8 ∷ 4 ∷ 6 ∷ 8 ∷ 24 ∷ 8 ∷ 12 ∷ 16 ∷ 24 ∷ []

-- The structs that several commands share, their header included.
unfoldable pub decode_connect : List ℕ → ConnectBody
decode_connect l = record {
  outgoing_peer_id = read16 4 l;
  incoming_session_id = read8 6 l;
  outgoing_session_id = read8 7 l;
  mtu = read32 8 l;
  window_size = read32 12 l;
  channel_count = read32 16 l;
  incoming_bandwidth = read32 20 l;
  outgoing_bandwidth = read32 24 l;
  packet_throttle_interval = read32 28 l;
  packet_throttle_acceleration = read32 32 l;
  packet_throttle_deceleration = read32 36 l;
  connect_id = read32_raw 40 l;
}

unfoldable pub decode_fragment : List ℕ → FragmentBody
decode_fragment l = record {
  start_sequence_number = read16 4 l;
  data_length = read16 6 l;
  fragment_count = read32 8 l;
  fragment_number = read32 12 l;
  total_length = read32 16 l;
  fragment_offset = read32 20 l;
}

-- The member of the union that a command's number selects; the numbers are those of the table but 0.
unfoldable pub decode_body : (number : ℕ) → List ℕ → Body
unfolding decode_connect decode_fragment
decode_body number l =
    if number == 1
    then acknowledge (read16 4 l) (read16 6 l)
    else if number == 2
    then connect (decode_connect l) (read32 44 l)
    else if number == 3
    then verify_connect (decode_connect l)
    else if number == 4
    then disconnect (read32 4 l)
    else if number == 5
    then ping
    else if number == 6
    then send_reliable (read16 4 l)
    else if number == 7
    then send_unreliable (read16 4 l) (read16 6 l)
    else if number == 8
    then send_fragment (decode_fragment l)
    else if number == 9
    then send_unsequenced (read16 4 l) (read16 6 l)
    else if number == 10
    then bandwidth_limit (read32 4 l) (read32 8 l)
    else if number == 11
    then throttle_configure (read32 4 l) (read32 8 l) (read32 12 l)
    else if number == 12
    then send_unreliable_fragment (decode_fragment l)
    else ping

-- The command at the head of some bytes, with the bytes behind it; none where the loop stops.
unfoldable pub decode_command : List ℕ → Option (Command × List ℕ)
unfolding decode_body
decode_command l =
    let number = read8 0 l % 16 in
    let size = get_or command_sizes number 0 in
    if ltb (length l) 4
    then none
    else if leb 13 number
    then none
    else if size == 0 || ltb (length l) size
    then none
    else some (
      record {
        flag_acknowledge = leb 128 (read8 0 l);
        flag_unsequenced = leb 64 (read8 0 l % 128);
        channel_id = read8 1 l;
        reliable_sequence_number = read16 2 l;
        body = decode_body number l;
      },
      drop size l,
    )
