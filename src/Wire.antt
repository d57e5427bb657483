-- ===== src/Wire.antt =====
-- The bytes of commands: the packed structs of src/c/protocol.rs, as the code writes and reads them
-- through pointers. A datagram is the list of its bytes. All fields are big-endian but `connect_id`,
-- which the source copies without `to_be`, in the byte order of a little-endian machine.
pub mod Decoding
pub mod RoundTrip
pub mod Header
use rusty_enet.Base.{
  ℕ, ◌+◌, ◌*◌, ◌/◌, ◌%◌, ◌^◌, Bool, true, false, List, [], ◌∷◌, ◌++◌, if◌then◌else◌,
}
use rusty_enet.Protocol.{
  ConnectBody, FragmentBody, Body, acknowledge, connect, verify_connect, disconnect, ping,
  send_reliable, send_unreliable, send_fragment, send_unsequenced, bandwidth_limit,
  throttle_configure, send_unreliable_fragment, command_number, Command,
}

-- A `u8`, a `u16` and a `u32` in front of other bytes.
abbrev pub put8 : ℕ → List ℕ → List ℕ
put8 n l = n % 256 ∷ l

abbrev pub put16 : ℕ → List ℕ → List ℕ
put16 n l = n / 256 % 256 ∷ n % 256 ∷ l

abbrev pub put32 : ℕ → List ℕ → List ℕ
put32 n l = n / 2 ^ 24 % 256 ∷ n / 2 ^ 16 % 256 ∷ n / 256 % 256 ∷ n % 256 ∷ l

-- Four bytes in the order of the machine.
abbrev pub put32_raw : ℕ → List ℕ → List ℕ
put32_raw n l = n % 256 ∷ n / 256 % 256 ∷ n / 2 ^ 16 % 256 ∷ n / 2 ^ 24 % 256 ∷ l

-- `ENetProtocolVerifyConnect` after its header, and all but the last field of `ENetProtocolConnect`.
unfoldable pub encode_connect : ConnectBody → List ℕ → List ℕ
encode_connect b l = put16 b.outgoing_peer_id (
    put8 b.incoming_session_id (
      put8 b.outgoing_session_id (
        put32 b.mtu (
          put32 b.window_size (
            put32 b.channel_count (
              put32 b.incoming_bandwidth (
                put32 b.outgoing_bandwidth (
                  put32 b.packet_throttle_interval (
                    put32 b.packet_throttle_acceleration
                      (put32 b.packet_throttle_deceleration (put32_raw b.connect_id l)))))))))))

-- `ENetProtocolSendFragment` after its header.
unfoldable pub encode_fragment : FragmentBody → List ℕ → List ℕ
encode_fragment f l = put16 f.start_sequence_number (
    put16 f.data_length (
      put32 f.fragment_count
        (put32 f.fragment_number (put32 f.total_length (put32 f.fragment_offset l)))))

-- The fields after the command header, in front of other bytes.
unfoldable pub encode_body : Body → List ℕ → List ℕ
unfolding encode_connect encode_fragment
encode_body (acknowledge n t) l = put16 n (put16 t l)
encode_body (connect b d) l = encode_connect b (put32 d l)
encode_body (verify_connect b) l = encode_connect b l
encode_body (disconnect d) l = put32 d l
encode_body ping l = l
encode_body (send_reliable n) l = put16 n l
encode_body (send_unreliable u n) l = put16 u (put16 n l)
encode_body (send_fragment f) l = encode_fragment f l
encode_body (send_unsequenced g n) l = put16 g (put16 n l)
encode_body (bandwidth_limit i o) l = put32 i (put32 o l)
encode_body (throttle_configure i a d) l = put32 i (put32 a (put32 d l))
encode_body (send_unreliable_fragment f) l = encode_fragment f l

-- The command byte: two flags and the number.
unfoldable pub command_byte : Command → ℕ
command_byte k =
    command_number k.body
    + (if k.flag_unsequenced then 64 else 0)
    + (if k.flag_acknowledge then 128 else 0)

-- `ENetProtocolCommandHeader` and what follows it.
unfoldable pub encode_command : Command → List ℕ → List ℕ
unfolding command_byte encode_body
encode_command k l =
    put8 (command_byte k)
      (put8 k.channel_id (put16 k.reliable_sequence_number (encode_body k.body l)))
