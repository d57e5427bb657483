-- ===== src/Wire/RoundTrip.antt =====
-- Reading a command gives back the one that was written.
use rusty_enet.Base.{
  ℕ, ◌+◌, ◌*◌, ◌/◌, ◌%◌, ◌^◌, ◌<◌, ◌≤◌, ◌≡◌, ap, List, ◌∷◌, some, arith, length, drop, get_or, leb,
}
use rusty_enet.Protocol.{
  ConnectBody, FragmentBody, Body, acknowledge, connect, verify_connect, disconnect, ping,
  send_reliable, send_unreliable, send_fragment, send_unsequenced, bandwidth_limit,
  throttle_configure, send_unreliable_fragment, Command, command_size, command_number,
}
use rusty_enet.Wire.{
  put32, encode_connect, encode_fragment, encode_body, command_byte, encode_command,
}
use rusty_enet.Wire.Decoding.{
  decode_connect, decode_fragment, decode_body, decode_command, command_sizes,
}

-- A field's value has a width.
abbrev pub IsU8 : ℕ → Type 0
IsU8 n = n < 2 ^ 8

abbrev pub IsU16 : ℕ → Type 0
IsU16 n = n < 2 ^ 16

abbrev pub IsU32 : ℕ → Type 0
IsU32 n = n < 2 ^ 32

pub record ConnectFits (b : ConnectBody) : Type 0 where
  pub outgoing_peer_id_fits : IsU16 b.outgoing_peer_id
  pub incoming_session_id_fits : IsU8 b.incoming_session_id
  pub outgoing_session_id_fits : IsU8 b.outgoing_session_id
  pub mtu_fits : IsU32 b.mtu
  pub window_size_fits : IsU32 b.window_size
  pub channel_count_fits : IsU32 b.channel_count
  pub incoming_bandwidth_fits : IsU32 b.incoming_bandwidth
  pub outgoing_bandwidth_fits : IsU32 b.outgoing_bandwidth
  pub interval_fits : IsU32 b.packet_throttle_interval
  pub acceleration_fits : IsU32 b.packet_throttle_acceleration
  pub deceleration_fits : IsU32 b.packet_throttle_deceleration
  pub connect_id_fits : IsU32 b.connect_id

pub record FragmentFits (f : FragmentBody) : Type 0 where
  pub start_sequence_number_fits : IsU16 f.start_sequence_number
  pub data_length_fits : IsU16 f.data_length
  pub fragment_count_fits : IsU32 f.fragment_count
  pub fragment_number_fits : IsU32 f.fragment_number
  pub total_length_fits : IsU32 f.total_length
  pub fragment_offset_fits : IsU32 f.fragment_offset

-- Each field's value has the width of the field.
abbrev pub BodyFits : Body → Type 0
BodyFits (acknowledge n t) = IsU16 n × IsU16 t
BodyFits (connect b d) = ConnectFits b × IsU32 d
BodyFits (verify_connect b) = ConnectFits b
BodyFits (disconnect d) = IsU32 d
BodyFits ping = Unit
BodyFits (send_reliable n) = IsU16 n
BodyFits (send_unreliable u n) = IsU16 u × IsU16 n
BodyFits (send_fragment f) = FragmentFits f
BodyFits (send_unsequenced g n) = IsU16 g × IsU16 n
BodyFits (bandwidth_limit i o) = IsU32 i × IsU32 o
BodyFits (throttle_configure i a d) = IsU32 i × IsU32 a × IsU32 d
BodyFits (send_unreliable_fragment f) = FragmentFits f

pub record CommandFits (k : Command) : Type 0 where
  pub channel_id_fits : IsU8 k.channel_id
  pub reliable_sequence_number_fits : IsU16 k.reliable_sequence_number
  pub body_fits : BodyFits k.body

read32-put32 :
    (n : ℕ)
    → IsU32 n
    → n / 2 ^ 24 % 256 * 2 ^ 24 + n / 2 ^ 16 % 256 * 2 ^ 16 + n / 256 % 256 * 256 + n % 256 ≡ n
read32-put32 n h = omega arith

read16-put16 : (n : ℕ) → IsU16 n → n / 256 % 256 * 256 + n % 256 ≡ n
read16-put16 n h = omega arith

-- Four bytes of the command header stand in front.
decode_fragment-encode_fragment :
    (a b c d : ℕ) (f : FragmentBody) (l : List ℕ)
    → FragmentFits f
    → decode_fragment (a ∷ b ∷ c ∷ d ∷ encode_fragment f l) ≡ f
unfolding decode_fragment encode_fragment
decode_fragment-encode_fragment a b c d f l h = ground arith

decode_connect-encode_connect :
    (a b c d : ℕ) (k : ConnectBody) (l : List ℕ)
    → ConnectFits k
    → decode_connect (a ∷ b ∷ c ∷ d ∷ encode_connect k l) ≡ k
unfolding decode_connect encode_connect
decode_connect-encode_connect a b c d k l h = ground arith

decode_body-encode_body :
    (a b c d : ℕ) (k : Body) (l : List ℕ)
    → BodyFits k
    → decode_body (command_number k) (a ∷ b ∷ c ∷ d ∷ encode_body k l) ≡ k
unfolding decode_body encode_body
decode_body-encode_body a b c d (connect k n) l h =
    ground (arith, decode_connect-encode_connect a b c d k (put32 n l) h.0)
decode_body-encode_body a b c d (verify_connect k) l h =
    ap verify_connect (decode_connect-encode_connect a b c d k l h)
decode_body-encode_body a b c d k l h = ground arith

-- Behind the body stand the other bytes.
drop-encode_body :
    (a b c d : ℕ) (k : Body) (l : List ℕ)
    → drop (command_size k) (a ∷ b ∷ c ∷ d ∷ encode_body k l) ≡ l
unfolding encode_body encode_connect encode_fragment
drop-encode_body a b c d k l = ground arith

length-encode_body :
    (k : Body) (l : List ℕ) → length (encode_body k l) + 4 ≡ command_size k + length l
unfolding encode_body encode_connect encode_fragment
length-encode_body k l = ground arith

command_sizes-command_number :
    (k : Body) → get_or command_sizes (command_number k) 0 ≡ command_size k
command_sizes-command_number k = ground arith

pub encode_command-header : (k : Command) → 4 ≤ get_or command_sizes (command_number k.body) 0
encode_command-header k = ground arith

module _ (k : Command) (l : List ℕ) where
  -- Writing a command adds as many bytes as `COMMAND_SIZES` has for its number.
  pub length-encode_command :
      length (encode_command k l) ≡ get_or command_sizes (command_number k.body) 0 + length l
  unfolding encode_command
  length-encode_command =
      ground (arith, length-encode_body k.body l, command_sizes-command_number k.body)

  flags-command_byte :
      (leb 128 (command_byte k % 256) ≡ k.flag_acknowledge)
      × (leb 64 (command_byte k % 256 % 128) ≡ k.flag_unsequenced)
      × (command_byte k % 256 % 16 ≡ command_number k.body)
      × (1 ≤ command_number k.body)
      × (command_number k.body ≤ 12)
  unfolding command_byte
  flags-command_byte = ground arith

  -- A command whose fields have the widths of the wire, read behind what was written of it, is the
  -- same command, and the bytes that follow are left as they are.
  pub decode_command-encode_command :
      CommandFits k → decode_command (encode_command k l) ≡ some (k, l)
  unfolding decode_command encode_command
  decode_command-encode_command h = ground (
    arith,
    flags-command_byte,
    length-encode_body k.body l,
    command_sizes-command_number k.body,
    decode_body-encode_body (command_byte k % 256) (k.channel_id % 256)
        (k.reliable_sequence_number / 256 % 256) (k.reliable_sequence_number % 256) k.body l
        h.body_fits,
    drop-encode_body (command_byte k % 256) (k.channel_id % 256)
        (k.reliable_sequence_number / 256 % 256) (k.reliable_sequence_number % 256) k.body l,
  )
