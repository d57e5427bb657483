-- ===== src/Wire/Header.antt =====
-- The header of a datagram: `ENetProtocolHeader` of src/c/protocol.rs, with the session number and
-- the flags in the upper bits of `peer_id`, as `enet_protocol_handle_incoming_commands` reads it.
use rusty_enet.Base.{ℕ, ◌+◌, ◌/◌, ◌%◌, ◌^◌, Bool, List, ◌==◌, if◌then◌else◌}
use rusty_enet.Wire.Decoding.{read16}

pub record Header : Type 0 where
  pub peer_id : ℕ
  pub session_id : ℕ
  pub flag_compressed : Bool
  pub flag_sent_time : Bool
  pub sent_time : ℕ

-- `sent_time` is there, and is used, only with its flag.
unfoldable pub decode_header : List ℕ → Header
decode_header l =
    let n = read16 0 l in
    record {
      peer_id = n % 2 ^ 12;
      session_id = n / 2 ^ 12 % 4;
      flag_compressed = n / 2 ^ 14 % 2 == 1;
      flag_sent_time = n / 2 ^ 15 % 2 == 1;
      sent_time = read16 2 l;
    }

unfoldable pub header_size : (has_checksum : Bool) → Header → ℕ
header_size has_checksum h = (if h.flag_sent_time then 4 else 2) + (if has_checksum then 4 else 0)
