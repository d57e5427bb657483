-- ===== src/Timeout.antt =====
-- Reliable commands that were not acknowledged in time: `enet_protocol_check_timeouts` of
-- src/c/protocol.rs.
pub mod Sweeping
pub mod GivingUp
use rusty_enet.Base.{
  ℕ, ◌+◌, ◌%◌, ◌^◌, Bool, true, false, ◌&&◌, ◌||◌, not, List, [], ◌∷◌, ◌++◌, ltb, leb, ◌==◌,
  if◌then◌else◌, add32, sub32, mul32,
}
use rusty_enet.Peer.{OutgoingCommand, Peer, Context}
use rusty_enet.Outgoing.{has_packet}
use rusty_enet.Connection.{notify_disconnect}
use rusty_enet.Acknowledge.{time_difference}

unfoldable pub is_due : (now : ℕ) → OutgoingCommand → Bool
is_due now o = leb o.round_trip_timeout (time_difference now o.sent_time)

-- The oldest sent time among the commands that are due. It starts over at 0, and where a command is
-- older.
unfoldable pub mark_earliest : OutgoingCommand → Peer → Peer
mark_earliest o p =
    if p.earliest_timeout == 0 || leb 86400000 (sub32 o.sent_time p.earliest_timeout)
    then record p { timing = record p.timing { earliest_timeout = o.sent_time } }
    else p

-- `1 << (send_attempts - 1)` on 32 bits, where the shift goes by its distance modulo 32.
unfoldable pub attempts_weight : OutgoingCommand → ℕ
attempts_weight o = 2 ^ ((o.send_attempts + 31) % 32)

-- Whether the other end counts as gone.
unfoldable pub gives_up : (now : ℕ) → OutgoingCommand → Peer → Bool
gives_up now o p =
    let silence = time_difference now p.earliest_timeout in
    not (p.earliest_timeout == 0)
    && (leb p.timeout_maximum silence
        || leb p.timeout_limit (attempts_weight o) && leb p.timeout_minimum silence)

unfoldable pub double_timeout : OutgoingCommand → OutgoingCommand
double_timeout o = record o { round_trip_timeout = mul32 o.round_trip_timeout 2 }

-- What the peer notes of a command that is sent again.
unfoldable pub lose : OutgoingCommand → Peer → Peer
lose o p = record p {
  traffic = record p.traffic { packets_lost = add32 p.packets_lost 1 };
  flow = record p.flow {
    reliable_data_in_transit =
        (if has_packet o
          then sub32 p.reliable_data_in_transit o.fragment_length
          else p.reliable_data_in_transit);
  };
}

-- The commands that the loop has passed: those that stay, and those that go to the front of the two
-- queues, one behind the other.
pub record Passed : Type 0 where
  pub kept : List OutgoingCommand
  pub again : List OutgoingCommand
  pub again_with_packet : List OutgoingCommand

unfoldable pub keep_sent : OutgoingCommand → Passed → Passed
keep_sent o s = record s { kept = s.kept ++ (o ∷ []) }

unfoldable pub resend : OutgoingCommand → Passed → Passed
resend o s =
    if has_packet o
    then record s { again_with_packet = s.again_with_packet ++ (double_timeout o ∷ []) }
    else record s { again = s.again ++ (double_timeout o ∷ []) }

-- Where the command that is sent again was the first, the next timeout is that of the new first.
unfoldable pub refresh_next : (kept todo : List OutgoingCommand) → Peer → Peer
refresh_next [] (o ∷ l) p = record p {
  timing = record p.timing { next_timeout = add32 o.sent_time o.round_trip_timeout };
}
refresh_next kept todo p = p

-- The peer's queues with `todo` still ahead of the loop.
unfoldable pub assemble : Passed → (todo : List OutgoingCommand) → Peer → Peer
assemble s todo p = record p {
  queues = record p.queues {
    sent_reliable_commands = s.kept ++ todo;
    outgoing_commands = s.again ++ p.outgoing_commands;
    outgoing_send_reliable_commands = s.again_with_packet ++ p.outgoing_send_reliable_commands;
  };
}

-- The loop, with whether it ended by giving the peer up.
unfoldable pub sweep : (now : ℕ) → Passed → List OutgoingCommand → Peer → Bool × Peer
sweep now s [] p = (false, assemble s [] p)
sweep now s (o ∷ l) p =
    let p' = mark_earliest o p in
    let waiting = sweep now (keep_sent o s) l p in
    let resent = sweep now (resend o s) l (refresh_next s.kept l (lose o p')) in
    if not (is_due now o)
    then waiting
    else if gives_up now o p'
    then (true, assemble s (o ∷ l) p')
    else resent

abbrev pub nothing_passed : Passed
nothing_passed = record { kept = []; again = []; again_with_packet = [] }

unfoldable pub check_timeouts : Context → Bool × Context
check_timeouts c =
    let (gone, p) = sweep c.host.service_time nothing_passed c.peer.sent_reliable_commands c.peer in
    let d : Context = record c { peer = p } in
    if gone then (true, notify_disconnect d) else (false, d)
