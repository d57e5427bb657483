-- ===== src/Datagram/Filling.antt =====
-- The choice of what a peer sends next: `enet_protocol_check_outgoing_commands` of src/c/protocol.rs.
use rusty_enet.Base.{
  ℕ, zero, suc, ◌+◌, ◌/◌, ◌%◌, ◌^◌, Bool, true, false, ◌&&◌, List, [], ◌∷◌, ◌++◌, Option, none,
  some, ltb, ◌==◌, if◌then◌else◌, add16, add32, mul32, get_or, set, bit_or, length,
}
use rusty_enet.Datagram.Choosing.{
  Progress, Pick, nothing, from_outgoing, from_reliable, pick, channel_of, admitted, passed,
  wrapped, held, admission, is_full,
}
use rusty_enet.Peer.{OutgoingCommand, Channel, Peer, Context}
use rusty_enet.Outgoing.{has_packet, with_channel}
use rusty_enet.Datagram.{Part, Datagram, write, with_continue_sending, release_of, leave_when_done}

-- The command as it is sent, and the peer's note of it.
unfoldable pub attempt : (now : ℕ) → Peer → OutgoingCommand → OutgoingCommand
attempt now p o = record o {
  send_attempts = add16 o.send_attempts 1;
  round_trip_timeout =
      (if o.round_trip_timeout == 0
        then add32 p.round_trip_time (mul32 4 p.round_trip_time_variance)
        else o.round_trip_timeout);
  sent_time = now;
}

abbrev pub enter_channel : OutgoingCommand → Channel → Channel
enter_channel o c =
    let w = o.reliable_sequence_number / 4096 in
    record c {
      used_reliable_windows = bit_or c.used_reliable_windows (2 ^ w);
      reliable_windows = set c.reliable_windows w (add16 (get_or c.reliable_windows w 0) 1);
    }

unfoldable pub count_window : OutgoingCommand → Option Channel → Peer → Peer
unfolding with_channel
count_window o none p = p
count_window o (some c) p =
    if ltb o.send_attempts 1 then with_channel o.command.channel_id (enter_channel o c) p else p

abbrev pub start_clock : (now : ℕ) → OutgoingCommand → List OutgoingCommand → Peer → Peer
start_clock now o [] p = record p {
  timing = record p.timing { next_timeout = add32 now o.round_trip_timeout };
}
start_clock now o (_ ∷ _) p = p

unfoldable pub note_sent : (now : ℕ) → OutgoingCommand → Peer → Peer
unfolding attempt
note_sent now o p =
    let o' = attempt now p o in
    let q = start_clock now o' p.sent_reliable_commands p in
    record q {
      queues = record q.queues { sent_reliable_commands = q.sent_reliable_commands ++ (o' ∷ []) };
      flow = record q.flow {
        reliable_data_in_transit = add32 q.reliable_data_in_transit o.fragment_length;
      };
    }

abbrev pub part_of : OutgoingCommand → Option Part
part_of o = elim o.packet [
  | none ↦ none
  | some a ↦ some (record { packet = a; offset = o.fragment_offset; size = o.fragment_length })
]

-- The command in the datagram.
unfoldable pub put : OutgoingCommand → Progress → Progress
put o s = record s {
  peer = record s.peer {
    traffic = record s.peer.traffic { packets_sent = add32 s.peer.packets_sent 1 };
  };
  datagram = write (record { command = o.command; part = part_of o }) s.datagram;
}

unfoldable pub send_reliable : (now : ℕ) → OutgoingCommand → Progress → Progress
send_reliable now o s = record s {
  peer = note_sent now o (count_window o (channel_of o s.peer) s.peer);
  datagram = record s.datagram { has_sent_time = true };
}

-- A command with a packet waits for the end of sending, when its packet is released.
unfoldable pub send_unreliable : OutgoingCommand → Progress → Progress
send_unreliable o s =
    if has_packet o then record s { sent_unreliable = s.sent_unreliable ++ (o ∷ []) } else s

-- The throttle's counter goes on by 7 of 32 for each unreliable packet.
unfoldable pub count_packet : Peer → Peer
count_packet p = record p {
  throttle = record p.throttle { packet_throttle_counter = add32 p.packet_throttle_counter 7 % 32 };
}

-- What becomes of a command.
pub data Visit : Type 0 where
  passes : Visit
  full stalls takes drops : Progress → Visit

unfoldable pub visit_unreliable : OutgoingCommand → Progress → Visit
visit_unreliable o s =
    if has_packet o && o.fragment_offset == 0
    then (let t : Progress = record s { peer = count_packet s.peer } in
        if ltb t.peer.packet_throttle t.peer.packet_throttle_counter
        then drops t
        else takes (put o (send_unreliable o t)))
    else takes (put o (send_unreliable o s))

unfoldable pub visit : (now : ℕ) → OutgoingCommand → Progress → Visit
visit now o s = elim (admission o s) [
  | passed ↦ passes
  | wrapped ↦ stalls (record s { window_wrap = true })
  | held ↦ stalls s
  | admitted ↦
      let t : Progress = if o.command.flag_acknowledge then record s { can_ping = false } else s in
      if is_full o t.peer t.datagram
      then full (record t { peer = with_continue_sending t.peer })
      else if o.command.flag_acknowledge
      then takes (put o (send_reliable now o t))
      else visit_unreliable o t
]

abbrev pub free : OutgoingCommand → Progress → Progress
free o s = record s { packets = release_of o s.packets; dropped = s.dropped ++ (o ∷ []) }

-- An unreliable packet that is dropped takes with it the commands behind it with the same numbers:
-- its other fragments. The source reads the packet of each without a check; a command without one,
-- where it would crash, is dropped here.
unfoldable pub drop_run :
    (reliable unreliable : ℕ) → List OutgoingCommand → Progress → List OutgoingCommand × Progress
drop_run n k [] s = ([], s)
drop_run n k (o ∷ l) s =
    let rest = drop_run n k l (free o s) in
    if o.reliable_sequence_number == n && o.unreliable_sequence_number == k
    then rest
    else (o ∷ l, s)

-- The queues at the end: what was passed, and what the loop has not reached.
unfoldable pub finish : (outgoing reliable : List OutgoingCommand) → Progress → Progress
finish l r s = record s {
  peer = record s.peer {
    queues = record s.peer.queues {
      outgoing_commands = s.kept ++ l;
      outgoing_send_reliable_commands = s.kept_reliable ++ r;
    };
  };
}

abbrev pub keep_outgoing : OutgoingCommand → Progress → Progress
keep_outgoing o s = record s { kept = s.kept ++ (o ∷ []) }

abbrev pub keep_reliable : List OutgoingCommand → Progress → Progress
keep_reliable l s = record s { kept_reliable = s.kept_reliable ++ l }

abbrev pub drop_from :
    OutgoingCommand → List OutgoingCommand → Progress → List OutgoingCommand × Progress
drop_from o l s = drop_run o.reliable_sequence_number o.unreliable_sequence_number l (free o s)

-- One round of the loop, where `next` is the rest of it.
module _ (now : ℕ)
    (next : (outgoing reliable : List OutgoingCommand) → Progress → Option Progress) where
  abbrev pub follow_outgoing :
      OutgoingCommand
      → (outgoing reliable : List OutgoingCommand) → Progress
      → Visit
      → Option Progress
  follow_outgoing o l r s passes = next l r (keep_outgoing o s)
  follow_outgoing o l r s (stalls t) = next l [] (keep_reliable r (keep_outgoing o t))
  follow_outgoing o l r s (full t) = some (finish (o ∷ l) r t)
  follow_outgoing o l r s (takes t) = next l r t
  follow_outgoing o l r s (drops t) = next (drop_from o l t).0 r (drop_from o l t).1

  abbrev pub follow_reliable :
      OutgoingCommand
      → (outgoing reliable : List OutgoingCommand) → Progress
      → Visit
      → Option Progress
  follow_reliable q l r s passes = next l r (keep_reliable (q ∷ []) s)
  follow_reliable q l r s (stalls t) = next l [] (keep_reliable (q ∷ r) t)
  follow_reliable q l r s (full t) = some (finish l (q ∷ r) t)
  follow_reliable q l r s (takes t) = next l r t
  follow_reliable q l r s (drops t) = next (drop_from q l t).0 r (drop_from q l t).1

  abbrev pub follow : Pick → Progress → Option Progress
  follow nothing s = some (finish [] [] s)
  follow (from_outgoing o l r) s = follow_outgoing o l r s (visit now o s)
  follow (from_reliable q l r) s = follow_reliable q l r s (visit now q s)

-- One round for each command is enough.
unfoldable pub walk :
    (now fuel : ℕ) (outgoing reliable : List OutgoingCommand) → Progress → Option Progress
walk now zero l r s = none
walk now (suc n) l r s = follow now (walk now n) (pick l r) s

abbrev pub begin_walk : Context → Datagram → Progress
begin_walk c d = record {
  peer = c.peer;
  packets = c.host.packets;
  datagram = d;
  kept = [];
  kept_reliable = [];
  sent_unreliable = [];
  dropped = [];
  window_wrap = false;
  can_ping = true;
}

-- What the function leaves: the context, the datagram, the unreliable commands that were sent, those
-- that were freed without being sent, and whether a ping may follow.
pub record Filled : Type 0 where
  pub context : Context
  pub datagram : Datagram
  pub sent_unreliable : List OutgoingCommand
  pub dropped : List OutgoingCommand
  pub can_ping : Bool

abbrev pub is_none_sent : List OutgoingCommand → Bool
is_none_sent [] = true
is_none_sent (_ ∷ _) = false

module _ (flush : Context → Context) where
  abbrev pub end_walk : Context → Progress → Filled
  end_walk c s =
      let d : Context = record c { host = record c.host { packets = s.packets }; peer = s.peer } in
      record {
        context = (if is_none_sent s.sent_unreliable then leave_when_done flush d else d);
        datagram = s.datagram;
        sent_unreliable = s.sent_unreliable;
        dropped = s.dropped;
        can_ping = s.can_ping;
      }

  abbrev pub end_filled : Context → Option Progress → Option Filled
  end_filled c none = none
  end_filled c (some s) = some (end_walk c s)

  -- `enet_protocol_check_outgoing_commands`.
  unfoldable pub check_outgoing_commands : Context → Datagram → Option Filled
  check_outgoing_commands c d =
      let l = c.peer.outgoing_commands in
      let r = c.peer.outgoing_send_reliable_commands in
      end_filled c (walk c.host.service_time (length l + length r + 1) l r (begin_walk c d))
