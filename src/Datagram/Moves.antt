-- ===== src/Datagram/Moves.antt =====
-- What `enet_protocol_check_outgoing_commands` does with one command.
use rusty_enet.Base.{
  ℕ, ◌≡◌, true, false, ◌&&◌, [], ◌∷◌, ◌++◌, Option, none, some, arith, add32, if◌then◌else◌,
}
use rusty_enet.Peer.{OutgoingCommand, Channel, Peer}
use rusty_enet.Outgoing.{with_channel}
use rusty_enet.Datagram.{Entry, write}
use rusty_enet.Datagram.Choosing.{Progress, channel_of, exceeds, admission, is_full}
use rusty_enet.Datagram.Filling.{
  attempt, count_window, note_sent, part_of, put, send_reliable, send_unreliable, count_packet,
  visit_unreliable, Visit, passes, full, stalls, takes, drops, visit,
}

abbrev pub entry_of : OutgoingCommand → Entry
entry_of o = record { command = o.command; part = part_of o }

-- The loop's state but for flags, throttle and links.
pub record IsStill (s t : Progress) : Type 0 where
  pub datagram : t.datagram ≡ s.datagram
  pub state : t.peer.state ≡ s.peer.state
  pub mtu : t.peer.mtu ≡ s.peer.mtu
  pub window_size : t.peer.window_size ≡ s.peer.window_size
  pub packet_throttle : t.peer.packet_throttle ≡ s.peer.packet_throttle
  pub sent : t.peer.sent_reliable_commands ≡ s.peer.sent_reliable_commands
  pub transit : t.peer.reliable_data_in_transit ≡ s.peer.reliable_data_in_transit
  pub kept : t.kept ≡ s.kept
  pub kept_reliable : t.kept_reliable ≡ s.kept_reliable
  pub dropped : t.dropped ≡ s.dropped

-- The command is in the datagram, which had room for it, and among the sent ones if it is reliable.
pub record IsTaken (now : ℕ) (o : OutgoingCommand) (s t : Progress) : Type 0 where
  pub room : is_full o s.peer s.datagram ≡ false
  pub entries : t.datagram.entries ≡ (write (entry_of o) s.datagram).entries
  pub command_count : t.datagram.command_count ≡ (write (entry_of o) s.datagram).command_count
  pub buffer_count : t.datagram.buffer_count ≡ (write (entry_of o) s.datagram).buffer_count
  pub packet_size : t.datagram.packet_size ≡ (write (entry_of o) s.datagram).packet_size
  pub state : t.peer.state ≡ s.peer.state
  pub mtu : t.peer.mtu ≡ s.peer.mtu
  pub window_size : t.peer.window_size ≡ s.peer.window_size
  pub packet_throttle : t.peer.packet_throttle ≡ s.peer.packet_throttle
  pub sent : t.peer.sent_reliable_commands ≡ (
      if o.command.flag_acknowledge
      then s.peer.sent_reliable_commands ++ (attempt now s.peer o ∷ [])
      else s.peer.sent_reliable_commands)
  pub transit : t.peer.reliable_data_in_transit ≡ (
      if o.command.flag_acknowledge
      then add32 s.peer.reliable_data_in_transit o.fragment_length
      else s.peer.reliable_data_in_transit)
  pub allowed : (o.command.flag_acknowledge && exceeds o s.peer) ≡ false
  pub kept : t.kept ≡ s.kept
  pub kept_reliable : t.kept_reliable ≡ s.kept_reliable
  pub dropped : t.dropped ≡ s.dropped

abbrev pub Moved : (now : ℕ) → OutgoingCommand → Progress → Visit → Type 0
Moved now o s passes = Unit
Moved now o s (full t) = IsStill s t
Moved now o s (stalls t) = IsStill s t
Moved now o s (takes t) = IsTaken now o s t
Moved now o s (drops t) = IsStill s t

-- A channel's windows are no part of this.
record SameFlow (p q : Peer) : Type 0 where
  state : p.state ≡ q.state
  mtu : p.mtu ≡ q.mtu
  window_size : p.window_size ≡ q.window_size
  packet_throttle : p.packet_throttle ≡ q.packet_throttle
  sent : p.sent_reliable_commands ≡ q.sent_reliable_commands
  transit : p.reliable_data_in_transit ≡ q.reliable_data_in_transit
  round_trip_time : p.round_trip_time ≡ q.round_trip_time
  round_trip_time_variance : p.round_trip_time_variance ≡ q.round_trip_time_variance

count_window-SameFlow :
    (o : OutgoingCommand) (c : Option Channel) (p : Peer) → SameFlow (count_window o c p) p
unfolding count_window with_channel
count_window-SameFlow o none p = ground arith
count_window-SameFlow o (some c) p = ground arith

record IsSent (now : ℕ) (o : OutgoingCommand) (p q : Peer) : Type 0 where
  state : q.state ≡ p.state
  mtu : q.mtu ≡ p.mtu
  window_size : q.window_size ≡ p.window_size
  packet_throttle : q.packet_throttle ≡ p.packet_throttle
  sent : q.sent_reliable_commands ≡ p.sent_reliable_commands ++ (attempt now p o ∷ [])
  transit : q.reliable_data_in_transit ≡ add32 p.reliable_data_in_transit o.fragment_length

note_sent-IsSent : (now : ℕ) (o : OutgoingCommand) (p : Peer) → IsSent now o p (note_sent now o p)
unfolding note_sent
note_sent-IsSent now o p = ground arith

attempt-SameFlow :
    (now : ℕ) (o : OutgoingCommand) (p q : Peer) → SameFlow p q → attempt now p o ≡ attempt now q o
unfolding attempt
attempt-SameFlow now o p q w = ground arith

send_reliable-IsTaken :
    (now : ℕ) (o : OutgoingCommand) (s t : Progress)
    → o.command.flag_acknowledge ≡ true
    → IsStill s t
    → SameFlow t.peer s.peer
    → is_full o s.peer s.datagram ≡ false
    → exceeds o s.peer ≡ false
    → IsTaken now o s (put o (send_reliable now o t))
unfolding put send_reliable write
send_reliable-IsTaken now o s t a w f h e =
    let p = count_window o (channel_of o t.peer) t.peer in
    ground (
      arith,
      note_sent-IsSent now o p,
      count_window-SameFlow o (channel_of o t.peer) t.peer,
      attempt-SameFlow now o p s.peer,
    )

send_unreliable-IsTaken :
    (now : ℕ) (o : OutgoingCommand) (s t : Progress)
    → o.command.flag_acknowledge ≡ false
    → IsStill s t
    → is_full o s.peer s.datagram ≡ false
    → IsTaken now o s (put o (send_unreliable o t))
unfolding put send_unreliable write
send_unreliable-IsTaken now o s t a w h = ground arith

visit_unreliable-Moved :
    (now : ℕ) (o : OutgoingCommand) (s : Progress)
    → o.command.flag_acknowledge ≡ false
    → is_full o s.peer s.datagram ≡ false
    → Moved now o s (visit_unreliable o s)
unfolding visit_unreliable count_packet
visit_unreliable-Moved now o s a h =
    let t : Progress = record s { peer = count_packet s.peer } in
    ground (arith, send_unreliable-IsTaken now o s t, send_unreliable-IsTaken now o s s)

pub visit-Moved : (now : ℕ) (o : OutgoingCommand) (s : Progress) → Moved now o s (visit now o s)
unfolding visit admission
visit-Moved now o s = ground (
  arith,
  visit_unreliable-Moved now o s,
  send_reliable-IsTaken now o s (record s { can_ping = false }),
)
