-- ===== src/Acknowledge/Removing.antt =====
-- The command that is acknowledged: `enet_protocol_remove_sent_reliable_command` and the end of
-- `enet_protocol_handle_acknowledge` in src/c/protocol.rs.
use rusty_enet.Base.{
  ℕ, ◌-◌, ◌/◌, ◌%◌, ◌^◌, Bool, true, false, ◌&&◌, ◌||◌, not, List, [], ◌∷◌, Option, none, some, ltb,
  leb, ◌==◌, if◌then◌else◌, add32, sub32, sub16, get_or, set, max,
}
use rusty_enet.Protocol.{command_number}
use rusty_enet.Packet.{release}
use rusty_enet.Peer.{
  PeerState, disconnected, acknowledging_connect, disconnect_later, disconnecting, zombie,
  OutgoingCommand, Channel, Peer, Context, Outcome, accepted, rejected,
}
use rusty_enet.Outgoing.{with_channel}
use rusty_enet.Connection.{notify_connect, notify_disconnect, has_outgoing_commands}
use rusty_enet.Connection.Ending.{peer_disconnect}
use rusty_enet.Window.{channel?}
use rusty_enet.Acknowledge.{received_sent_time, take_sample, time_difference}

-- A command taken out of a queue, with what is left of the queue.
pub record Found : Type 0 where
  pub command : OutgoingCommand
  pub others : List OutgoingCommand

abbrev matches : (number channel_id : ℕ) → OutgoingCommand → Bool
matches number channel_id o =
    o.reliable_sequence_number == number && o.command.channel_id == channel_id

abbrev past : OutgoingCommand → Option Found → Option Found
past o none = none
past o (some f) = some (record f { others = o ∷ f.others })

-- The loop over `sent_reliable_commands`.
unfoldable pub find_sent : (number channel_id : ℕ) → List OutgoingCommand → Option Found
find_sent number channel_id [] = none
find_sent number channel_id (o ∷ l) =
    let rest = find_sent number channel_id l in
    if matches number channel_id o then some (record { command = o; others = l }) else past o rest

-- `enet_protocol_find_sent_reliable_command`: the same among the commands that wait to be sent
-- again, which stand before the first reliable one that was never sent.
unfoldable pub find_resent : (number channel_id : ℕ) → List OutgoingCommand → Option Found
find_resent number channel_id [] = none
find_resent number channel_id (o ∷ l) =
    let rest = find_resent number channel_id l in
    if not o.command.flag_acknowledge
    then past o rest
    else if ltb o.send_attempts 1
    then none
    else if matches number channel_id o
    then some (record { command = o; others = l })
    else past o rest

-- The reliable window of the command loses one, and its bit if that was the last.
unfoldable pub clear_bit : ℕ → ℕ → ℕ
clear_bit k n = if n / 2 ^ k % 2 == 1 then n - 2 ^ k else n

unfoldable pub leave_window : (number : ℕ) → Channel → Channel
unfolding clear_bit
leave_window number ch =
    let w = number / 4096 in
    let n = get_or ch.reliable_windows w 0 in
    if ltb 0 n
    then record ch {
      reliable_windows = set ch.reliable_windows w (sub16 n 1);
      used_reliable_windows =
          (if sub16 n 1 == 0
            then clear_bit w ch.used_reliable_windows
            else ch.used_reliable_windows);
    }
    else ch

abbrev pub on_window : (number channel_id : ℕ) → Peer → Peer
on_window number channel_id p = elim (channel? p channel_id) [
  | none ↦ p
  | some ch ↦ with_channel channel_id (leave_window number ch) p
]

-- The packet of a command that is done loses a reference, and is no longer in transit if it was.
unfoldable pub finish_packet : (was_sent : Bool) → OutgoingCommand → Context → Context
finish_packet was_sent o c = elim o.packet [
  | none ↦ c
  | some a ↦ record c {
    host = record c.host { packets = release a c.host.packets };
    peer = record c.peer {
      flow = record c.peer.flow {
        reliable_data_in_transit =
            (if was_sent
              then sub32 c.peer.reliable_data_in_transit o.fragment_length
              else c.peer.reliable_data_in_transit);
      };
    };
  }
]

abbrev refresh_timeout : Peer → Peer
refresh_timeout p = elim p.sent_reliable_commands [
  | [] ↦ p
  | o ∷ _ ↦ record p {
    timing = record p.timing { next_timeout = add32 o.sent_time o.round_trip_timeout };
  }
]

-- Where the command was found, and the peer's queues without it.
pub record Removal : Type 0 where
  pub removed : OutgoingCommand
  pub was_sent : Bool
  pub remaining : Peer

unfoldable pub find_removal : (number channel_id : ℕ) → Peer → Option Removal
find_removal number channel_id p = elim (find_sent number channel_id p.sent_reliable_commands) [
  | some f ↦ some (record {
    removed = f.command;
    was_sent = true;
    remaining = record p { queues = record p.queues { sent_reliable_commands = f.others } };
  })
  | none ↦ elim (find_resent number channel_id p.outgoing_commands) [
    | some f ↦ some (record {
      removed = f.command;
      was_sent = false;
      remaining = record p { queues = record p.queues { outgoing_commands = f.others } };
    })
    | none ↦ elim (find_resent number channel_id p.outgoing_send_reliable_commands) [
      | some f ↦ some (record {
        removed = f.command;
        was_sent = false;
        remaining = record p {
          queues = record p.queues { outgoing_send_reliable_commands = f.others };
        };
      })
      | none ↦ none
    ]
  ]
]

-- The command's window, its packet and the peer's next timeout, once it is out of its queue.
unfoldable pub complete_removal : (number channel_id : ℕ) → Removal → Context → Context
complete_removal number channel_id r c =
    let p = on_window number channel_id r.remaining in
    let d = finish_packet r.was_sent r.removed (record c { peer = p }) in
    record d { peer = refresh_timeout d.peer }

-- `enet_protocol_remove_sent_reliable_command`: the number of the command that is done, 0 for none.
unfoldable pub remove_sent_reliable_command : (number channel_id : ℕ) → Context → ℕ × Context
remove_sent_reliable_command number channel_id c = elim (find_removal number channel_id c.peer) [
  | none ↦ (0, c)
  | some r ↦ (command_number r.removed.command.body, complete_removal number channel_id r c)
]

-- What follows by the peer's state.
module _ (flush : Context → Context) where
  unfoldable pub acknowledged : (command_number : ℕ) → Context → Outcome
  acknowledged n c = elim c.peer.state [
    | acknowledging_connect ↦ if n == 3 then accepted (notify_connect c) else rejected c
    | disconnecting ↦ if n == 4 then accepted (notify_disconnect c) else rejected c
    | disconnect_later ↦
        if has_outgoing_commands c.peer
        then accepted c
        else accepted (peer_disconnect flush c.peer.event_data c)
    | _ ↦ accepted c
  ]

  abbrev dead : PeerState → Bool
  dead disconnected = true
  dead zombie = true
  dead _ = false

  -- `enet_protocol_handle_acknowledge`.
  unfoldable pub handle_acknowledge :
      (channel_id received_number received_time : ℕ) → Context → Outcome
  handle_acknowledge channel_id received_number received_time c =
      let now = c.host.service_time in
      let sent = received_sent_time now received_time in
      let (n, d) =
        remove_sent_reliable_command received_number channel_id
          (record c { peer = take_sample now (max (time_difference now sent) 1) c.peer }) in
      if dead c.peer.state || leb 86400000 (sub32 now sent) then accepted c else acknowledged n d
