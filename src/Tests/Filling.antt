-- ===== src/Tests/Filling.antt =====
-- A datagram that is filled.
use rusty_enet.Base.{ℕ, ◌≡◌, ◌≢◌, ◌≤◌, refl, Bool, [], ◌∷◌, Option, none, some, arith, true, false}
use rusty_enet.Peer.{OutgoingCommand, Context}
use rusty_enet.Datagram.{Datagram, write, leave_when_done, send_acknowledgements}
use rusty_enet.Datagram.Choosing.{pick, wraps, transit_limit, exceeds, admission, is_full}
use rusty_enet.Datagram.Filling.{
  attempt, count_window, note_sent, put, send_reliable, send_unreliable, count_packet,
  visit_unreliable, visit, drop_run, finish, walk, Filled, check_outgoing_commands,
}
use rusty_enet.Outgoing.{with_channel}
use rusty_enet.Datagram.Ending.{check_outgoing_commands-ends}
use rusty_enet.Datagram.Room.{IsWithin, check_outgoing_commands-IsWithin}
use rusty_enet.Datagram.Transit.{check_outgoing_commands-le-transit_limit}
use rusty_enet.Datagram.Conservation.{IsConserved, check_outgoing_commands-IsConserved}
use rusty_enet.Datagram.Acknowledging.{IsAcknowledged, send_acknowledgements-IsAcknowledged}
use rusty_enet.Tests.Samples.{quiet, reliable_command}

abbrev queued : (time number length : ℕ) (reliable : Bool) → OutgoingCommand
queued time number length reliable = record {
  reliable_sequence_number = number;
  unreliable_sequence_number = 1;
  sent_time = 0;
  round_trip_timeout = 0;
  queue_time = time;
  fragment_offset = 0;
  fragment_length = length;
  send_attempts = 0;
  command = record (reliable_command number) { flag_acknowledge = reliable };
  packet = some number;
}

-- Two unreliable commands and two reliable ones, of which the last does not fit.
abbrev busy : Context
busy = record quiet {
  peer = record quiet.peer {
    queues = record quiet.peer.queues {
      outgoing_commands = queued 2 1 100 false ∷ queued 5 2 200 false ∷ [];
      outgoing_send_reliable_commands = queued 1 3 500 true ∷ queued 4 4 1300 true ∷ [];
      acknowledgements = record { sent_time = 70000; command = reliable_command 9 } ∷ [];
    };
  };
}

abbrev start : Datagram
start = record {
  entries = [];
  command_count = 0;
  buffer_count = 1;
  packet_size = 4;
  has_sent_time = false;
}

start-IsWithin : IsWithin 1392 start
start-IsWithin = record { commands = omega arith; buffers = omega arith; size = omega arith }

check_outgoing_commands-ends_example : check_outgoing_commands (λ c. c) busy start ≢ none
check_outgoing_commands-ends_example = check_outgoing_commands-ends (λ c. c) busy start

abbrev filled_or : Option Filled → Filled
filled_or none = record {
  context = busy;
  datagram = start;
  sent_unreliable = [];
  dropped = [];
  can_ping = true;
}
filled_or (some f) = f

abbrev filled : Filled
filled = filled_or (check_outgoing_commands (λ c. c) busy start)

filled_sample : check_outgoing_commands (λ c. c) busy start ≡ some filled
unfolding check_outgoing_commands walk pick wraps transit_limit exceeds admission is_full attempt
    count_window note_sent put send_reliable send_unreliable count_packet visit_unreliable visit
    drop_run finish leave_when_done write with_channel
filled_sample = refl

check_outgoing_commands-IsWithin_example : IsWithin 1392 filled.datagram
check_outgoing_commands-IsWithin_example =
    check_outgoing_commands-IsWithin (λ c. c) busy start filled (omega arith)
      (omega arith, (omega arith, tt)) (omega arith, (omega arith, tt)) start-IsWithin filled_sample

check_outgoing_commands-le-transit_limit_example :
    filled.context.peer.reliable_data_in_transit ≤ transit_limit busy.peer
check_outgoing_commands-le-transit_limit_example =
    check_outgoing_commands-le-transit_limit (λ c. c) busy start filled (omega arith) refl refl refl
      (omega arith) filled_sample

check_outgoing_commands-IsConserved_example :
    IsConserved (λ c. c.reliable_sequence_number) busy start filled
check_outgoing_commands-IsConserved_example =
    check_outgoing_commands-IsConserved (λ c. c.reliable_sequence_number) (λ c. c) busy start filled
      refl filled_sample

send_acknowledgements-IsAcknowledged_example :
    IsAcknowledged 1392 busy.peer.acknowledgements start (send_acknowledgements busy start)
send_acknowledgements-IsAcknowledged_example =
    send_acknowledgements-IsAcknowledged busy start (omega arith) start-IsWithin
