-- ===== src/Tests/TimingOut.antt =====
-- Reliable commands that are not acknowledged in time.
use rusty_enet.Base.{ℕ, ◌≡◌, refl, [], ◌∷◌, Option, none, some, Bool, true, false}
use rusty_enet.Peer.{OutgoingCommand, Context}
use rusty_enet.Timeout.{
  is_due, mark_earliest, attempts_weight, gives_up, lose, refresh_next, sweep, nothing_passed,
  check_timeouts,
}
use rusty_enet.Acknowledge.{time_difference}
use rusty_enet.Timeout.Sweeping.{IsSwept, check_timeouts-IsSwept}
use rusty_enet.Timeout.GivingUp.{IsGone, check_timeouts-IsGone}
use rusty_enet.Tests.Samples.{quiet, reliable_command}

abbrev sent : (time timeout : ℕ) → Option ℕ → OutgoingCommand
sent time timeout packet = record {
  reliable_sequence_number = 1;
  unreliable_sequence_number = 0;
  sent_time = time;
  round_trip_timeout = timeout;
  queue_time = 1;
  fragment_offset = 0;
  fragment_length = 3;
  send_attempts = 1;
  command = reliable_command 1;
  packet = packet;
}

-- At time 1000 the first and the third command are late; at 40000 the silence is too long.
abbrev unanswered : (now : ℕ) → Context
unanswered now = record quiet {
  host = record quiet.host { service_time = now };
  peer = record quiet.peer {
    queues = record quiet.peer.queues {
      sent_reliable_commands = sent 100 500 (some 7) ∷ sent 900 500 none ∷ sent 200 500 none ∷ [];
    };
  };
}

abbrev outcome : ℕ → Bool × Context
outcome now = check_timeouts (unanswered now)

some_are_late : outcome 1000 ≡ (false, (outcome 1000).1)
unfolding check_timeouts sweep is_due mark_earliest gives_up time_difference attempts_weight
    refresh_next lose
some_are_late = refl

peer_is_gone : outcome 40000 ≡ (true, (outcome 40000).1)
unfolding check_timeouts sweep is_due mark_earliest gives_up time_difference attempts_weight
peer_is_gone = refl

check_timeouts-IsSwept_example :
    IsSwept 1000 nothing_passed
      (unanswered 1000).peer.sent_reliable_commands
      (unanswered 1000).peer
      (outcome 1000).1.peer
check_timeouts-IsSwept_example =
    check_timeouts-IsSwept (unanswered 1000) (outcome 1000).1 some_are_late

check_timeouts-IsGone_example :
    IsGone 40000 (unanswered 40000).peer.sent_reliable_commands (unanswered 40000).peer
check_timeouts-IsGone_example =
    check_timeouts-IsGone (unanswered 40000) (outcome 40000).1 peer_is_gone
