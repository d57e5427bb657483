-- ===== src/Tests/Delivery.antt =====
-- Packets that arrive: the queue of a channel, the sequence windows and the unsequenced groups.
use rusty_enet.Base.{
  ℕ, List, map, ◌<◌, ◌+◌, ◌-◌, ◌*◌, ◌%◌, ◌^◌, ◌≤◌, ◌≡◌, refl, ◌⊎◌, true, false, [], ◌∷◌, some, none,
  arith, ltb,
}
use rusty_enet.Protocol.{Command, send_unsequenced, send_reliable}
use rusty_enet.Peer.{Context, Outcome, accepted, rejected, context}
use rusty_enet.Window.{in_window, in_gap}
use rusty_enet.Window.Order.{ahead, in_window_lem, acknowledged_old}
use rusty_enet.Incoming.{
  place_reliable, insert_incoming, insert_from_end, deliver_reliable, take_ready, hand_over,
}
use rusty_enet.Connection.{schedule_dispatch}
use rusty_enet.Incoming.Arriving.{
  Arrival, queued, queue_incoming_command, queue_reliable, admit_placed, new_incoming, charge,
  queue_by_kind, queue_unsequenced, admit,
}
use rusty_enet.Incoming.Placing.{keys, Has, Inserted, insert_incoming-Inserted}
use rusty_enet.Incoming.Taking.{IsQueued, queue_incoming_command-IsQueued}
use rusty_enet.Incoming.Singles.{IsOrderly}
use rusty_enet.Incoming.Stream.{stream, IsPacketFor, Continues, stream-Continues}
use rusty_enet.Receive.{handle_send_unsequenced, unsequenced_ahead, enter_window}
use rusty_enet.Receive.Unsequenced.{handle_send_unsequenced-once}
use rusty_enet.Tests.Samples.{channel, incoming, quiet}

-- The numbers 5 and 6 are delivered, and 8 waits for 7.
delivered_numbers : (deliver_reliable none channel).delivered ≡ (incoming 5 ∷ incoming 6 ∷ [])
unfolding deliver_reliable take_ready
delivered_numbers = refl

-- The number 2 comes after 65535 where 65533 is the current one.
insert_incoming-Inserted_example :
    Inserted 65533
      (incoming 0)
      (incoming 65535 ∷ incoming 2 ∷ [])
      (insert_incoming (place_reliable 65533 0) (incoming 0) (incoming 65535 ∷ incoming 2 ∷ []))
insert_incoming-Inserted_example =
    insert_incoming-Inserted 65533 (incoming 0) (incoming 65535 ∷ incoming 2 ∷ []) (omega arith)
      (omega arith) (omega arith) (omega arith)
      (record {
        numbers = (omega arith, (omega arith, tt));
        ordered = (omega arith, (omega arith, omega arith));
      })

inserted_between :
    insert_incoming (place_reliable 65533 0) (incoming 0) (incoming 65535 ∷ incoming 2 ∷ [])
    ≡ some (incoming 65535 ∷ incoming 0 ∷ incoming 2 ∷ [])
unfolding insert_incoming insert_from_end place_reliable
inserted_between = refl

in_window_lem_example : in_window 65533 5 ≡ ltb (ahead 65533 5) (7 * 4096 - 65533 % 4096)
in_window_lem_example = in_window_lem 65533 5 (omega arith) (omega arith)

five_in_window : in_window 65533 5 ≡ true
unfolding in_window
five_in_window = refl

old_not_in_gap : in_gap 5 65533 ≡ false
unfolding in_gap
old_not_in_gap = refl

old_not_in_window : in_window 5 65533 ≡ false
unfolding in_window
old_not_in_window = refl

acknowledged_old_example : 2 ^ 16 - ahead 5 65533 ≤ 7 * 4096 + 5 % 4096
acknowledged_old_example =
    acknowledged_old 5 65533 (omega arith) (omega arith) old_not_in_gap old_not_in_window

abbrev unsequenced_command : Command
unsequenced_command = record {
  flag_acknowledge = false;
  flag_unsequenced = true;
  channel_id = 0;
  reliable_sequence_number = 0;
  body = send_unsequenced 5 2;
}

-- The first arrival of group 5, with the bytes 8 and 9.
abbrev first_arrival : Outcome
first_arrival = handle_send_unsequenced 50 5 2 unsequenced_command (8 ∷ 9 ∷ []) quiet

first_accepted : first_arrival ≡ accepted (context first_arrival)
unfolding handle_send_unsequenced unsequenced_ahead enter_window queue_incoming_command
    queue_by_kind queue_unsequenced admit
first_accepted = refl

handle_send_unsequenced-once_example :
    let d = context first_arrival in
    let again = handle_send_unsequenced 51 5 1 unsequenced_command (7 ∷ []) d in
    (again ≡ accepted d) ⊎ (again ≡ rejected d)
handle_send_unsequenced-once_example =
    handle_send_unsequenced-once 50 51 5 2 1 unsequenced_command unsequenced_command (8 ∷ 9 ∷ [])
      (7 ∷ []) quiet (context first_arrival) (omega arith) refl first_accepted

-- A whole packet of one byte with the number `n`.
abbrev packet_arrival : (n : ℕ) → Arrival
packet_arrival n = record {
  command = record {
    flag_acknowledge = true;
    flag_unsequenced = false;
    channel_id = 0;
    reliable_sequence_number = n;
    body = send_reliable 1;
  };
  contents = 9 ∷ [];
  packet_flags = 1;
  fragment_count = 0;
  address = 200 + n;
}

-- The number 7 closes the gap, so that 7 and 8 follow 5 and 6; the second 7 and 30000 are not taken.
abbrev packet_arrivals : List Arrival
packet_arrivals = packet_arrival 7 ∷ packet_arrival 7 ∷ packet_arrival 30000 ∷ []

stream_numbers :
    map (λ i. i.reliable_sequence_number) (stream packet_arrivals quiet).peer.dispatched_commands
    ≡ 5 ∷ 6 ∷ 7 ∷ 8 ∷ []
unfolding stream queue_incoming_command queue_by_kind queue_reliable admit admit_placed new_incoming
    charge hand_over schedule_dispatch in_window insert_incoming insert_from_end place_reliable
    deliver_reliable take_ready
stream_numbers = refl

packet_arrival-IsPacketFor : (n : ℕ) → n < 2 ^ 16 → IsPacketFor 0 (packet_arrival n)
packet_arrival-IsPacketFor n h = record {
  data_length = 1;
  is_reliable = refl;
  to_channel = refl;
  whole = refl;
  number_fits = h;
}

pub channel-IsOrderly : IsOrderly channel
channel-IsOrderly = record {
  queue = record {
    current_fits = omega arith;
    in_order = record {
      numbers = (omega arith, (omega arith, (omega arith, tt)));
      ordered = (omega arith, (omega arith, (omega arith, omega arith)));
    };
    all_single = (refl, (refl, (refl, tt)));
  };
  no_unreliable = refl;
}

pub seven_in_window : in_window 4 7 ≡ true
unfolding in_window
seven_in_window = refl

pub seven_not_waiting : ¬ Has (ahead 4 7) (keys 4 channel.incoming_reliable_commands)
unfolding new_incoming
seven_not_waiting h = ground arith

stream-Continues_example : Continues 0 channel quiet (stream packet_arrivals quiet)
stream-Continues_example =
    stream-Continues 0 packet_arrivals quiet channel
      (
        packet_arrival-IsPacketFor 7 (omega arith),
        (
          packet_arrival-IsPacketFor 7 (omega arith),
          (packet_arrival-IsPacketFor 30000 (omega arith), tt),
        ),
      )
      refl channel-IsOrderly

queue_incoming_command-IsQueued_example :
    (d : Context) × (queue_incoming_command (packet_arrival 7) quiet ≡ queued d)
    × IsQueued 0 (packet_arrival 7) channel quiet d
unfolding new_incoming
queue_incoming_command-IsQueued_example =
    queue_incoming_command-IsQueued 0 (packet_arrival 7) channel quiet
      (packet_arrival-IsPacketFor 7 (omega arith)) refl channel-IsOrderly refl seven_in_window
      (λ e. absurd (omega arith)) seven_not_waiting (λ e. absurd (ground arith))
