-- ===== src/Incoming.antt =====
-- The queues of a channel: where a command is put, what is ready, and what leaves them for the
-- application. The walks of `enet_peer_queue_incoming_command` and the two
-- `enet_peer_dispatch_incoming_*_commands` of src/c/peer.rs.
pub mod Arriving
pub mod Placing
pub mod Delivering
pub mod Singles
pub mod Stream
pub mod Moving
pub mod Taking
use rusty_enet.Base.{
  ℕ, ◌+◌, ◌*◌, set, Bool, true, false, ◌&&◌, ◌||◌, not, List, [], ◌∷◌, ◌++◌, Option, none, some,
  ltb, leb, ◌==◌, if◌then◌else◌, add16, add32, sub32, add_size, sub_size, u16, replicate, ◌/◌,
  get_elem?, length,
}
use mathlib.Core.List.{reverse}
use rusty_enet.Protocol.{
  Command, Body, send_reliable, send_unreliable, send_fragment, send_unsequenced,
  send_unreliable_fragment, command_number,
}
use rusty_enet.Packet.{Packet, data_length}
use rusty_enet.Peer.{PeerState, disconnect_later, IncomingCommand, Channel, Peer, Context}
use rusty_enet.Window.{in_window}
use rusty_enet.Connection.{schedule_dispatch}

-- What the walk from the end of a queue does at a queued command: go on to the one before it, stop
-- and put the new command right behind it, or find that the new command is there already.
pub data Placement : Type 0 where
  skip stop duplicate : Placement

-- Where the numbers on one side of the current number come after those on the other. `level`
-- stands for the comparison of two numbers on the same side.
abbrev across : (current sequence queued : ℕ) → Placement → Placement
across current sequence queued level =
    if leb current sequence
    then if ltb queued current then skip else level
    else if leb current queued
    then stop
    else level

unfoldable pub place_reliable : (current sequence : ℕ) → IncomingCommand → Placement
place_reliable current sequence i = across current sequence i.reliable_sequence_number (
    if leb i.reliable_sequence_number sequence
    then if ltb i.reliable_sequence_number sequence then stop else duplicate
    else skip)

unfoldable pub place_unreliable : (current sequence unreliable : ℕ) → IncomingCommand → Placement
place_unreliable current sequence unreliable i =
    across current sequence i.reliable_sequence_number (
      if ltb i.reliable_sequence_number sequence
      then stop
      else if leb i.reliable_sequence_number sequence && leb i.unreliable_sequence_number unreliable
      then if ltb i.unreliable_sequence_number unreliable then stop else duplicate
      else skip)

abbrev pub cons? : IncomingCommand → Option (List IncomingCommand) → Option (List IncomingCommand)
cons? i none = none
cons? i (some r) = some (i ∷ r)

-- The walk over a queue whose last command comes first; `none` if the new one is a duplicate.
unfoldable pub insert_from_end :
    (IncomingCommand → Placement)
    → IncomingCommand
    → List IncomingCommand
    → Option (List IncomingCommand)
insert_from_end place x [] = some (x ∷ [])
insert_from_end place x (i ∷ r) =
    let rest = insert_from_end place x r in
    elim (place i) [ stop ↦ some (x ∷ i ∷ r) | duplicate ↦ none | skip ↦ cons? i rest ]

abbrev pub reverse? : Option (List IncomingCommand) → Option (List IncomingCommand)
reverse? none = none
reverse? (some l) = some (reverse l)

unfoldable pub insert_incoming :
    (IncomingCommand → Placement)
    → IncomingCommand
    → List IncomingCommand
    → Option (List IncomingCommand)
unfolding insert_from_end
insert_incoming place x l = reverse? (insert_from_end place x (reverse l))

-- The number that a reliable command moves its channel to: a fragmented packet takes one number for
-- each fragment.
unfoldable pub last_sequence_number : IncomingCommand → ℕ
last_sequence_number i =
    if i.fragment_count == 0
    then i.reliable_sequence_number
    else u16 (add32 i.reliable_sequence_number (sub32 i.fragment_count 1))

abbrev pub is_complete : IncomingCommand → Bool
is_complete i = i.fragments_remaining == 0

pub record Ready : Type 0 where
  pub ready : List IncomingCommand
  pub rest : List IncomingCommand
  pub current : ℕ

-- The loop of `enet_peer_dispatch_incoming_reliable_commands`: the commands that are next in turn
-- and whole.
unfoldable pub take_ready : (current : ℕ) → List IncomingCommand → Ready
unfolding last_sequence_number
take_ready current [] = record { ready = []; rest = []; current = current }
take_ready current (i ∷ l) =
    let r = take_ready (last_sequence_number i) l in
    if is_complete i && i.reliable_sequence_number == add16 current 1
    then record { ready = i ∷ r.ready; rest = r.rest; current = r.current }
    else record { ready = []; rest = i ∷ l; current = current }

-- The loop of `enet_peer_dispatch_incoming_unreliable_commands`. Behind the commands that it has
-- handed on, `dropped` stands before the source's `dropped_command`, `kept` between that and
-- `start_command`, and `pending` between that and the current command.
pub record Walk : Type 0 where
  pub dropped : List IncomingCommand
  pub kept : List IncomingCommand
  pub pending : List IncomingCommand
  pub dispatched : List IncomingCommand
  pub unreliable : ℕ

abbrev is_cons {ℓ} : {A : Type ℓ} → List A → Bool
is_cons [] = false
is_cons (_ ∷ _) = true

-- All but the last, and the last: `dropped_command = current_command.previous`.
unfoldable pub init : List IncomingCommand → List IncomingCommand
init [] = []
init (i ∷ []) = []
init (i ∷ j ∷ l) = i ∷ init (j ∷ l)

unfoldable pub last : List IncomingCommand → List IncomingCommand
last [] = []
last (i ∷ []) = i ∷ []
last (i ∷ j ∷ l) = last (j ∷ l)

-- An incomplete command of the current reliable number stays and ends a run.
unfoldable pub keep_incomplete : IncomingCommand → Walk → Walk
unfolding init last
keep_incomplete i w =
    if is_cons w.pending
    then record w {
      dropped = w.dropped ++ w.kept;
      kept = i ∷ [];
      pending = [];
      dispatched = w.dispatched ++ w.pending;
    }
    else record w { dropped = w.dropped ++ init w.kept; kept = last w.kept ++ (i ∷ []) }

-- A command of a reliable number that has passed is dropped, and ends a run.
unfoldable pub drop_passed : IncomingCommand → Walk → Walk
drop_passed i w = record w {
  dropped = w.dropped ++ (w.kept ++ (i ∷ []));
  kept = [];
  pending = [];
  dispatched = w.dispatched ++ w.pending;
}

unfoldable pub finish_walk : List IncomingCommand → Walk → Walk × List IncomingCommand
finish_walk rest w =
    if is_cons w.pending
    then (
      record w {
        dropped = w.dropped ++ w.kept;
        kept = [];
        pending = [];
        dispatched = w.dispatched ++ w.pending;
      },
      rest,
    )
    else (w, rest)

abbrev pub is_unsequenced_command : IncomingCommand → Bool
is_unsequenced_command i = command_number i.command.body == 9

unfoldable pub walk_unreliable :
    (current : ℕ) → List IncomingCommand → Walk → Walk × List IncomingCommand
unfolding keep_incomplete drop_passed finish_walk in_window
walk_unreliable current [] w = finish_walk [] w
walk_unreliable current (i ∷ l) w =
    let pending = walk_unreliable current l (record w { pending = w.pending ++ (i ∷ []) }) in
    let complete =
      walk_unreliable current l
        (record w { pending = w.pending ++ (i ∷ []); unreliable = i.unreliable_sequence_number }) in
    let incomplete = walk_unreliable current l (keep_incomplete i w) in
    let passed = walk_unreliable current l (drop_passed i w) in
    if is_unsequenced_command i
    then pending
    else if i.reliable_sequence_number == current
    then if is_complete i then complete else incomplete
    else if in_window current i.reliable_sequence_number
    then finish_walk (i ∷ l) w
    else passed

-- What `enet_peer_remove_incoming_commands` leaves of the dropped commands: the excluded one.
unfoldable pub only_command : Option ℕ → List IncomingCommand → List IncomingCommand
only_command none l = []
only_command (some a) [] = []
only_command (some a) (i ∷ l) =
    let rest = only_command (some a) l in if i.address == a then i ∷ rest else rest

pub record Delivery : Type 0 where
  pub channel : Channel
  pub delivered : List IncomingCommand

-- `enet_peer_dispatch_incoming_unreliable_commands` on the channel, with what it hands on.
unfoldable pub deliver_unreliable : (queued : Option ℕ) → Channel → Delivery
deliver_unreliable queued ch =
    let (w, rest) =
      walk_unreliable ch.incoming_reliable_sequence_number ch.incoming_unreliable_commands (record {
        dropped = [];
        kept = [];
        pending = [];
        dispatched = [];
        unreliable = ch.incoming_unreliable_sequence_number;
      }) in
    record {
      channel = record ch {
        incoming_unreliable_sequence_number = w.unreliable;
        incoming_unreliable_commands = only_command queued w.dropped ++ (w.kept ++ rest);
      };
      delivered = w.dispatched;
    }

-- `enet_peer_dispatch_incoming_reliable_commands`: what is ready moves on, and then the unreliable
-- commands that waited for it.
abbrev pub after_ready : Ready → Channel → Channel
after_ready r ch = record ch {
  incoming_reliable_sequence_number = r.current;
  incoming_unreliable_sequence_number = 0;
  incoming_reliable_commands = r.rest;
}

unfoldable pub deliver_reliable : (queued : Option ℕ) → Channel → Delivery
deliver_reliable queued ch =
    let r = take_ready ch.incoming_reliable_sequence_number ch.incoming_reliable_commands in
    let d = deliver_unreliable queued (after_ready r ch) in
    if not (is_cons r.ready)
    then record { channel = ch; delivered = [] }
    else if is_cons ch.incoming_unreliable_commands
    then record { channel = d.channel; delivered = r.ready ++ d.delivered }
    else record { channel = after_ready r ch; delivered = r.ready }

-- The delivered commands go to the end of the peer's queue, and the peer to that of the host.
unfoldable pub hand_over : (channel_id : ℕ) → Delivery → Context → Context
hand_over i d c =
    let c' : Context = record c {
      peer = record c.peer {
        queues = record c.peer.queues {
          channels = set c.peer.channels i d.channel;
          dispatched_commands = c.peer.dispatched_commands ++ d.delivered;
        };
      };
    } in
    if is_cons d.delivered then schedule_dispatch c' else c'
