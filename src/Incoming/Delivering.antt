-- ===== src/Incoming/Delivering.antt =====
-- What leaves the queue of reliable commands of a channel: src/c/peer.rs.
use rusty_enet.Base.{
  ℕ, ◌≡◌, ◌≢◌, refl, ◌⊎◌, List, [], ◌∷◌, ◌++◌, arith, true, false, if◌then◌else◌, add16, append-nil,
  ◌&&◌, Option,
}
use rusty_enet.Peer.{IncomingCommand, Channel}
use rusty_enet.Incoming.{
  take_ready, last_sequence_number, is_complete, deliver_reliable, deliver_unreliable, after_ready,
  is_cons,
}

-- Whole commands from `current` on, each with the number after the one before it, where a
-- fragmented packet takes a number for each fragment. The last stands at `next`.
abbrev pub Consecutive : (current : ℕ) → List IncomingCommand → (next : ℕ) → Type 0
Consecutive current [] next = current ≡ next
Consecutive current (i ∷ l) next =
    (is_complete i ≡ true)
    × (i.reliable_sequence_number ≡ add16 current 1)
    × Consecutive (last_sequence_number i) l next

-- The first command is not next in turn, or not whole.
abbrev pub Waits : (current : ℕ) → List IncomingCommand → Type 0
Waits current [] = Unit {0}
Waits current (i ∷ l) = (is_complete i ≡ false) ⊎ (i.reliable_sequence_number ≢ add16 current 1)

pub record IsSplit (current : ℕ) (l ready rest : List IncomingCommand) (next : ℕ) : Type 0 where
  pub whole : l ≡ ready ++ rest
  pub consecutive : Consecutive current ready next
  pub waits : Waits next rest

pub take_ready-IsSplit :
    (current : ℕ) (l : List IncomingCommand)
    → let r = take_ready current l in IsSplit current l r.ready r.rest r.current
unfolding take_ready
take_ready-IsSplit current [] = record { whole = refl; consecutive = refl; waits = tt }
take_ready-IsSplit current (i ∷ l) =
    let ih = take_ready-IsSplit (last_sequence_number i) l in ground (arith, ih)

-- Unreliable commands do not touch the reliable queue of their channel.
pub deliver_unreliable-reliable :
    (q : Option ℕ) (ch : Channel)
    → let d = deliver_unreliable q ch in
      (d.channel.incoming_reliable_commands ≡ ch.incoming_reliable_commands)
      × (d.channel.incoming_reliable_sequence_number ≡ ch.incoming_reliable_sequence_number)
unfolding deliver_unreliable
deliver_unreliable-reliable q ch = (refl, refl)

-- The unreliable commands that follow a run.
abbrev pub followers : Option ℕ → Channel → List IncomingCommand
followers q ch =
    let r = take_ready ch.incoming_reliable_sequence_number ch.incoming_reliable_commands in
    if is_cons r.ready && is_cons ch.incoming_unreliable_commands
    then (deliver_unreliable q (after_ready r ch)).delivered
    else []

-- What `enet_peer_dispatch_incoming_reliable_commands` hands on starts with a run of whole
-- commands in consecutive order from the channel's number on, which it takes from the front of the
-- queue; the unreliable commands that were waiting for them follow. The channel moves to the last
-- of the run, and what it leaves in front of the queue is not ready.
pub deliver_reliable_lem :
    (q : Option ℕ) (ch : Channel)
    → let d = deliver_reliable q ch in
      (ready : List IncomingCommand) × (d.delivered ≡ ready ++ followers q ch)
      × IsSplit ch.incoming_reliable_sequence_number ch.incoming_reliable_commands ready
          d.channel.incoming_reliable_commands d.channel.incoming_reliable_sequence_number
unfolding deliver_reliable
deliver_reliable_lem q ch =
    let r = take_ready ch.incoming_reliable_sequence_number ch.incoming_reliable_commands in
    (
      r.ready,
      ground (arith, append-nil r.ready),
      ground (
        arith,
        take_ready-IsSplit ch.incoming_reliable_sequence_number ch.incoming_reliable_commands,
        deliver_unreliable-reliable q (after_ready r ch),
      ),
    )
