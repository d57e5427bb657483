-- ===== src/Timeout/Sweeping.antt =====
-- What the loop over the sent commands leaves in the three queues.
use rusty_enet.Base.{
  ℕ, Bool, false, ◌&&◌, not, List, [], ◌∷◌, ◌++◌, map, if◌then◌else◌, arith, ◌≡◌, append-nil,
  append_assoc,
}
use rusty_enet.Peer.{OutgoingCommand, Peer, Context}
use rusty_enet.Outgoing.{has_packet}
use rusty_enet.Timeout.{
  is_due, mark_earliest, double_timeout, lose, Passed, keep_sent, resend, refresh_next, assemble,
  sweep, nothing_passed, check_timeouts,
}

-- The commands that a test selects, in order.
abbrev pub select : (OutgoingCommand → Bool) → List OutgoingCommand → List OutgoingCommand
select t [] = []
select t (o ∷ l) = if t o then o ∷ select t l else select t l

abbrev pub waits : ℕ → OutgoingCommand → Bool
waits now o = not (is_due now o)

abbrev pub due_with_packet : ℕ → OutgoingCommand → Bool
due_with_packet now o = is_due now o && has_packet o

abbrev pub due_without : ℕ → OutgoingCommand → Bool
due_without now o = is_due now o && not (has_packet o)

-- The queues that the source builds, as selections from the sent commands.
pub record IsSwept (now : ℕ) (s : Passed) (todo : List OutgoingCommand) (p q : Peer) : Type 0 where
  pub sent : q.sent_reliable_commands ≡ s.kept ++ select (waits now) todo
  pub again :
      q.outgoing_commands
      ≡ (s.again ++ map double_timeout (select (due_without now) todo)) ++ p.outgoing_commands
  pub again_with_packet :
      q.outgoing_send_reliable_commands
      ≡ (s.again_with_packet ++ map double_timeout (select (due_with_packet now) todo))
        ++ p.outgoing_send_reliable_commands

pub record SameQueues (p q : Peer) : Type 0 where
  pub same_queues : p.queues ≡ q.queues

mark_earliest-SameQueues : (o : OutgoingCommand) (p : Peer) → SameQueues (mark_earliest o p) p
unfolding mark_earliest
mark_earliest-SameQueues o p = ground arith

refresh_next-SameQueues :
    (k l : List OutgoingCommand) (p : Peer) → SameQueues (refresh_next k l p) p
unfolding refresh_next
refresh_next-SameQueues [] [] p = ground arith
refresh_next-SameQueues [] (o ∷ l) p = ground arith
refresh_next-SameQueues (x ∷ k) l p = ground arith

sweep-IsSwept :
    (now : ℕ) (s : Passed) (todo : List OutgoingCommand) (p q : Peer)
    → sweep now s todo p ≡ (false, q)
    → IsSwept now s todo p q
unfolding sweep assemble keep_sent resend lose
sweep-IsSwept now s [] p q e = ground (arith, append-nil s.again, append-nil s.again_with_packet)
sweep-IsSwept now s (o ∷ l) p q e =
    let p' = lose o (mark_earliest o p) in
    ground (
      arith,
      sweep-IsSwept now (keep_sent o s) l p q,
      sweep-IsSwept now (resend o s) l (refresh_next s.kept l p') q,
      mark_earliest-SameQueues o p,
      refresh_next-SameQueues s.kept l p',
      append_assoc s.kept (o ∷ []) (select (waits now) l),
      append_assoc s.again (double_timeout o ∷ [])
          (map double_timeout (select (due_without now) l)),
      append_assoc s.again_with_packet (double_timeout o ∷ [])
          (map double_timeout (select (due_with_packet now) l)),
    )

-- Where a peer is not given up, no command is lost or sent twice: those that are not due stay as
-- they are in their order, and those that are due go in their order, with their timeouts doubled,
-- to the front of the queue of commands with packets or of the other one.
pub check_timeouts-IsSwept :
    (c d : Context)
    → check_timeouts c ≡ (false, d)
    → IsSwept c.host.service_time nothing_passed c.peer.sent_reliable_commands c.peer d.peer
unfolding check_timeouts
check_timeouts-IsSwept c d e = ground (
  arith,
  sweep-IsSwept c.host.service_time nothing_passed c.peer.sent_reliable_commands c.peer d.peer,
)
