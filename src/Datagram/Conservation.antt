-- ===== src/Datagram/Conservation.antt =====
-- No command is lost or sent twice by `enet_protocol_check_outgoing_commands`.
use rusty_enet.Base.{
  ℕ, ◌+◌, ◌≡◌, refl, subst, sym, false, List, [], ◌∷◌, ◌++◌, some, arith, if◌then◌else◌,
}
use rusty_enet.Protocol.{Command}
use rusty_enet.Peer.{OutgoingCommand, Peer, Context}
use rusty_enet.Datagram.{Entry, Datagram, write, is_leaving, leave_when_done}
use rusty_enet.Datagram.Choosing.{Progress}
use rusty_enet.Datagram.Filling.{
  attempt, Visit, passes, full, stalls, takes, drops, visit, drop_run, free, finish, walk,
  begin_walk, Filled, check_outgoing_commands,
}
use rusty_enet.Datagram.Moves.{IsStill, IsTaken, entry_of, Moved, visit-Moved}
use rusty_enet.Datagram.Dropping.{AreRuns, walk-AreRuns}
use rusty_enet.Datagram.Rounds.{AfterOutgoing, AfterReliable, walk-holds, filled-walk}

abbrev pub only_reliable : (Command → ℕ) → Command → ℕ
only_reliable w c = if c.flag_acknowledge then w c else 0

-- The sum of a weight over commands, queued or in a datagram.
abbrev pub total : (Command → ℕ) → List OutgoingCommand → ℕ
total w [] = 0
total w (o ∷ l) = w o.command + total w l

abbrev pub total_entries : (Command → ℕ) → List Entry → ℕ
total_entries w [] = 0
total_entries w (e ∷ l) = w e.command + total_entries w l

total-append :
    (w : Command → ℕ) (l r : List OutgoingCommand) → total w (l ++ r) ≡ total w l + total w r
total-append w [] r = ground arith
total-append w (o ∷ l) r = ground (arith, total-append w l r)

total_entries-append :
    (w : Command → ℕ) (l r : List Entry)
    → total_entries w (l ++ r) ≡ total_entries w l + total_entries w r
total_entries-append w [] r = ground arith
total_entries-append w (e ∷ l) r = ground (arith, total_entries-append w l r)

-- Every command is in its queue, in the datagram, or freed; the reliable ones that the datagram got
-- are among the sent ones.
pub record IsConserved (w : Command → ℕ) (c : Context) (d : Datagram) (f : Filled) : Type 0 where
  pub all :
      total w f.context.peer.outgoing_commands
        + total w f.context.peer.outgoing_send_reliable_commands
        + total_entries w f.datagram.entries
        + total w f.dropped
      ≡ total w c.peer.outgoing_commands
        + total w c.peer.outgoing_send_reliable_commands
        + total_entries w d.entries
  pub dropped : AreRuns f.dropped
  pub sent :
      total (only_reliable w) f.context.peer.sent_reliable_commands
        + total_entries (only_reliable w) d.entries
      ≡ total (only_reliable w) c.peer.sent_reliable_commands
        + total_entries (only_reliable w) f.datagram.entries

-- The same in the loop, with `k` for all and `a`, `b` for what was sent and written before.
record IsBalanced (w : Command → ℕ) (p : Peer) (k a b : ℕ) (l r : List OutgoingCommand)
    (s : Progress) : Type 0 where
  state : s.peer.state ≡ p.state
  all :
      total w s.kept
        + total w l
        + total w s.kept_reliable
        + total w r
        + total_entries w s.datagram.entries
        + total w s.dropped
      ≡ k
  sent :
      total (only_reliable w) s.peer.sent_reliable_commands + b
      ≡ a + total_entries (only_reliable w) s.datagram.entries

record IsDone (w : Command → ℕ) (p : Peer) (k a b : ℕ) (s : Progress) : Type 0 where
  state : s.peer.state ≡ p.state
  all :
      total w s.peer.outgoing_commands
        + total w s.peer.outgoing_send_reliable_commands
        + total_entries w s.datagram.entries
        + total w s.dropped
      ≡ k
  sent :
      total (only_reliable w) s.peer.sent_reliable_commands + b
      ≡ a + total_entries (only_reliable w) s.datagram.entries

module _ (now : ℕ) (w : Command → ℕ) (p : Peer) (k a b : ℕ) where
  -- What a step of the loop does to the sums.
  record IsMoved (o : OutgoingCommand) (s t : Progress) : Type 0 where
    state : t.peer.state ≡ s.peer.state
    kept : t.kept ≡ s.kept
    kept_reliable : t.kept_reliable ≡ s.kept_reliable
    dropped : t.dropped ≡ s.dropped
    entries : total_entries w t.datagram.entries ≡ total_entries w s.datagram.entries + w o.command
    sent :
        total (only_reliable w) t.peer.sent_reliable_commands
          + total_entries (only_reliable w) s.datagram.entries
        ≡ total (only_reliable w) s.peer.sent_reliable_commands
          + total_entries (only_reliable w) t.datagram.entries

  taken-IsMoved : (o : OutgoingCommand) (s t : Progress) → IsTaken now o s t → IsMoved o s t
  unfolding write attempt
  taken-IsMoved o s t m = ground (
    arith,
    total_entries-append w s.datagram.entries (entry_of o ∷ []),
    total_entries-append (only_reliable w) s.datagram.entries (entry_of o ∷ []),
    total-append (only_reliable w) s.peer.sent_reliable_commands (attempt now s.peer o ∷ []),
  )

  free-IsBalanced :
      (o : OutgoingCommand) (l r : List OutgoingCommand) (s : Progress)
      → IsBalanced w p k a b (o ∷ l) r s
      → IsBalanced w p k a b l r (free o s)
  free-IsBalanced o l r s v = ground (arith, total-append w s.dropped (o ∷ []))

  drop_run-IsBalanced :
      (n j : ℕ) (l r : List OutgoingCommand) (s : Progress)
      → IsBalanced w p k a b l r s
      → IsBalanced w p k a b (drop_run n j l s).0 r (drop_run n j l s).1
  unfolding drop_run
  drop_run-IsBalanced n j [] r s v = v
  drop_run-IsBalanced n j (o ∷ l) r s v =
      ground (arith, drop_run-IsBalanced n j l r (free o s), free-IsBalanced o l r s)

  finish-IsDone :
      (l r : List OutgoingCommand) (s : Progress)
      → IsBalanced w p k a b l r s
      → IsDone w p k a b (finish l r s)
  unfolding finish
  finish-IsDone l r s v = ground (arith, total-append w s.kept l, total-append w s.kept_reliable r)

  still-IsBalanced :
      (l r : List OutgoingCommand) (s t : Progress)
      → IsStill s t
      → IsBalanced w p k a b l r s
      → IsBalanced w p k a b l r t
  still-IsBalanced l r s t m v = ground arith

  after_outgoing :
      (o : OutgoingCommand) (l r : List OutgoingCommand) (s : Progress) (v : Visit)
      → IsBalanced w p k a b (o ∷ l) r s
      → Moved now o s v
      → AfterOutgoing now (IsBalanced w p k a b) (IsDone w p k a b) o l r s v
  after_outgoing o l r s passes v m = ground (arith, total-append w s.kept (o ∷ []))
  after_outgoing o l r s (stalls t) v m = ground (
    arith,
    still-IsBalanced (o ∷ l) r s t m v,
    total-append w t.kept (o ∷ []),
    total-append w t.kept_reliable r,
  )
  after_outgoing o l r s (full t) v m =
      finish-IsDone (o ∷ l) r t (still-IsBalanced (o ∷ l) r s t m v)
  after_outgoing o l r s (takes t) v m = ground (arith, taken-IsMoved o s t m)
  after_outgoing o l r s (drops t) v m =
      drop_run-IsBalanced o.reliable_sequence_number o.unreliable_sequence_number l r (free o t)
        (free-IsBalanced o l r t (still-IsBalanced (o ∷ l) r s t m v))

  after_reliable :
      (o : OutgoingCommand) (l r : List OutgoingCommand) (s : Progress) (v : Visit)
      → IsBalanced w p k a b l (o ∷ r) s
      → Moved now o s v
      → AfterReliable now (IsBalanced w p k a b) (IsDone w p k a b) o l r s v
  after_reliable o l r s passes v m = ground (arith, total-append w s.kept_reliable (o ∷ []))
  after_reliable o l r s (stalls t) v m =
      ground (arith, still-IsBalanced l (o ∷ r) s t m v, total-append w t.kept_reliable (o ∷ r))
  after_reliable o l r s (full t) v m =
      finish-IsDone l (o ∷ r) t (still-IsBalanced l (o ∷ r) s t m v)
  after_reliable o l r s (takes t) v m = ground (arith, taken-IsMoved o s t m)
  after_reliable o l r s (drops t) v m =
      drop_run-IsBalanced o.reliable_sequence_number o.unreliable_sequence_number l r (free o t)
        (ground (arith, still-IsBalanced l (o ∷ r) s t m v, total-append w t.dropped (o ∷ [])))

  walk-IsDone :
      (n : ℕ) (l r : List OutgoingCommand) (s t : Progress)
      → IsBalanced w p k a b l r s
      → walk now n l r s ≡ some t
      → IsDone w p k a b t
  walk-IsDone =
      walk-holds now (IsBalanced w p k a b) (IsDone w p k a b) (finish-IsDone [] [])
        (λ o l r s v. after_outgoing o l r s (visit now o s) v (visit-Moved now o s))
        (λ o l r s v. after_reliable o l r s (visit now o s) v (visit-Moved now o s))

-- Choosing what to send loses no command and sends none twice: by any weight of commands, those in
-- the peer's two queues before are those in its queues after, those that came into the datagram,
-- and those that were dropped; the dropped ones are runs, each of which starts with an unreliable
-- command that carries the beginning of a packet, and has behind it only commands with the same
-- reliable and the same unreliable number; and the reliable commands that came into the datagram
-- are those that came to the sent ones, where they wait for acknowledgement. The peer is not one
-- that leaves when all is sent.
pub check_outgoing_commands-IsConserved :
    (w : Command → ℕ) (flush : Context → Context) (c : Context) (d : Datagram) (f : Filled)
    → is_leaving c.peer.state ≡ false
    → check_outgoing_commands flush c d ≡ some f
    → IsConserved w c d f
unfolding leave_when_done
check_outgoing_commands-IsConserved w flush c d f s e =
    let (n, t, g, h) = filled-walk flush c d f e in
    let l = c.peer.outgoing_commands in
    let r = c.peer.outgoing_send_reliable_commands in
    let k = total w l + total w r + total_entries w d.entries in
    let a = total (only_reliable w) c.peer.sent_reliable_commands in
    let b = total_entries (only_reliable w) d.entries in
    let v : IsBalanced w c.peer k a b l r (begin_walk c d) = record {
      state = refl;
      all = omega arith;
      sent = omega arith;
    } in
    let done = walk-IsDone c.host.service_time w c.peer k a b n l r (begin_walk c d) t v g in
    record {
      all = ground (arith, done);
      sent = ground (arith, done);
      dropped = subst (λ x. AreRuns x.dropped) (sym h) (walk-AreRuns c d n t g);
    }
