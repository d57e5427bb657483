-- ===== src/Datagram/Dropping.antt =====
-- What `enet_protocol_check_outgoing_commands` of src/c/protocol.rs frees without sending it.
use rusty_enet.Base.{
  ℕ, ◌≡◌, refl, Bool, true, false, ◌&&◌, List, [], ◌∷◌, ◌++◌, Option, none, some, arith, ◌==◌,
  if◌then◌else◌, subst, sym,
}
use rusty_enet.Peer.{OutgoingCommand, Context}
use rusty_enet.Outgoing.{has_packet}
use rusty_enet.Datagram.{Datagram}
use rusty_enet.Datagram.Choosing.{Progress}
use rusty_enet.Datagram.Filling.{
  Visit, passes, full, stalls, takes, drops, visit, visit_unreliable, drop_run, drop_from, free,
  finish, walk, begin_walk,
}
use rusty_enet.Datagram.Moves.{Moved, visit-Moved}
use rusty_enet.Datagram.Rounds.{AfterOutgoing, AfterReliable, walk-holds}

-- Runs of commands: each starts with an unreliable one that carries the beginning of a packet, and the
-- others of the run have the numbers of that one.
pub data Runs : Option OutgoingCommand → List OutgoingCommand → Type 0 where
  no_run : Runs none []
  opens :
      (q : Option OutgoingCommand) (l : List OutgoingCommand) (o : OutgoingCommand)
      → Runs q l
      → o.command.flag_acknowledge ≡ false
      → has_packet o ≡ true
      → o.fragment_offset ≡ 0
      → Runs (some o) (l ++ (o ∷ []))
  follows :
      (q : OutgoingCommand) (l : List OutgoingCommand) (o : OutgoingCommand)
      → Runs (some q) l
      → o.reliable_sequence_number ≡ q.reliable_sequence_number
      → o.unreliable_sequence_number ≡ q.unreliable_sequence_number
      → Runs (some q) (l ++ (o ∷ []))

pub data AreRuns (l : List OutgoingCommand) : Type 0 where
  are_runs : (q : Option OutgoingCommand) → Runs q l → AreRuns l

-- Only the beginning of an unreliable packet is dropped for itself.
abbrev DropsUnreliable : OutgoingCommand → Visit → Type 0
DropsUnreliable o (drops t) =
    (o.command.flag_acknowledge ≡ false) × (has_packet o ≡ true) × (o.fragment_offset ≡ 0)
DropsUnreliable o _ = Unit {0}

visit-DropsUnreliable :
    (now : ℕ) (o : OutgoingCommand) (s : Progress) → DropsUnreliable o (visit now o s)
unfolding visit visit_unreliable
visit-DropsUnreliable now o s = ground arith

drop_run-AreRuns :
    (n k : ℕ) (q : OutgoingCommand) (l : List OutgoingCommand) (s : Progress)
    → Runs (some q) s.dropped
    → q.reliable_sequence_number ≡ n
    → q.unreliable_sequence_number ≡ k
    → AreRuns (drop_run n k l s).1.dropped
unfolding drop_run
drop_run-AreRuns n k q [] s v a b = are_runs (some q) v
drop_run-AreRuns n k q (o ∷ l) s v a b =
    go (o.reliable_sequence_number == n && o.unreliable_sequence_number == k) refl
      (drop_run-AreRuns n k q l (free o s))
  where
    go :
        (x : Bool)
        → (o.reliable_sequence_number == n && o.unreliable_sequence_number == k) ≡ x
        → (Runs (some q) (s.dropped ++ (o ∷ []))
            → q.reliable_sequence_number ≡ n
            → q.unreliable_sequence_number ≡ k
            → AreRuns (drop_run n k l (free o s)).1.dropped)
        → AreRuns (if x then drop_run n k l (free o s) else (o ∷ l, s)).1.dropped
    go true e f = f (follows q s.dropped o v (ground arith) (ground arith)) a b
    go false e f = are_runs (some q) v

module _ (now : ℕ) where
  abbrev Holds : List OutgoingCommand → List OutgoingCommand → Progress → Type 0
  Holds l r s = AreRuns s.dropped

  abbrev HoldsAfter : Progress → Type 0
  HoldsAfter s = AreRuns s.dropped

  drop_from-AreRuns :
      (o : OutgoingCommand) (l : List OutgoingCommand) (s : Progress)
      → AreRuns s.dropped
      → DropsUnreliable o (drops s)
      → AreRuns (drop_from o l s).1.dropped
  drop_from-AreRuns o l s (are_runs q v) d =
      drop_run-AreRuns o.reliable_sequence_number o.unreliable_sequence_number o l (free o s)
        (opens q s.dropped o v d.0 d.1 d.2) refl refl

  after_outgoing :
      (o : OutgoingCommand) (l r : List OutgoingCommand) (s : Progress) (v : Visit)
      → AreRuns s.dropped
      → Moved now o s v
      → DropsUnreliable o v
      → AfterOutgoing now Holds HoldsAfter o l r s v
  unfolding finish
  after_outgoing o l r s passes a m d = a
  after_outgoing o l r s (stalls t) a m d = subst AreRuns (sym m.dropped) a
  after_outgoing o l r s (full t) a m d = subst AreRuns (sym m.dropped) a
  after_outgoing o l r s (takes t) a m d = subst AreRuns (sym m.dropped) a
  after_outgoing o l r s (drops t) a m d =
      drop_from-AreRuns o l t (subst AreRuns (sym m.dropped) a) d

  after_reliable :
      (o : OutgoingCommand) (l r : List OutgoingCommand) (s : Progress) (v : Visit)
      → AreRuns s.dropped
      → Moved now o s v
      → DropsUnreliable o v
      → AfterReliable now Holds HoldsAfter o l r s v
  unfolding finish
  after_reliable o l r s passes a m d = a
  after_reliable o l r s (stalls t) a m d = subst AreRuns (sym m.dropped) a
  after_reliable o l r s (full t) a m d = subst AreRuns (sym m.dropped) a
  after_reliable o l r s (takes t) a m d = subst AreRuns (sym m.dropped) a
  after_reliable o l r s (drops t) a m d =
      drop_from-AreRuns o l t (subst AreRuns (sym m.dropped) a) d

finish-dropped : (s : Progress) → AreRuns s.dropped → AreRuns (finish [] [] s).dropped
unfolding finish
finish-dropped s a = a

pub walk-AreRuns :
    (c : Context) (d : Datagram) (n : ℕ) (t : Progress)
    → walk c.host.service_time n c.peer.outgoing_commands c.peer.outgoing_send_reliable_commands
        (begin_walk c d)
      ≡ some t
    → AreRuns t.dropped
walk-AreRuns c d n t =
    let now = c.host.service_time in
    walk-holds now (Holds now) (HoldsAfter now) finish-dropped
      (λ o l r s a.
        after_outgoing now o l r s (visit now o s) a (visit-Moved now o s)
          (visit-DropsUnreliable now o s))
      (λ o l r s a.
        after_reliable now o l r s (visit now o s) a (visit-Moved now o s)
          (visit-DropsUnreliable now o s))
      n c.peer.outgoing_commands c.peer.outgoing_send_reliable_commands (begin_walk c d) t
      (are_runs none no_run)
