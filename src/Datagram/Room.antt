-- ===== src/Datagram/Room.antt =====
-- The datagram that `enet_protocol_check_outgoing_commands` fills stays within its bounds.
use rusty_enet.Base.{ℕ, ◌≤◌, ◌≡◌, refl, List, [], ◌∷◌, some, arith}
use rusty_enet.Protocol.{Body, command_size}
use rusty_enet.Peer.{OutgoingCommand, Context}
use rusty_enet.Datagram.{Datagram, write}
use rusty_enet.Datagram.Choosing.{Progress, is_full}
use rusty_enet.Datagram.Filling.{
  Visit, passes, full, stalls, takes, drops, visit, drop_run, free, finish, walk, begin_walk,
  Filled, check_outgoing_commands,
}
use rusty_enet.Datagram.Moves.{IsStill, IsTaken, Moved, visit-Moved}
use rusty_enet.Datagram.Rounds.{AfterOutgoing, AfterReliable, walk-holds, filled-walk}

-- The arrays have 32 and 65 elements, and a datagram at most the mtu.
pub record IsWithin (mtu : ℕ) (d : Datagram) : Type 0 where
  pub commands : d.command_count ≤ 32
  pub buffers : d.buffer_count ≤ 65
  pub size : d.packet_size ≤ mtu

record IsWalkWithin (mtu : ℕ) (s : Progress) : Type 0 where
  same_mtu : s.peer.mtu ≡ mtu
  commands : s.datagram.command_count ≤ 32
  buffers : s.datagram.buffer_count ≤ 65
  size : s.datagram.packet_size ≤ mtu

-- No command carries more than the largest mtu.
abbrev pub AreSmall : List OutgoingCommand → Type 0
AreSmall [] = Unit
AreSmall (o ∷ l) = (o.fragment_length ≤ 4096) × AreSmall l

abbrev Round : ℕ → List OutgoingCommand → List OutgoingCommand → Progress → Type 0
Round m l r s = AreSmall l × AreSmall r × IsWalkWithin m s

command_size-le : (b : Body) → command_size b ≤ 48
command_size-le b = ground arith

module _ (now m : ℕ) (m_fits : m ≤ 4096) where
  taken-IsWalkWithin :
      (o : OutgoingCommand) (s t : Progress)
      → o.fragment_length ≤ 4096
      → IsWalkWithin m s
      → IsTaken now o s t
      → IsWalkWithin m t
  unfolding is_full write
  taken-IsWalkWithin o s t f w k = ground (arith, command_size-le o.command.body)

  still-IsWalkWithin : (s t : Progress) → IsWalkWithin m s → IsStill s t → IsWalkWithin m t
  still-IsWalkWithin s t w k = ground arith

  drop_run-Round :
      (n k : ℕ) (l r : List OutgoingCommand) (s : Progress)
      → Round m l r s
      → Round m (drop_run n k l s).0 r (drop_run n k l s).1
  unfolding drop_run
  drop_run-Round n k [] r s w = w
  drop_run-Round n k (o ∷ l) r s w = ground (arith, drop_run-Round n k l r (free o s))

  finish-IsWalkWithin :
      (l r : List OutgoingCommand) (s : Progress) → IsWalkWithin m s → IsWalkWithin m (finish l r s)
  unfolding finish
  finish-IsWalkWithin l r s w = ground arith

  after_outgoing :
      (o : OutgoingCommand) (l r : List OutgoingCommand) (s : Progress) (v : Visit)
      → Round m (o ∷ l) r s
      → Moved now o s v
      → AfterOutgoing now (Round m) (IsWalkWithin m) o l r s v
  after_outgoing o l r s passes w k = ground arith
  after_outgoing o l r s (stalls t) w k = ground (arith, still-IsWalkWithin s t)
  after_outgoing o l r s (full t) w k =
      finish-IsWalkWithin (o ∷ l) r t (ground (arith, still-IsWalkWithin s t))
  after_outgoing o l r s (takes t) w k = ground (arith, taken-IsWalkWithin o s t)
  after_outgoing o l r s (drops t) w k =
      drop_run-Round o.reliable_sequence_number o.unreliable_sequence_number l r (free o t)
        (ground (arith, still-IsWalkWithin s t))

  after_reliable :
      (o : OutgoingCommand) (l r : List OutgoingCommand) (s : Progress) (v : Visit)
      → Round m l (o ∷ r) s
      → Moved now o s v
      → AfterReliable now (Round m) (IsWalkWithin m) o l r s v
  after_reliable o l r s passes w k = ground arith
  after_reliable o l r s (stalls t) w k = ground (arith, still-IsWalkWithin s t)
  after_reliable o l r s (full t) w k =
      finish-IsWalkWithin l (o ∷ r) t (ground (arith, still-IsWalkWithin s t))
  after_reliable o l r s (takes t) w k = ground (arith, taken-IsWalkWithin o s t)
  after_reliable o l r s (drops t) w k =
      drop_run-Round o.reliable_sequence_number o.unreliable_sequence_number l r (free o t)
        (ground (arith, still-IsWalkWithin s t))

  walk-IsWalkWithin :
      (n : ℕ) (l r : List OutgoingCommand) (s t : Progress)
      → Round m l r s
      → walk now n l r s ≡ some t
      → IsWalkWithin m t
  walk-IsWalkWithin =
      walk-holds now (Round m) (IsWalkWithin m) (λ s w. finish-IsWalkWithin [] [] s (ground arith))
        (λ o l r s w. after_outgoing o l r s (visit now o s) w (visit-Moved now o s))
        (λ o l r s w. after_reliable o l r s (visit now o s) w (visit-Moved now o s))

-- Filling a datagram never writes past the 32 elements of `commands` and the 65 of `buffers`, and
-- never makes it longer than the peer's mtu, where it was within these bounds at the start, the
-- mtu is at most 4096 and no queued command carries more than 4096 bytes.
pub check_outgoing_commands-IsWithin :
    (flush : Context → Context) (c : Context) (d : Datagram) (f : Filled)
    → c.peer.mtu ≤ 4096
    → AreSmall c.peer.outgoing_commands
    → AreSmall c.peer.outgoing_send_reliable_commands
    → IsWithin c.peer.mtu d
    → check_outgoing_commands flush c d ≡ some f
    → IsWithin c.peer.mtu f.datagram
check_outgoing_commands-IsWithin flush c d f m a b w e =
    let (n, t, g, h) = filled-walk flush c d f e in
    let v : IsWalkWithin c.peer.mtu (begin_walk c d) = record {
      same_mtu = refl;
      commands = w.commands;
      buffers = w.buffers;
      size = w.size;
    } in
    ground (
      arith,
      walk-IsWalkWithin c.host.service_time c.peer.mtu m n c.peer.outgoing_commands
          c.peer.outgoing_send_reliable_commands (begin_walk c d) t (a, b, v) g,
    )
