-- ===== src/Datagram/Transit.antt =====
-- The reliable data on its way to a peer, which `enet_protocol_check_outgoing_commands` bounds.
use rusty_enet.Base.{
  ℕ, ◌^◌, ◌≤◌, ◌<◌, ◌≡◌, refl, Bool, true, false, ◌&&◌, ◌||◌, List, [], ◌∷◌, some, arith, ◌==◌,
}
use rusty_enet.Peer.{OutgoingCommand, Peer, Context}
use rusty_enet.Outgoing.{has_packet}
use rusty_enet.Datagram.{Datagram, is_leaving, leave_when_done}
use rusty_enet.Datagram.Choosing.{Progress, transit_limit, exceeds}
use rusty_enet.Datagram.Filling.{
  Visit, passes, full, stalls, takes, drops, visit, drop_run, free, finish, walk, begin_walk,
  Filled, check_outgoing_commands,
}
use rusty_enet.Datagram.Moves.{IsStill, IsTaken, Moved, visit-Moved}
use rusty_enet.Datagram.Rounds.{AfterOutgoing, AfterReliable, walk-holds, filled-walk}

-- What the peer had at the start, and the bound now.
record IsLimited (p : Peer) (s : Progress) : Type 0 where
  state : s.peer.state ≡ p.state
  mtu : s.peer.mtu ≡ p.mtu
  window_size : s.peer.window_size ≡ p.window_size
  packet_throttle : s.peer.packet_throttle ≡ p.packet_throttle
  transit : s.peer.reliable_data_in_transit ≤ transit_limit p

-- Commands without a packet have no length.
abbrev pub weightless : List OutgoingCommand → Bool
weightless [] = true
weightless (o ∷ l) = (has_packet o || o.fragment_length == 0) && weightless l

abbrev Round : Peer → List OutgoingCommand → List OutgoingCommand → Progress → Type 0
Round p l r s = (weightless l ≡ true) × (weightless r ≡ true) × IsLimited p s

module _ (now : ℕ) (p : Peer) (fits : transit_limit p < 2 ^ 32) where
  taken-IsLimited :
      (o : OutgoingCommand) (s t : Progress)
      → (has_packet o || o.fragment_length == 0) ≡ true
      → IsLimited p s
      → IsTaken now o s t
      → IsLimited p t
  unfolding exceeds transit_limit
  taken-IsLimited o s t f w k = ground arith

  still-IsLimited : (s t : Progress) → IsLimited p s → IsStill s t → IsLimited p t
  still-IsLimited s t w k = ground arith

  drop_run-Round :
      (n k : ℕ) (l r : List OutgoingCommand) (s : Progress)
      → Round p l r s
      → Round p (drop_run n k l s).0 r (drop_run n k l s).1
  unfolding drop_run
  drop_run-Round n k [] r s w = w
  drop_run-Round n k (o ∷ l) r s w = ground (arith, drop_run-Round n k l r (free o s))

  finish-IsLimited :
      (l r : List OutgoingCommand) (s : Progress) → IsLimited p s → IsLimited p (finish l r s)
  unfolding finish
  finish-IsLimited l r s w = ground arith

  after_outgoing :
      (o : OutgoingCommand) (l r : List OutgoingCommand) (s : Progress) (v : Visit)
      → Round p (o ∷ l) r s
      → Moved now o s v
      → AfterOutgoing now (Round p) (IsLimited p) o l r s v
  after_outgoing o l r s passes w k = ground arith
  after_outgoing o l r s (stalls t) w k = ground (arith, still-IsLimited s t)
  after_outgoing o l r s (full t) w k =
      finish-IsLimited (o ∷ l) r t (ground (arith, still-IsLimited s t))
  after_outgoing o l r s (takes t) w k = ground (arith, taken-IsLimited o s t)
  after_outgoing o l r s (drops t) w k =
      drop_run-Round o.reliable_sequence_number o.unreliable_sequence_number l r (free o t)
        (ground (arith, still-IsLimited s t))

  after_reliable :
      (o : OutgoingCommand) (l r : List OutgoingCommand) (s : Progress) (v : Visit)
      → Round p l (o ∷ r) s
      → Moved now o s v
      → AfterReliable now (Round p) (IsLimited p) o l r s v
  after_reliable o l r s passes w k = ground arith
  after_reliable o l r s (stalls t) w k = ground (arith, still-IsLimited s t)
  after_reliable o l r s (full t) w k =
      finish-IsLimited l (o ∷ r) t (ground (arith, still-IsLimited s t))
  after_reliable o l r s (takes t) w k = ground (arith, taken-IsLimited o s t)
  after_reliable o l r s (drops t) w k =
      drop_run-Round o.reliable_sequence_number o.unreliable_sequence_number l r (free o t)
        (ground (arith, still-IsLimited s t))

  walk-IsLimited :
      (n : ℕ) (l r : List OutgoingCommand) (s t : Progress)
      → Round p l r s
      → walk now n l r s ≡ some t
      → IsLimited p t
  walk-IsLimited =
      walk-holds now (Round p) (IsLimited p) (λ s w. finish-IsLimited [] [] s (ground arith))
        (λ o l r s w. after_outgoing o l r s (visit now o s) w (visit-Moved now o s))
        (λ o l r s w. after_reliable o l r s (visit now o s) w (visit-Moved now o s))

transit_limit_fits : (p : Peer) → p.mtu < 2 ^ 32 → transit_limit p < 2 ^ 32
unfolding transit_limit
transit_limit_fits p h = ground arith

-- The reliable data on its way to a peer stays within what its window and throttle allow, or the
-- mtu if that is more, where it was so before. Commands without a packet have no length, the mtu
-- fits 32 bits, and the peer is not one that leaves when all is sent.
pub check_outgoing_commands-le-transit_limit :
    (flush : Context → Context) (c : Context) (d : Datagram) (f : Filled)
    → c.peer.mtu < 2 ^ 32
    → is_leaving c.peer.state ≡ false
    → weightless c.peer.outgoing_commands ≡ true
    → weightless c.peer.outgoing_send_reliable_commands ≡ true
    → c.peer.reliable_data_in_transit ≤ transit_limit c.peer
    → check_outgoing_commands flush c d ≡ some f
    → f.context.peer.reliable_data_in_transit ≤ transit_limit c.peer
unfolding leave_when_done
check_outgoing_commands-le-transit_limit flush c d f m s a b w e =
    let (n, t, g, h) = filled-walk flush c d f e in
    let v : IsLimited c.peer (begin_walk c d) = record {
      state = refl;
      mtu = refl;
      window_size = refl;
      packet_throttle = refl;
      transit = w;
    } in
    ground (
      arith,
      walk-IsLimited c.host.service_time c.peer (transit_limit_fits c.peer m) n
          c.peer.outgoing_commands c.peer.outgoing_send_reliable_commands (begin_walk c d) t
          (a, b, v) g,
    )
