-- ===== src/Outbound/Walking.antt =====
-- Choosing what to send changes neither a peer's state nor its bandwidth limit:
-- `enet_protocol_check_outgoing_commands` of src/c/protocol.rs.
use rusty_enet.Base.{ℕ, zero, suc, ◌≡◌, false, List, [], ◌∷◌, Option, none, some, arith}
use rusty_enet.Peer.{OutgoingCommand, Peer}
use rusty_enet.Outgoing.{with_channel}
use rusty_enet.Datagram.Choosing.{Progress, Pick, nothing, from_outgoing, from_reliable, pick}
use rusty_enet.Datagram.Filling.{
  count_window, note_sent, put, send_reliable, send_unreliable, count_packet, Visit, passes, full,
  stalls, takes, drops, visit_unreliable, visit, free, drop_run, keep_outgoing, keep_reliable,
  drop_from, finish, follow_outgoing, follow_reliable, follow, walk,
}

-- The two fields that decide what a peer adds to the counts.
pub record SameCount (p q : Peer) : Type 0 where
  pub state : p.state ≡ q.state
  pub incoming_bandwidth : p.incoming_bandwidth ≡ q.incoming_bandwidth

send_reliable-SameCount :
    (now : ℕ) (o : OutgoingCommand) (s : Progress) → SameCount (send_reliable now o s).peer s.peer
unfolding send_reliable note_sent count_window with_channel
send_reliable-SameCount now o s = ground arith

abbrev Visits : Progress → Visit → Type 0
Visits s passes = Unit {0}
Visits s (full t) = SameCount t.peer s.peer
Visits s (stalls t) = SameCount t.peer s.peer
Visits s (takes t) = SameCount t.peer s.peer
Visits s (drops t) = SameCount t.peer s.peer

visit_unreliable-Visits : (o : OutgoingCommand) (s : Progress) → Visits s (visit_unreliable o s)
unfolding visit_unreliable count_packet put send_unreliable
visit_unreliable-Visits o s = ground arith

visit-Visits : (now : ℕ) (o : OutgoingCommand) (s : Progress) → Visits s (visit now o s)
unfolding visit put
visit-Visits now o s = ground (
  arith,
  send_reliable-SameCount now o s,
  send_reliable-SameCount now o (record s { can_ping = false }),
  visit_unreliable-Visits o s,
  visit_unreliable-Visits o (record s { can_ping = false }),
)

finish-SameCount :
    (l r : List OutgoingCommand) (s : Progress) → SameCount (finish l r s).peer s.peer
unfolding finish
finish-SameCount l r s = ground arith

drop_run-SameCount :
    (n k : ℕ) (l : List OutgoingCommand) (s : Progress) → SameCount (drop_run n k l s).1.peer s.peer
unfolding drop_run
drop_run-SameCount n k [] s = ground arith
drop_run-SameCount n k (o ∷ l) s = ground (arith, drop_run-SameCount n k l (free o s))

drop_from-SameCount :
    (o : OutgoingCommand) (l : List OutgoingCommand) (s t : Progress)
    → SameCount t.peer s.peer
    → SameCount (drop_from o l t).1.peer s.peer
drop_from-SameCount o l s t w =
    ground (
      arith,
      drop_run-SameCount o.reliable_sequence_number o.unreliable_sequence_number l (free o t),
    )

abbrev pub Walks : Progress → Option Progress → Type 0
Walks s none = Unit {0}
Walks s (some t) = SameCount t.peer s.peer

Walks-trans :
    (s t : Progress) (o : Option Progress) → SameCount t.peer s.peer → Walks t o → Walks s o
Walks-trans s t none e w = tt
Walks-trans s t (some u) e w = ground arith

module _ (now : ℕ) (next : List OutgoingCommand → List OutgoingCommand → Progress → Option Progress)
    (next-Walks : (l r : List OutgoingCommand) (s : Progress) → Walks s (next l r s)) where
  follow_outgoing-Walks :
      (o : OutgoingCommand) (l r : List OutgoingCommand) (s : Progress) (v : Visit)
      → Visits s v
      → Walks s (follow_outgoing now next o l r s v)
  follow_outgoing-Walks o l r s passes w =
      let t = keep_outgoing o s in Walks-trans s t (next l r t) (ground arith) (next-Walks l r t)
  follow_outgoing-Walks o l r s (stalls t) w =
      let u = keep_reliable r (keep_outgoing o t) in
      Walks-trans s u (next l [] u) (ground arith) (next-Walks l [] u)
  follow_outgoing-Walks o l r s (full t) w = ground (arith, finish-SameCount (o ∷ l) r t)
  follow_outgoing-Walks o l r s (takes t) w = Walks-trans s t _ w (next-Walks l r t)
  follow_outgoing-Walks o l r s (drops t) w =
      Walks-trans s (drop_from o l t).1 (next (drop_from o l t).0 r (drop_from o l t).1)
        (drop_from-SameCount o l s t w) (next-Walks (drop_from o l t).0 r (drop_from o l t).1)

  follow_reliable-Walks :
      (q : OutgoingCommand) (l r : List OutgoingCommand) (s : Progress) (v : Visit)
      → Visits s v
      → Walks s (follow_reliable now next q l r s v)
  follow_reliable-Walks q l r s passes w =
      let t = keep_reliable (q ∷ []) s in
      Walks-trans s t (next l r t) (ground arith) (next-Walks l r t)
  follow_reliable-Walks q l r s (stalls t) w =
      let u = keep_reliable (q ∷ r) t in
      Walks-trans s u (next l [] u) (ground arith) (next-Walks l [] u)
  follow_reliable-Walks q l r s (full t) w = ground (arith, finish-SameCount l (q ∷ r) t)
  follow_reliable-Walks q l r s (takes t) w = Walks-trans s t _ w (next-Walks l r t)
  follow_reliable-Walks q l r s (drops t) w =
      Walks-trans s (drop_from q l t).1 (next (drop_from q l t).0 r (drop_from q l t).1)
        (drop_from-SameCount q l s t w) (next-Walks (drop_from q l t).0 r (drop_from q l t).1)

  follow-Walks : (k : Pick) (s : Progress) → Walks s (follow now next k s)
  follow-Walks nothing s = ground (arith, finish-SameCount [] [] s)
  follow-Walks (from_outgoing o l r) s = follow_outgoing-Walks o l r s _ (visit-Visits now o s)
  follow-Walks (from_reliable q l r) s = follow_reliable-Walks q l r s _ (visit-Visits now q s)

pub walk-Walks :
    (now n : ℕ) (l r : List OutgoingCommand) (s : Progress) → Walks s (walk now n l r s)
unfolding walk
walk-Walks now zero l r s = tt
walk-Walks now (suc n) l r s = follow-Walks now (walk now n) (walk-Walks now n) (pick l r) s
