-- ===== src/Datagram/Rounds.antt =====
-- Induction over the rounds of `enet_protocol_check_outgoing_commands`.
use rusty_enet.Base.{
  ℕ, zero, suc, ◌+◌, ◌≡◌, refl, length, List, [], ◌∷◌, Option, none, some, arith, Bool, true, false,
  subst, leb, sub32, if◌then◌else◌,
}
use rusty_enet.Peer.{OutgoingCommand, Context}
use rusty_enet.Datagram.{Datagram}
use rusty_enet.Datagram.Choosing.{Progress, from_outgoing, from_reliable, pick}
use rusty_enet.Datagram.Filling.{
  Visit, passes, full, stalls, takes, drops, visit, drop_from, keep_outgoing, keep_reliable, finish,
  follow_outgoing, follow_reliable, follow, walk, begin_walk, end_walk, end_filled, Filled,
  check_outgoing_commands,
}

-- `P` holds before each round, `Q` at the end.
module _ (now : ℕ) (P : List OutgoingCommand → List OutgoingCommand → Progress → Type 0)
    (Q : Progress → Type 0) where
  abbrev pub AfterOutgoing :
      OutgoingCommand → List OutgoingCommand → List OutgoingCommand → Progress → Visit → Type 0
  AfterOutgoing o l r s passes = P l r (keep_outgoing o s)
  AfterOutgoing o l r s (stalls t) = P l [] (keep_reliable r (keep_outgoing o t))
  AfterOutgoing o l r s (full t) = Q (finish (o ∷ l) r t)
  AfterOutgoing o l r s (takes t) = P l r t
  AfterOutgoing o l r s (drops t) = P (drop_from o l t).0 r (drop_from o l t).1

  abbrev pub AfterReliable :
      OutgoingCommand → List OutgoingCommand → List OutgoingCommand → Progress → Visit → Type 0
  AfterReliable q l r s passes = P l r (keep_reliable (q ∷ []) s)
  AfterReliable q l r s (stalls t) = P l [] (keep_reliable (q ∷ r) t)
  AfterReliable q l r s (full t) = Q (finish l (q ∷ r) t)
  AfterReliable q l r s (takes t) = P l r t
  AfterReliable q l r s (drops t) = P (drop_from q l t).0 r (drop_from q l t).1

  module _ (ends : (s : Progress) → P [] [] s → Q (finish [] [] s))
      (outgoing : (o : OutgoingCommand) (l r : List OutgoingCommand) (s : Progress)
        → P (o ∷ l) r s
        → AfterOutgoing o l r s (visit now o s))
      (reliable : (q : OutgoingCommand) (l r : List OutgoingCommand) (s : Progress)
        → P l (q ∷ r) s
        → AfterReliable q l r s (visit now q s)) where
    module _ (next : List OutgoingCommand → List OutgoingCommand → Progress → Option Progress)
        (later : (l r : List OutgoingCommand) (s t : Progress)
          → P l r s
          → next l r s ≡ some t
          → Q t) where
      follow_outgoing-holds :
          (o : OutgoingCommand) (l r : List OutgoingCommand) (s t : Progress) (v : Visit)
          → AfterOutgoing o l r s v
          → follow_outgoing now next o l r s v ≡ some t
          → Q t
      follow_outgoing-holds o l r s t passes h e = later _ _ _ t h e
      follow_outgoing-holds o l r s t (stalls u) h e = later _ _ _ t h e
      follow_outgoing-holds o l r s t (full u) h e = subst Q (ground arith) h
      follow_outgoing-holds o l r s t (takes u) h e = later _ _ _ t h e
      follow_outgoing-holds o l r s t (drops u) h e = later _ _ _ t h e

      follow_reliable-holds :
          (o : OutgoingCommand) (l r : List OutgoingCommand) (s t : Progress) (v : Visit)
          → AfterReliable o l r s v
          → follow_reliable now next o l r s v ≡ some t
          → Q t
      follow_reliable-holds o l r s t passes h e = later _ _ _ t h e
      follow_reliable-holds o l r s t (stalls u) h e = later _ _ _ t h e
      follow_reliable-holds o l r s t (full u) h e = subst Q (ground arith) h
      follow_reliable-holds o l r s t (takes u) h e = later _ _ _ t h e
      follow_reliable-holds o l r s t (drops u) h e = later _ _ _ t h e

      follow-holds :
          (l r : List OutgoingCommand) (s t : Progress)
          → P l r s
          → follow now next (pick l r) s ≡ some t
          → Q t
      unfolding pick
      follow-holds [] [] s t h e = subst Q (ground arith) (ends s h)
      follow-holds [] (q ∷ r) s t h e = follow_reliable-holds q [] r s t _ (reliable q [] r s h) e
      follow-holds (o ∷ l) [] s t h e = follow_outgoing-holds o l [] s t _ (outgoing o l [] s h) e
      follow-holds (o ∷ l) (q ∷ r) s t h e = go (leb 86400000 (sub32 q.queue_time o.queue_time)) e
        where
          go :
              (b : Bool)
              → follow now next
                  (if b then from_reliable q (o ∷ l) r else from_outgoing o l (q ∷ r))
                  s
                ≡ some t
              → Q t
          go true e = follow_reliable-holds q (o ∷ l) r s t _ (reliable q (o ∷ l) r s h) e
          go false e = follow_outgoing-holds o l (q ∷ r) s t _ (outgoing o l (q ∷ r) s h) e

    pub walk-holds :
        (n : ℕ) (l r : List OutgoingCommand) (s t : Progress)
        → P l r s
        → walk now n l r s ≡ some t
        → Q t
    unfolding walk
    walk-holds zero l r s t h e = ground arith
    walk-holds (suc n) l r s t h e = follow-holds (walk now n) (walk-holds n) l r s t h e

-- What the function returns is what the loop leaves.
pub filled-walk :
    (flush : Context → Context) (c : Context) (d : Datagram) (f : Filled)
    → check_outgoing_commands flush c d ≡ some f
    → (n : ℕ) × (t : Progress) × (walk c.host.service_time n c.peer.outgoing_commands
          c.peer.outgoing_send_reliable_commands
          (begin_walk c d)
        ≡ some t)
      × (f ≡ end_walk flush c t)
unfolding check_outgoing_commands
filled-walk flush c d f e =
    go
      (walk c.host.service_time
        (length c.peer.outgoing_commands + length c.peer.outgoing_send_reliable_commands + 1)
        c.peer.outgoing_commands c.peer.outgoing_send_reliable_commands (begin_walk c d))
      refl e
  where
    go :
        (o : Option Progress)
        → walk c.host.service_time
            (length c.peer.outgoing_commands + length c.peer.outgoing_send_reliable_commands + 1)
            c.peer.outgoing_commands
            c.peer.outgoing_send_reliable_commands
            (begin_walk c d)
          ≡ o
        → end_filled flush c o ≡ some f
        → (n : ℕ) × (t : Progress) × (walk c.host.service_time n c.peer.outgoing_commands
              c.peer.outgoing_send_reliable_commands
              (begin_walk c d)
            ≡ some t)
          × (f ≡ end_walk flush c t)
    go none g e = ground arith
    go (some t) g e = (
      length c.peer.outgoing_commands + length c.peer.outgoing_send_reliable_commands + 1,
      t,
      g,
      ground arith,
    )
