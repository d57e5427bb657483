-- ===== src/Timeout/GivingUp.antt =====
-- When a peer is given up for its silence: the end of the loop of `enet_protocol_check_timeouts` in
-- src/c/protocol.rs.
use rusty_enet.Base.{
  ℕ, ◌+◌, ◌^◌, ◌≤◌, ◌<◌, min, ◌≡◌, refl, sym, subst, ◌⊎◌, ◌||◌, ◌==◌, leb, sub32, if◌then◌else◌,
  inl, inr, true, false, List, [], ◌∷◌, arith,
}
use rusty_enet.Peer.{OutgoingCommand, Peer, Context}
use rusty_enet.Outgoing.{Among}
use rusty_enet.Connection.Counters.{IsCounted, notify_disconnect-IsCounted}
use rusty_enet.Acknowledge.{time_difference}
use rusty_enet.Timeout.{
  is_due, mark_earliest, gives_up, lose, Passed, keep_sent, resend, refresh_next, assemble, sweep,
  nothing_passed, check_timeouts,
}

-- The time from which the silence is measured: as the peer had it, or that of a command that is due.
abbrev pub IsSince : (now : ℕ) → List OutgoingCommand → Peer → ℕ → Type 0
IsSince now l p e =
    (p.earliest_timeout ≡ e)
    ⊎ ((o : OutgoingCommand) × Among o l × (is_due now o ≡ true) × (o.sent_time ≡ e))

-- Why the peer was given up.
pub record IsGone (now : ℕ) (l : List OutgoingCommand) (p : Peer) : Type 0 where
  pub late : OutgoingCommand
  pub among : Among late l
  pub due : is_due now late ≡ true
  pub since : ℕ
  pub is_since : IsSince now l p since
  pub silence : min p.timeout_minimum p.timeout_maximum ≤ time_difference now since

mark_earliest-IsSince :
    (now : ℕ) (o : OutgoingCommand) (l : List OutgoingCommand) (p : Peer)
    → is_due now o ≡ true
    → IsSince now (o ∷ l) p (mark_earliest o p).earliest_timeout
unfolding mark_earliest
mark_earliest-IsSince now o l p e =
    elim (p.earliest_timeout == 0 || leb 86400000 (sub32 o.sent_time p.earliest_timeout))
      as (λ b.
        IsSince now (o ∷ l) p
          (if b
            then record p { timing = record p.timing { earliest_timeout = o.sent_time } }
            else p).earliest_timeout) [ true ↦ inr (o, inl refl, e, refl) | false ↦ inl refl ]

later-IsSince :
    (now : ℕ) (o : OutgoingCommand) (l : List OutgoingCommand) (p q : Peer) (e : ℕ)
    → IsSince now (o ∷ l) p q.earliest_timeout
    → IsSince now l q e
    → IsSince now (o ∷ l) p e
later-IsSince now o l p q e a (inl b) = subst (IsSince now (o ∷ l) p) b a
later-IsSince now o l p q e a (inr (x, m, d, b)) = inr (x, inr m, d, b)

-- The fields that the loop only reads, and the earliest timeout that it leaves to the next step.
record SameTimes (p q : Peer) : Type 0 where
  earliest : q.earliest_timeout ≡ p.earliest_timeout
  minimum : q.timeout_minimum ≡ p.timeout_minimum
  maximum : q.timeout_maximum ≡ p.timeout_maximum

refresh_next-SameTimes : (k l : List OutgoingCommand) (p : Peer) → SameTimes p (refresh_next k l p)
unfolding refresh_next
refresh_next-SameTimes [] [] p = ground arith
refresh_next-SameTimes [] (o ∷ l) p = ground arith
refresh_next-SameTimes (x ∷ k) l p = ground arith

record SameLimits (p q : Peer) : Type 0 where
  minimum : q.timeout_minimum ≡ p.timeout_minimum
  maximum : q.timeout_maximum ≡ p.timeout_maximum

mark_earliest-SameLimits : (o : OutgoingCommand) (p : Peer) → SameLimits p (mark_earliest o p)
unfolding mark_earliest
mark_earliest-SameLimits o p = ground arith

later-IsGone :
    (now : ℕ) (o : OutgoingCommand) (l : List OutgoingCommand) (p q : Peer)
    → SameLimits p q
    → ((e : ℕ) → IsSince now l q e → IsSince now (o ∷ l) p e)
    → IsGone now l q
    → IsGone now (o ∷ l) p
later-IsGone now o l p q w f g = record {
  late = g.late;
  among = inr g.among;
  due = g.due;
  since = g.since;
  is_since = f g.since g.is_since;
  silence = ground arith;
}

resent-IsGone :
    (now : ℕ) (s : Passed) (o : OutgoingCommand) (l : List OutgoingCommand) (p : Peer)
    → is_due now o ≡ true
    → IsGone now l (refresh_next s.kept l (lose o (mark_earliest o p)))
    → IsGone now (o ∷ l) p
unfolding lose
resent-IsGone now s o l p d g =
    let p' = lose o (mark_earliest o p) in
    let q = refresh_next s.kept l p' in
    later-IsGone now o l p q
      (ground (arith, mark_earliest-SameLimits o p, refresh_next-SameTimes s.kept l p'))
      (λ e. later-IsSince now o l p q e (
        subst (IsSince now (o ∷ l) p) (sym (refresh_next-SameTimes s.kept l p').earliest)
          (mark_earliest-IsSince now o l p d)))
      g

given_up-IsGone :
    (now : ℕ) (o : OutgoingCommand) (l : List OutgoingCommand) (p : Peer)
    → is_due now o ≡ true
    → gives_up now o (mark_earliest o p) ≡ true
    → IsGone now (o ∷ l) p
unfolding gives_up
given_up-IsGone now o l p d g = record {
  late = o;
  among = inl refl;
  due = d;
  since = (mark_earliest o p).earliest_timeout;
  is_since = mark_earliest-IsSince now o l p d;
  silence = ground (arith, mark_earliest-SameLimits o p);
}

kept-IsGone :
    (now : ℕ) (o : OutgoingCommand) (l : List OutgoingCommand) (p : Peer)
    → IsGone now l p
    → IsGone now (o ∷ l) p
kept-IsGone now o l p g =
    later-IsGone now o l p p (record { minimum = refl; maximum = refl })
      (λ e. λ s. later-IsSince now o l p p e (inl refl) s) g

sweep-IsGone :
    (now : ℕ) (s : Passed) (todo : List OutgoingCommand) (p q : Peer)
    → sweep now s todo p ≡ (true, q)
    → IsGone now todo p
unfolding sweep
sweep-IsGone now s [] p q e = ground arith
sweep-IsGone now s (o ∷ l) p q e = ground (
  arith,
  sweep-IsGone now (keep_sent o s) l p q,
  sweep-IsGone now (resend o s) l (refresh_next s.kept l (lose o (mark_earliest o p))) q,
  kept-IsGone now o l p,
  resent-IsGone now s o l p,
  given_up-IsGone now o l p,
)

-- A peer is given up for its silence only where a command that it was sent is due, and the time
-- since the peer's earliest timeout, or since a command that is due was sent, has reached the
-- smaller of the peer's two limits.
pub check_timeouts-IsGone :
    (c d : Context)
    → check_timeouts c ≡ (true, d)
    → IsGone c.host.service_time c.peer.sent_reliable_commands c.peer
unfolding check_timeouts
check_timeouts-IsGone c d e = ground (
  arith,
  sweep-IsGone c.host.service_time nothing_passed c.peer.sent_reliable_commands c.peer
      (sweep c.host.service_time nothing_passed c.peer.sent_reliable_commands c.peer).1,
)

-- The state of the connection is not the loop's to change.
abbrev SameLink : Peer → Peer → Type 0
SameLink p q = (p.link ≡ q.link) × (p.incoming_bandwidth ≡ q.incoming_bandwidth)

mark_earliest-SameLink : (o : OutgoingCommand) (p : Peer) → SameLink (mark_earliest o p) p
unfolding mark_earliest
mark_earliest-SameLink o p = ground arith

refresh_next-SameLink : (k l : List OutgoingCommand) (p : Peer) → SameLink (refresh_next k l p) p
unfolding refresh_next
refresh_next-SameLink [] [] p = ground arith
refresh_next-SameLink [] (o ∷ l) p = ground arith
refresh_next-SameLink (x ∷ k) l p = ground arith

sweep-SameLink :
    (now : ℕ) (s : Passed) (todo : List OutgoingCommand) (p : Peer)
    → SameLink (sweep now s todo p).1 p
unfolding sweep lose assemble
sweep-SameLink now s [] p = ground arith
sweep-SameLink now s (o ∷ l) p =
    let p' = lose o (mark_earliest o p) in
    ground (
      arith,
      sweep-SameLink now (keep_sent o s) l p,
      sweep-SameLink now (resend o s) l (refresh_next s.kept l p'),
      mark_earliest-SameLink o p,
      refresh_next-SameLink s.kept l p',
    )

module _ (n m : ℕ) (n_fits : n + 1 < 2 ^ 64) (m_fits : m + 1 < 2 ^ 64) where
  pub check_timeouts-IsCounted :
      (c : Context) → IsCounted n m c → IsCounted n m (check_timeouts c).1
  unfolding check_timeouts
  check_timeouts-IsCounted c v =
      let r = sweep c.host.service_time nothing_passed c.peer.sent_reliable_commands c.peer in
      let v' : IsCounted n m (record c { peer = r.1 }) = ground (
        arith,
        sweep-SameLink c.host.service_time nothing_passed c.peer.sent_reliable_commands c.peer,
      ) in
      ground (arith, notify_disconnect-IsCounted n m n_fits m_fits (record c { peer = r.1 }) v')
