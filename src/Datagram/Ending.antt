-- ===== src/Datagram/Ending.antt =====
-- The loop of `enet_protocol_check_outgoing_commands` ends.
use rusty_enet.Base.{
  ℕ, zero, suc, ◌+◌, ◌≤◌, ◌<◌, ◌≡◌, ◌≢◌, refl, List, [], ◌∷◌, Option, none, some, arith, length,
}
use rusty_enet.Peer.{OutgoingCommand, Context}
use rusty_enet.Datagram.{Datagram}
use rusty_enet.Datagram.Choosing.{Progress, Pick, nothing, from_outgoing, from_reliable, pick}
use rusty_enet.Datagram.Filling.{
  Visit, passes, full, stalls, takes, drops, free, drop_run, follow_outgoing, follow_reliable,
  follow, walk, begin_walk, end_filled, check_outgoing_commands,
}

drop_run-shorter :
    (n k : ℕ) (l : List OutgoingCommand) (s : Progress) → length (drop_run n k l s).0 ≤ length l
unfolding drop_run
drop_run-shorter n k [] s = ground arith
drop_run-shorter n k (o ∷ l) s = ground (arith, drop_run-shorter n k l (free o s))

-- The queues of a choice are shorter by its command.
abbrev size : Pick → ℕ
size nothing = 0
size (from_outgoing o l r) = length l + length r + 1
size (from_reliable q l r) = length l + length r + 1

pick-size : (l r : List OutgoingCommand) → size (pick l r) ≡ length l + length r
unfolding pick
pick-size [] [] = ground arith
pick-size [] (q ∷ r) = ground arith
pick-size (o ∷ l) [] = ground arith
pick-size (o ∷ l) (q ∷ r) = ground arith

module _ (now n : ℕ)
    (next : List OutgoingCommand → List OutgoingCommand → Progress → Option Progress)
    (ends : (l r : List OutgoingCommand) (s : Progress)
      → length l + length r < n
      → next l r s ≢ none) where
  follow_outgoing-ends :
      (o : OutgoingCommand) (l r : List OutgoingCommand) (s : Progress) (v : Visit)
      → length l + length r < n
      → follow_outgoing now next o l r s v ≢ none
  follow_outgoing-ends o l r s passes h e = ends _ _ _ h e
  follow_outgoing-ends o l r s (stalls t) h e = ends _ _ _ (omega arith) e
  follow_outgoing-ends o l r s (full t) h e = ground arith
  follow_outgoing-ends o l r s (takes t) h e = ends _ _ _ h e
  follow_outgoing-ends o l r s (drops t) h e =
      ends _ _ _
        (omega
          (arith, drop_run-shorter o.reliable_sequence_number o.unreliable_sequence_number l _))
        e

  follow_reliable-ends :
      (q : OutgoingCommand) (l r : List OutgoingCommand) (s : Progress) (v : Visit)
      → length l + length r < n
      → follow_reliable now next q l r s v ≢ none
  follow_reliable-ends q l r s passes h e = ends _ _ _ h e
  follow_reliable-ends q l r s (stalls t) h e = ends _ _ _ (omega arith) e
  follow_reliable-ends q l r s (full t) h e = ground arith
  follow_reliable-ends q l r s (takes t) h e = ends _ _ _ h e
  follow_reliable-ends q l r s (drops t) h e =
      ends _ _ _
        (omega
          (arith, drop_run-shorter q.reliable_sequence_number q.unreliable_sequence_number l _))
        e

  follow-ends : (p : Pick) (s : Progress) → size p < suc n → follow now next p s ≢ none
  follow-ends nothing s h = λ e. ground arith
  follow-ends (from_outgoing o l r) s h = follow_outgoing-ends o l r s _ (omega arith)
  follow-ends (from_reliable q l r) s h = follow_reliable-ends q l r s _ (omega arith)

walk-ends :
    (now n : ℕ) (l r : List OutgoingCommand) (s : Progress)
    → length l + length r < n
    → walk now n l r s ≢ none
unfolding walk
walk-ends now zero l r s h = absurd (omega arith)
walk-ends now (suc n) l r s h =
    follow-ends now n (walk now n) (walk-ends now n) (pick l r) s (omega (arith, pick-size l r))

-- Choosing what to send never runs out of rounds, whatever is queued.
pub check_outgoing_commands-ends :
    (flush : Context → Context) (c : Context) (d : Datagram)
    → check_outgoing_commands flush c d ≢ none
unfolding check_outgoing_commands
check_outgoing_commands-ends flush c d e =
    let l = c.peer.outgoing_commands in
    let r = c.peer.outgoing_send_reliable_commands in
    go (walk c.host.service_time (length l + length r + 1) l r (begin_walk c d))
      (walk-ends c.host.service_time (length l + length r + 1) l r (begin_walk c d) (omega arith)) e
  where
    go : (w : Option Progress) → w ≢ none → end_filled flush c w ≢ none
    go none h e = h refl
    go (some w) h e = ground arith
