-- ===== src/Throttling/Rounds.antt =====
-- The two loops of `enet_host_bandwidth_throttle` end.
use rusty_enet.Base.{
  ℕ, zero, suc, ◌+◌, ◌/◌, ◌≤◌, ◌<◌, ◌≡◌, ◌≢◌, not, ◌==◌, u32, sub32, refl, ◌⊎◌, inr, Bool, true,
  false, List, [], ◌∷◌, Option, none, some, arith, length, if◌then◌else◌,
}
use rusty_enet.Peer.{Peer, Host}
use rusty_enet.Throttling.{
  Share, shared_throttle, set_limit, is_open, own_limit, with_outgoing_epoch, take_share, limit_all,
  limit_loop, begin_share, end_throttle, throttle_peers, Division, is_below, take_division,
  bound_all, bound_loop, bound_peers, announce_limits, recalculate_limits, bandwidth_throttle,
  allowance,
}

-- The peers that a loop may still mark.
abbrev count : (Peer → Bool) → List Peer → ℕ
count t [] = 0
count t (p ∷ l) = (if t p then 1 else 0) + count t l

count-le-length : (t : Peer → Bool) (l : List Peer) → count t l ≤ length l
count-le-length t [] = ground arith
count-le-length t (p ∷ l) = ground (arith, count-le-length t l)

abbrev waits : ℕ → Peer → Bool
waits now p = is_open now p

-- A round marks peers, or has nothing to adjust.
record IsProgress (now : ℕ) (l : List Peer) (b : Bool) (l' : List Peer) (b' : Bool) : Type 0 where
  fewer : count (waits now) l' ≤ count (waits now) l
  progress : (b' ≡ b) ⊎ (count (waits now) l' < count (waits now) l)

marked_not_open :
    (now n : ℕ) (p : Peer) → is_open now (with_outgoing_epoch now (set_limit n p)) ≡ false
unfolding set_limit
marked_not_open now n p = ground arith

limit_all-IsProgress :
    (now elapsed t : ℕ) (l : List Peer) (s : Share)
    → IsProgress now l s.needs_adjustment
        (limit_all now elapsed t l s).0
        (limit_all now elapsed t l s).1.needs_adjustment
unfolding limit_all take_share
limit_all-IsProgress now elapsed t [] s = ground arith
limit_all-IsProgress now elapsed t (p ∷ l) s = ground (
  arith,
  limit_all-IsProgress now elapsed t l s,
  limit_all-IsProgress now elapsed t l (take_share (allowance p.incoming_bandwidth elapsed) s),
  marked_not_open now (own_limit elapsed p) p,
)

limit_loop-ends :
    (now elapsed n : ℕ) (l : List Peer) (s : Share)
    → (s.needs_adjustment ≡ false) ⊎ (count (waits now) l < n)
    → limit_loop now elapsed n l s ≢ none
unfolding limit_loop
limit_loop-ends now elapsed zero l s h e = ground arith
limit_loop-ends now elapsed (suc n) l s h e =
    let s' : Share = record s { needs_adjustment = false } in
    let r = limit_all now elapsed (shared_throttle s) l s' in
    ground (
      arith,
      limit_all-IsProgress now elapsed (shared_throttle s) l s',
      limit_loop-ends now elapsed n r.0 r.1,
    )

throttle_peers-ends :
    (now elapsed : ℕ) (h : Host) (l : List Peer) → throttle_peers now elapsed h l ≢ none
unfolding throttle_peers
throttle_peers-ends now elapsed h l =
    go (limit_loop now elapsed (length l + 1) l (begin_share elapsed h l)) (
      limit_loop-ends now elapsed (length l + 1) l (begin_share elapsed h l)
        (inr (omega (arith, count-le-length (waits now) l))))
  where
    go : (o : Option (List Peer × Share)) → o ≢ none → end_throttle now o ≢ none
    go none h e = h refl
    go (some r) h e = ground arith

abbrev unmarked : ℕ → Peer → Bool
unmarked now p = not (p.incoming_bandwidth_throttle_epoch == now)

record IsDivided (now : ℕ) (l : List Peer) (b : Bool) (l' : List Peer) (b' : Bool) : Type 0 where
  fewer : count (unmarked now) l' ≤ count (unmarked now) l
  progress : (b' ≡ b) ⊎ (count (unmarked now) l' < count (unmarked now) l)

bound_all-IsDivided :
    (now limit : ℕ) (l : List Peer) (s : Division)
    → IsDivided now l s.needs_adjustment
        (bound_all now limit l s).0
        (bound_all now limit l s).1.needs_adjustment
unfolding bound_all take_division is_below
bound_all-IsDivided now limit [] s = ground arith
bound_all-IsDivided now limit (p ∷ l) s = ground (
  arith,
  bound_all-IsDivided now limit l s,
  bound_all-IsDivided now limit l (take_division p.outgoing_bandwidth s),
)

bound_loop-ends :
    (now n : ℕ) (l : List Peer) (s : Division)
    → (s.needs_adjustment ≡ false) ⊎ (count (unmarked now) l < n)
    → bound_loop now n l s ≢ none
unfolding bound_loop
bound_loop-ends now zero l s h e = ground arith
bound_loop-ends now (suc n) l s h e =
    let k = s.bandwidth / s.peers_remaining in
    let s' : Division = record s { limit = k; needs_adjustment = false } in
    let r = bound_all now k l s' in
    ground (arith, bound_all-IsDivided now k l s', bound_loop-ends now n r.0 r.1)

bound_peers-ends : (now : ℕ) (h : Host) (l : List Peer) → bound_peers now h l ≢ none
unfolding bound_peers
bound_peers-ends now h l e =
    let s : Division = record {
      peers_remaining = u32 h.connected_peers;
      bandwidth = h.incoming_bandwidth;
      limit = 0;
      needs_adjustment = true;
    } in
    ground (arith, bound_loop-ends now (length l + 1) l s, count-le-length (unmarked now) l)

announce_limits-ends :
    (now : ℕ) (h : Host) (o : Option (List Peer × Division))
    → o ≢ none
    → announce_limits now h o ≢ none
announce_limits-ends now h none k e = k refl
announce_limits-ends now h (some r) k e = ground arith

recalculate_limits-ends :
    (now : ℕ) (h : Host) (o : Option (List Peer)) → o ≢ none → recalculate_limits now h o ≢ none
recalculate_limits-ends now h none k e = k refl
recalculate_limits-ends now h (some l) k e =
    let h' : Host = record h { recalculate_bandwidth_limits = false } in
    ground (arith, announce_limits-ends now h' (bound_peers now h' l) (bound_peers-ends now h' l))

-- Sharing a host's bandwidth never runs out of rounds: each round of its two loops marks at least
-- one more of the peers, or is the last.
pub bandwidth_throttle-ends :
    (now : ℕ) (h : Host) (l : List Peer) → bandwidth_throttle now h l ≢ none
unfolding bandwidth_throttle
bandwidth_throttle-ends now h l e =
    let elapsed = sub32 now h.bandwidth_throttle_epoch in
    let h' : Host = record h { bandwidth_throttle_epoch = now } in
    ground (
      arith,
      recalculate_limits-ends now h' (throttle_peers now elapsed h' l)
          (throttle_peers-ends now elapsed h' l),
    )
