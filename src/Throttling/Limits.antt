-- ===== src/Throttling/Limits.antt =====
-- The throttles that `enet_host_bandwidth_throttle` sets.
use rusty_enet.Base.{
  ℕ, zero, suc, ◌+◌, ◌/◌, ◌≤◌, ◌≡◌, ◌==◌, refl, Bool, true, false, List, [], ◌∷◌, Option, none,
  some, arith, length, mul32, u32, sub32, leb, if◌then◌else◌,
}
use native.Mathlib.Nat.{div-le_of_le-mul, mul-le-mul_right}
use rusty_enet.Protocol.{bandwidth_limit}
use rusty_enet.Peer.{Peer, Host, Context}
use rusty_enet.Connection.Ending.{queue_control}
use rusty_enet.Network.Terms.{queue_control-SameTerms}
use rusty_enet.Throttling.{
  Share, shared_throttle, set_limit, is_over, own_limit, take_share, limit_all, limit_loop,
  begin_share, end_throttle, limit_others, throttle_peers, Division, take_division, bound_all,
  bound_loop, bound_peers, announce, announce_limits, recalculate_limits, bandwidth_throttle,
  allowance,
}

-- The throttle is at most its limit, which is at most 32.
pub record IsThrottled (p : Peer) : Type 0 where
  pub throttle_le : p.packet_throttle ≤ p.packet_throttle_limit
  pub limit_le : p.packet_throttle_limit ≤ 32

abbrev pub AreThrottled : List Peer → Type 0
AreThrottled [] = Unit
AreThrottled (p ∷ l) = IsThrottled p × AreThrottled l

shared_throttle-le : (s : Share) → shared_throttle s ≤ 32
unfolding shared_throttle
shared_throttle-le s = go (leb s.data_total s.bandwidth) refl
  where
    go :
        (b : Bool)
        → leb s.data_total s.bandwidth ≡ b
        → (if b then 32 else mul32 s.bandwidth 32 / s.data_total) ≤ 32
    go true e = omega arith
    go false e = div-le_of_le-mul s.data_total (ground arith)

own_limit-le :
    (elapsed t : ℕ) (p : Peer) → t ≤ 32 → is_over elapsed t p ≡ true → own_limit elapsed p ≤ 32
unfolding own_limit is_over
own_limit-le elapsed t p h e =
    let k : mul32 (allowance p.incoming_bandwidth elapsed) 32 / p.outgoing_data_total ≤ 32 =
      div-le_of_le-mul p.outgoing_data_total
        (ground (arith, mul-le-mul_right p.outgoing_data_total h)) in
    ground arith

set_limit-IsThrottled : (n : ℕ) (p : Peer) → n ≤ 32 → IsThrottled (set_limit n p)
unfolding set_limit
set_limit-IsThrottled n p h = ground arith

limit_all-AreThrottled :
    (now elapsed t : ℕ) (l : List Peer) (s : Share)
    → t ≤ 32
    → AreThrottled l
    → AreThrottled (limit_all now elapsed t l s).0
unfolding limit_all
limit_all-AreThrottled now elapsed t [] s h v = v
limit_all-AreThrottled now elapsed t (p ∷ l) s h v = ground (
  arith,
  limit_all-AreThrottled now elapsed t l s,
  limit_all-AreThrottled now elapsed t l (take_share (allowance p.incoming_bandwidth elapsed) s),
  own_limit-le elapsed t p,
  set_limit-IsThrottled (own_limit elapsed p) p,
)

limit_loop-AreThrottled :
    (now elapsed n : ℕ) (l : List Peer) (s : Share) (r : List Peer × Share)
    → AreThrottled l
    → limit_loop now elapsed n l s ≡ some r
    → AreThrottled r.0
unfolding limit_loop
limit_loop-AreThrottled now elapsed zero l s r v e = ground arith
limit_loop-AreThrottled now elapsed (suc n) l s r v e =
    let s' : Share = record s { needs_adjustment = false } in
    let q = limit_all now elapsed (shared_throttle s) l s' in
    ground (
      arith,
      limit_all-AreThrottled now elapsed (shared_throttle s) l s',
      limit_loop-AreThrottled now elapsed n q.0 q.1 r,
      shared_throttle-le s,
    )

limit_others-AreThrottled :
    (now t : ℕ) (l : List Peer) → t ≤ 32 → AreThrottled l → AreThrottled (limit_others now t l)
unfolding limit_others
limit_others-AreThrottled now t [] h v = v
limit_others-AreThrottled now t (p ∷ l) h v =
    ground (arith, limit_others-AreThrottled now t l, set_limit-IsThrottled t p)

end_throttle-AreThrottled :
    (now : ℕ) (o : Option (List Peer × Share)) (l : List Peer)
    → ((r : List Peer × Share) → o ≡ some r → AreThrottled r.0)
    → end_throttle now o ≡ some l
    → AreThrottled l
end_throttle-AreThrottled now none l v e = ground arith
end_throttle-AreThrottled now (some r) l v e = ground (
  arith,
  v r refl,
  limit_others-AreThrottled now (shared_throttle r.1) r.0 (shared_throttle-le r.1),
)

throttle_peers-AreThrottled :
    (now elapsed : ℕ) (h : Host) (l m : List Peer)
    → AreThrottled l
    → throttle_peers now elapsed h l ≡ some m
    → AreThrottled m
unfolding throttle_peers
throttle_peers-AreThrottled now elapsed h l m v e =
    end_throttle-AreThrottled now
      (limit_loop now elapsed (length l + 1) l (begin_share elapsed h l)) m
      (λ r. limit_loop-AreThrottled now elapsed (length l + 1) l (begin_share elapsed h l) r v) e

bound_all-AreThrottled :
    (now limit : ℕ) (l : List Peer) (s : Division)
    → AreThrottled l
    → AreThrottled (bound_all now limit l s).0
unfolding bound_all
bound_all-AreThrottled now limit [] s v = v
bound_all-AreThrottled now limit (p ∷ l) s v = ground (
  arith,
  bound_all-AreThrottled now limit l s,
  bound_all-AreThrottled now limit l (take_division p.outgoing_bandwidth s),
)

bound_loop-AreThrottled :
    (now n : ℕ) (l : List Peer) (s : Division) (r : List Peer × Division)
    → AreThrottled l
    → bound_loop now n l s ≡ some r
    → AreThrottled r.0
unfolding bound_loop
bound_loop-AreThrottled now zero l s r v e = ground arith
bound_loop-AreThrottled now (suc n) l s r v e =
    let k = s.bandwidth / s.peers_remaining in
    let s' : Division = record s { limit = k; needs_adjustment = false } in
    let q = bound_all now k l s' in
    ground (arith, bound_all-AreThrottled now k l s', bound_loop-AreThrottled now n q.0 q.1 r)

bound_peers-AreThrottled :
    (now : ℕ) (h : Host) (l : List Peer) (r : List Peer × Division)
    → AreThrottled l
    → bound_peers now h l ≡ some r
    → AreThrottled r.0
unfolding bound_peers
bound_peers-AreThrottled now h l r v e =
    let s : Division = record {
      peers_remaining = u32 h.connected_peers;
      bandwidth = h.incoming_bandwidth;
      limit = 0;
      needs_adjustment = true;
    } in
    ground (arith, bound_loop-AreThrottled now (length l + 1) l s r v)

announce-AreThrottled :
    (now limit : ℕ) (h : Host) (l : List Peer)
    → AreThrottled l
    → AreThrottled (announce now limit h l).1
unfolding announce
announce-AreThrottled now limit h [] v = v
announce-AreThrottled now limit h (p ∷ l) v =
    let k = if p.incoming_bandwidth_throttle_epoch == now then p.outgoing_bandwidth else limit in
    let c : Context = record { host = h; peer = p; event = none } in
    let d = queue_control true false (bandwidth_limit k h.outgoing_bandwidth) c in
    ground (
      arith,
      queue_control-SameTerms (bandwidth_limit k h.outgoing_bandwidth) c,
      announce-AreThrottled now limit h l,
      announce-AreThrottled now limit d.host l,
    )

announce_limits-AreThrottled :
    (now : ℕ) (h g : Host) (o : Option (List Peer × Division)) (l : List Peer)
    → ((r : List Peer × Division) → o ≡ some r → AreThrottled r.0)
    → announce_limits now h o ≡ some (g, l)
    → AreThrottled l
announce_limits-AreThrottled now h g none l v e = ground arith
announce_limits-AreThrottled now h g (some r) l v e =
    ground (arith, announce-AreThrottled now r.1.limit h r.0 (v r refl))

recalculate_limits-AreThrottled :
    (now : ℕ) (h g : Host) (o : Option (List Peer)) (l : List Peer)
    → ((m : List Peer) → o ≡ some m → AreThrottled m)
    → recalculate_limits now h o ≡ some (g, l)
    → AreThrottled l
recalculate_limits-AreThrottled now h g none l v e = ground arith
recalculate_limits-AreThrottled now h g (some m) l v e =
    let h' : Host = record h { recalculate_bandwidth_limits = false } in
    ground (
      arith,
      v m refl,
      announce_limits-AreThrottled now h' g (bound_peers now h' m) l
          (λ r. bound_peers-AreThrottled now h' m r (v m refl)),
    )

-- Sharing a host's bandwidth leaves every peer a throttle that is at most its limit, and a limit
-- that is at most 32, where they were so before, whatever the amounts of data and the wraps of the
-- source's products.
pub bandwidth_throttle-AreThrottled :
    (now : ℕ) (h g : Host) (l m : List Peer)
    → AreThrottled l
    → bandwidth_throttle now h l ≡ some (g, m)
    → AreThrottled m
unfolding bandwidth_throttle
bandwidth_throttle-AreThrottled now h g l m v e =
    let elapsed = sub32 now h.bandwidth_throttle_epoch in
    let h' : Host = record h { bandwidth_throttle_epoch = now } in
    ground (
      arith,
      recalculate_limits-AreThrottled now h' g (throttle_peers now elapsed h' l) m
          (λ k. throttle_peers-AreThrottled now elapsed h' l k v),
    )
