-- ===== src/Throttling/Counts.antt =====
-- Sharing the bandwidth changes neither a peer's state nor its bandwidth limit, nor the counts of the
-- host: `enet_host_bandwidth_throttle` of src/c/host.rs.
use rusty_enet.Base.{
  ℕ, zero, suc, ◌+◌, ◌/◌, ◌≡◌, refl, true, false, List, [], ◌∷◌, Option, none, some, arith, length,
  ltb, ◌==◌, if◌then◌else◌, sub32, u32,
}
use rusty_enet.Protocol.{bandwidth_limit}
use rusty_enet.Peer.{is_connected, Peer, Host, Context}
use rusty_enet.Connection.Ending.{queue_control, control}
use rusty_enet.Outgoing.Frame.{queue_outgoing_command-SameLink}
use rusty_enet.Throttling.{
  Share, shared_throttle, set_limit, limit_all, goes_on, limit_loop, limit_others, begin_share,
  end_throttle, throttle_peers, Division, bound_all, divides_on, bound_loop, bound_peers, announce,
  announce_limits, recalculate_limits, bandwidth_throttle,
}

-- Peer by peer, the two fields are the same.
pub data AreSame : List Peer → List Peer → Type 0 where
  none_left : AreSame [] []
  same :
      {p q : Peer} {l m : List Peer}
      → p.state ≡ q.state
      → p.incoming_bandwidth ≡ q.incoming_bandwidth
      → AreSame l m
      → AreSame (p ∷ l) (q ∷ m)

AreSame-self : (l : List Peer) → AreSame l l
AreSame-self [] = none_left
AreSame-self (p ∷ l) = same refl refl (AreSame-self l)

AreSame-trans : (k l m : List Peer) → AreSame k l → AreSame l m → AreSame k m
AreSame-trans [] [] m none_left s = s
AreSame-trans [] (q ∷ l) m x s = elim x [ ]
AreSame-trans (p ∷ k) [] m x s = elim x [ ]
AreSame-trans (p ∷ k) (q ∷ l) [] x s = elim s [ ]
AreSame-trans (p ∷ k) (q ∷ l) (r ∷ m) (same a b f) (same c d g) =
    same (ground arith) (ground arith) (AreSame-trans k l m f g)

limit_all-AreSame :
    (now elapsed t : ℕ) (l : List Peer) (s : Share) → AreSame (limit_all now elapsed t l s).0 l
unfolding limit_all set_limit
limit_all-AreSame now elapsed t [] s = none_left
limit_all-AreSame now elapsed t (p ∷ l) s =
    same (ground arith) (ground arith) (limit_all-AreSame now elapsed t l _)

abbrev LimitsSame : List Peer → Option (List Peer × Share) → Type 0
LimitsSame l none = Unit {0}
LimitsSame l (some r) = AreSame r.0 l

LimitsSame-trans :
    (l m : List Peer) (o : Option (List Peer × Share))
    → AreSame m l
    → LimitsSame m o
    → LimitsSame l o
LimitsSame-trans l m none e f = tt
LimitsSame-trans l m (some r) e f = AreSame-trans r.0 m l f e

limit_loop-LimitsSame :
    (now elapsed fuel : ℕ) (l : List Peer) (s : Share)
    → LimitsSame l (limit_loop now elapsed fuel l s)
unfolding limit_loop
limit_loop-LimitsSame now elapsed zero l s =
    elim (goes_on s) as (λ b. LimitsSame l (if b then none else some (l, s))) [
      | true ↦ tt
      | false ↦ AreSame-self l
    ]
limit_loop-LimitsSame now elapsed (suc n) l s =
    let r = limit_all now elapsed (shared_throttle s) l (record s { needs_adjustment = false }) in
    let o = limit_loop now elapsed n r.0 r.1 in
    elim (goes_on s) as (λ b. LimitsSame l (if b then o else some (l, s))) [
      | true ↦
          LimitsSame-trans l r.0 o (limit_all-AreSame now elapsed (shared_throttle s) l _)
            (limit_loop-LimitsSame now elapsed n r.0 r.1)
      | false ↦ AreSame-self l
    ]

limit_others-AreSame : (now t : ℕ) (l : List Peer) → AreSame (limit_others now t l) l
unfolding limit_others set_limit
limit_others-AreSame now t [] = none_left
limit_others-AreSame now t (p ∷ l) =
    same (ground arith) (ground arith) (limit_others-AreSame now t l)

abbrev PeersSame : List Peer → Option (List Peer) → Type 0
PeersSame l none = Unit {0}
PeersSame l (some m) = AreSame m l

end_throttle-PeersSame :
    (now : ℕ) (l : List Peer) (o : Option (List Peer × Share))
    → LimitsSame l o
    → PeersSame l (end_throttle now o)
end_throttle-PeersSame now l none e = tt
end_throttle-PeersSame now l (some (m, s)) e =
    elim (ltb 0 s.peers_remaining)
      as (λ b. AreSame (if b then limit_others now (shared_throttle s) m else m) l) [
        | true ↦
            AreSame-trans (limit_others now (shared_throttle s) m) m l
              (limit_others-AreSame now (shared_throttle s) m) e
        | false ↦ e
      ]

bound_all-AreSame :
    (now limit : ℕ) (l : List Peer) (s : Division) → AreSame (bound_all now limit l s).0 l
unfolding bound_all
bound_all-AreSame now limit [] s = none_left
bound_all-AreSame now limit (p ∷ l) s =
    same (ground arith) (ground arith) (bound_all-AreSame now limit l _)

abbrev BoundsSame : List Peer → Option (List Peer × Division) → Type 0
BoundsSame l none = Unit {0}
BoundsSame l (some r) = AreSame r.0 l

BoundsSame-trans :
    (l m : List Peer) (o : Option (List Peer × Division))
    → AreSame m l
    → BoundsSame m o
    → BoundsSame l o
BoundsSame-trans l m none e f = tt
BoundsSame-trans l m (some r) e f = AreSame-trans r.0 m l f e

bound_loop-BoundsSame :
    (now fuel : ℕ) (l : List Peer) (s : Division) → BoundsSame l (bound_loop now fuel l s)
unfolding bound_loop
bound_loop-BoundsSame now zero l s =
    elim (divides_on s) as (λ b. BoundsSame l (if b then none else some (l, s))) [
      | true ↦ tt
      | false ↦ AreSame-self l
    ]
bound_loop-BoundsSame now (suc n) l s =
    let limit = s.bandwidth / s.peers_remaining in
    let r = bound_all now limit l (record s { limit = limit; needs_adjustment = false }) in
    let o = bound_loop now n r.0 r.1 in
    elim (divides_on s) as (λ b. BoundsSame l (if b then o else some (l, s))) [
      | true ↦
          BoundsSame-trans l r.0 o (bound_all-AreSame now limit l _)
            (bound_loop-BoundsSame now n r.0 r.1)
      | false ↦ AreSame-self l
    ]

-- The host's counts too.
pub record KeepsCounts (h : Host) (l : List Peer) (r : Host × List Peer) : Type 0 where
  pub peers : AreSame r.1 l
  pub connected : r.0.connected_peers ≡ h.connected_peers
  pub limited : r.0.bandwidth_limited_peers ≡ h.bandwidth_limited_peers

abbrev pub Shares : Host → List Peer → Option (Host × List Peer) → Type 0
Shares h l none = Unit {0}
Shares h l (some r) = KeepsCounts h l r

announce-KeepsCounts :
    (now limit : ℕ) (h : Host) (l : List Peer) → KeepsCounts h l (announce now limit h l)
unfolding announce
announce-KeepsCounts now limit h [] = record { peers = none_left; connected = refl; limited = refl }
announce-KeepsCounts now limit h (p ∷ l) =
    let incoming =
      if p.incoming_bandwidth_throttle_epoch == now then p.outgoing_bandwidth else limit in
    let c : Context = record { host = h; peer = p; event = none } in
    let k = control true false (bandwidth_limit incoming h.outgoing_bandwidth) in
    let d =
      if is_connected p.state
      then queue_control true false (bandwidth_limit incoming h.outgoing_bandwidth) c
      else c in
    let f = queue_outgoing_command-SameLink c k none 0 0 in
    let r = announce-KeepsCounts now limit d.host l in
    record {
      peers = same (ground (arith, f)) (ground (arith, f)) r.peers;
      connected = ground (arith, f, r.connected);
      limited = ground (arith, f, r.limited);
    }

announce_limits-Shares :
    (now : ℕ) (h : Host) (l : List Peer) (o : Option (List Peer × Division))
    → BoundsSame l o
    → Shares h l (announce_limits now h o)
announce_limits-Shares now h l none e = tt
announce_limits-Shares now h l (some (m, s)) e =
    let k = announce-KeepsCounts now s.limit h m in
    record {
      peers = AreSame-trans (announce now s.limit h m).1 m l k.peers e;
      connected = k.connected;
      limited = k.limited;
    }

bound_peers-BoundsSame : (now : ℕ) (h : Host) (l : List Peer) → BoundsSame l (bound_peers now h l)
unfolding bound_peers
bound_peers-BoundsSame now h l =
    let s : Division = record {
      peers_remaining = u32 h.connected_peers;
      bandwidth = h.incoming_bandwidth;
      limit = 0;
      needs_adjustment = true;
    } in
    elim (h.incoming_bandwidth == 0)
      as (λ b. BoundsSame l (if b then some (l, s) else bound_loop now (length l + 1) l s)) [
        | true ↦ AreSame-self l
        | false ↦ bound_loop-BoundsSame now (length l + 1) l s
      ]

recalculate_limits-Shares :
    (now : ℕ) (h : Host) (l : List Peer) (o : Option (List Peer))
    → PeersSame l o
    → Shares h l (recalculate_limits now h o)
recalculate_limits-Shares now h l none e = tt
recalculate_limits-Shares now h l (some m) e =
    let g : Host = record h { recalculate_bandwidth_limits = false } in
    elim (h.recalculate_bandwidth_limits)
      as (λ b.
        Shares h l (if b then announce_limits now g (bound_peers now g m) else some (h, m))) [
          | true ↦ go (announce_limits now g (bound_peers now g m)) (
              announce_limits-Shares now g m (bound_peers now g m) (bound_peers-BoundsSame now g m))
          | false ↦ record { peers = e; connected = refl; limited = refl }
        ]
  where
    go :
        (o : Option (Host × List Peer))
        → Shares (record h { recalculate_bandwidth_limits = false }) m o
        → Shares h l o
    go none k = tt
    go (some (g, n)) k = record {
      peers = AreSame-trans n m l k.peers e;
      connected = k.connected;
      limited = k.limited;
    }

throttle_peers-PeersSame :
    (now elapsed : ℕ) (h : Host) (l : List Peer) → PeersSame l (throttle_peers now elapsed h l)
unfolding throttle_peers
throttle_peers-PeersSame now elapsed h l =
    end_throttle-PeersSame now l _
      (limit_loop-LimitsSame now elapsed (length l + 1) l (begin_share elapsed h l))

-- Sharing the bandwidth leaves each peer's state and bandwidth limit, and the host's two counts.
pub bandwidth_throttle-Shares :
    (now : ℕ) (h : Host) (l : List Peer) → Shares h l (bandwidth_throttle now h l)
unfolding bandwidth_throttle
bandwidth_throttle-Shares now h l =
    let elapsed = sub32 now h.bandwidth_throttle_epoch in
    let g : Host = record h { bandwidth_throttle_epoch = now } in
    let o = recalculate_limits now g (throttle_peers now elapsed g l) in
    let r : Shares g l o =
      recalculate_limits-Shares now g l (throttle_peers now elapsed g l)
        (throttle_peers-PeersSame now elapsed g l) in
    elim (ltb elapsed 1000)
      as (λ b.
        Shares h l
          (if b then some (h, l) else if u32 h.connected_peers == 0 then some (g, l) else o)) [
            | true ↦ record { peers = AreSame-self l; connected = refl; limited = refl }
            | false ↦
                elim (u32 h.connected_peers == 0)
                  as (λ b. Shares h l (if b then some (g, l) else o)) [
                    | true ↦ record { peers = AreSame-self l; connected = refl; limited = refl }
                    | false ↦ go o r
                  ]
          ]
  where
    go :
        (o : Option (Host × List Peer))
        → Shares (record h { bandwidth_throttle_epoch = now }) l o
        → Shares h l o
    go none k = tt
    go (some r) k = record { peers = k.peers; connected = k.connected; limited = k.limited }
