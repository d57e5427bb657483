-- ===== src/Throttling.antt =====
-- How a host shares its bandwidth among its peers: `enet_host_bandwidth_throttle` of src/c/host.rs.
-- The peers are those of the array `peers`; their addresses play no part.
pub mod Rounds
pub mod Limits
pub mod Counts
use rusty_enet.Base.{
  ℕ, zero, suc, ◌+◌, ◌-◌, ◌*◌, ◌/◌, ◌^◌, Bool, true, false, ◌&&◌, ◌||◌, not, List, [], ◌∷◌, Option,
  none, some, ltb, leb, ◌==◌, if◌then◌else◌, add32, sub32, mul32, u32, length,
}
use rusty_enet.Protocol.{bandwidth_limit}
use rusty_enet.Peer.{is_connected, Peer, Host, Context}
use rusty_enet.Connection.Ending.{queue_control}

-- What is left to be shared.
pub record Share : Type 0 where
  pub peers_remaining : ℕ
  pub bandwidth : ℕ
  pub data_total : ℕ
  pub needs_adjustment : Bool

-- The throttle, of 32, that the bandwidth left allows.
unfoldable pub shared_throttle : Share → ℕ
shared_throttle s = if leb s.data_total s.bandwidth then 32 else mul32 s.bandwidth 32 / s.data_total

-- The bytes that a bandwidth allows in some milliseconds.
abbrev pub allowance : (bandwidth elapsed : ℕ) → ℕ
allowance bandwidth elapsed = mul32 bandwidth elapsed / 1000

unfoldable pub set_limit : (limit : ℕ) → Peer → Peer
set_limit limit p = record p {
  throttle = record p.throttle {
    packet_throttle_limit = limit;
    packet_throttle = (if ltb limit p.packet_throttle then limit else p.packet_throttle);
  };
  traffic = record p.traffic { incoming_data_total = 0; outgoing_data_total = 0 };
}

-- A connected peer with a limit, which this throttling has not limited yet.
abbrev pub is_open : (now : ℕ) → Peer → Bool
is_open now p =
    is_connected p.state
    && not (p.incoming_bandwidth == 0)
    && not (p.outgoing_bandwidth_throttle_epoch == now)

-- The peer would get more than its own bandwidth allows.
unfoldable pub is_over : (elapsed throttle : ℕ) → Peer → Bool
is_over elapsed t p =
    ltb (allowance p.incoming_bandwidth elapsed) (mul32 t p.outgoing_data_total / 32)

unfoldable pub own_limit : (elapsed : ℕ) → Peer → ℕ
own_limit elapsed p =
    let n = mul32 (allowance p.incoming_bandwidth elapsed) 32 / p.outgoing_data_total in
    if n == 0 then 1 else n

abbrev pub with_outgoing_epoch : ℕ → Peer → Peer
with_outgoing_epoch now p = record p {
  traffic = record p.traffic { outgoing_bandwidth_throttle_epoch = now };
}

-- A peer that is limited by its own bandwidth takes that out of the share.
unfoldable pub take_share : (taken : ℕ) → Share → Share
take_share n s = record {
  peers_remaining = sub32 s.peers_remaining 1;
  bandwidth = sub32 s.bandwidth n;
  data_total = sub32 s.data_total n;
  needs_adjustment = true;
}

-- One round of the first loop.
unfoldable pub limit_all : (now elapsed throttle : ℕ) → List Peer → Share → List Peer × Share
limit_all now elapsed t [] s = ([], s)
limit_all now elapsed t (p ∷ l) s =
    let over = is_open now p && is_over elapsed t p in
    let q = if over then with_outgoing_epoch now (set_limit (own_limit elapsed p) p) else p in
    let s' = if over then take_share (allowance p.incoming_bandwidth elapsed) s else s in
    let (l', s'') = limit_all now elapsed t l s' in (q ∷ l', s'')

abbrev pub goes_on : Share → Bool
goes_on s = ltb 0 s.peers_remaining && s.needs_adjustment

-- The first loop.
unfoldable pub limit_loop : (now elapsed fuel : ℕ) → List Peer → Share → Option (List Peer × Share)
limit_loop now elapsed zero l s = if goes_on s then none else some (l, s)
limit_loop now elapsed (suc n) l s =
    let r = limit_all now elapsed (shared_throttle s) l (record s { needs_adjustment = false }) in
    let rest = limit_loop now elapsed n r.0 r.1 in if goes_on s then rest else some (l, s)

-- The peers that their own bandwidth does not limit share what is left.
unfoldable pub limit_others : (now throttle : ℕ) → List Peer → List Peer
limit_others now t [] = []
limit_others now t (p ∷ l) =
    (if is_connected p.state && not (p.outgoing_bandwidth_throttle_epoch == now)
      then set_limit t p
      else p)
    ∷ limit_others now t l

unfoldable pub total_data : (sum : ℕ) → List Peer → ℕ
total_data n [] = n
total_data n (p ∷ l) =
    if is_connected p.state then total_data (add32 n p.outgoing_data_total) l else total_data n l

-- Where the host has no limit, both are the largest number.
unfoldable pub begin_share : (elapsed : ℕ) → Host → List Peer → Share
begin_share elapsed h l = record {
  peers_remaining = u32 h.connected_peers;
  bandwidth =
      (if h.outgoing_bandwidth == 0 then 2 ^ 32 - 1 else allowance h.outgoing_bandwidth elapsed);
  data_total = (if h.outgoing_bandwidth == 0 then 2 ^ 32 - 1 else total_data 0 l);
  needs_adjustment = ltb 0 h.bandwidth_limited_peers;
}

abbrev pub end_limits : (now : ℕ) → List Peer × Share → List Peer
end_limits now (l, s) =
    if ltb 0 s.peers_remaining then limit_others now (shared_throttle s) l else l

abbrev pub end_throttle : (now : ℕ) → Option (List Peer × Share) → Option (List Peer)
end_throttle now none = none
end_throttle now (some r) = some (end_limits now r)

-- The throttle limits of all peers.
unfoldable pub throttle_peers : (now elapsed : ℕ) → Host → List Peer → Option (List Peer)
throttle_peers now elapsed h l =
    end_throttle now (limit_loop now elapsed (length l + 1) l (begin_share elapsed h l))

-- The second loop: the incoming bandwidth of the host, among the peers that could send more.
pub record Division : Type 0 where
  pub peers_remaining : ℕ
  pub bandwidth : ℕ
  pub limit : ℕ
  pub needs_adjustment : Bool

-- A connected peer that does not use its part.
unfoldable pub is_below : (now limit : ℕ) → Peer → Bool
is_below now limit p =
    not (p.incoming_bandwidth_throttle_epoch == now)
    && is_connected p.state
    && not (ltb 0 p.outgoing_bandwidth && leb limit p.outgoing_bandwidth)

abbrev pub with_incoming_epoch : ℕ → Peer → Peer
with_incoming_epoch now p = record p {
  traffic = record p.traffic { incoming_bandwidth_throttle_epoch = now };
}

unfoldable pub take_division : (taken : ℕ) → Division → Division
take_division n s = record s {
  peers_remaining = sub32 s.peers_remaining 1;
  bandwidth = sub32 s.bandwidth n;
  needs_adjustment = true;
}

unfoldable pub bound_all : (now limit : ℕ) → List Peer → Division → List Peer × Division
bound_all now limit [] s = ([], s)
bound_all now limit (p ∷ l) s =
    let below = is_below now limit p in
    let q = if below then with_incoming_epoch now p else p in
    let s' = if below then take_division p.outgoing_bandwidth s else s in
    let (l', s'') = bound_all now limit l s' in (q ∷ l', s'')

abbrev pub divides_on : Division → Bool
divides_on s = ltb 0 s.peers_remaining && s.needs_adjustment

unfoldable pub bound_loop : (now fuel : ℕ) → List Peer → Division → Option (List Peer × Division)
bound_loop now zero l s = if divides_on s then none else some (l, s)
bound_loop now (suc n) l s =
    let limit = s.bandwidth / s.peers_remaining in
    let r = bound_all now limit l (record s { limit = limit; needs_adjustment = false }) in
    let rest = bound_loop now n r.0 r.1 in if divides_on s then rest else some (l, s)

unfoldable pub bound_peers : (now : ℕ) → Host → List Peer → Option (List Peer × Division)
bound_peers now h l =
    let s : Division = record {
      peers_remaining = u32 h.connected_peers;
      bandwidth = h.incoming_bandwidth;
      limit = 0;
      needs_adjustment = true;
    } in
    if h.incoming_bandwidth == 0 then some (l, s) else bound_loop now (length l + 1) l s

-- Every connected peer is told its limit.
unfoldable pub announce : (now limit : ℕ) → Host → List Peer → Host × List Peer
announce now limit h [] = (h, [])
announce now limit h (p ∷ l) =
    let incoming =
      if p.incoming_bandwidth_throttle_epoch == now then p.outgoing_bandwidth else limit in
    let c : Context = record { host = h; peer = p; event = none } in
    let d =
      if is_connected p.state
      then queue_control true false (bandwidth_limit incoming h.outgoing_bandwidth) c
      else c in
    let (h', l') = announce now limit d.host l in (h', d.peer ∷ l')

abbrev pub announce_limits :
    (now : ℕ) → Host → Option (List Peer × Division) → Option (Host × List Peer)
announce_limits now h none = none
announce_limits now h (some r) = some (announce now r.1.limit h r.0)

abbrev pub recalculate_limits : (now : ℕ) → Host → Option (List Peer) → Option (Host × List Peer)
recalculate_limits now h none = none
recalculate_limits now h (some l) =
    if h.recalculate_bandwidth_limits
    then (let h' : Host = record h { recalculate_bandwidth_limits = false } in
        announce_limits now h' (bound_peers now h' l))
    else some (h, l)

-- `enet_host_bandwidth_throttle`.
unfoldable pub bandwidth_throttle : (now : ℕ) → Host → List Peer → Option (Host × List Peer)
bandwidth_throttle now h l =
    let elapsed = sub32 now h.bandwidth_throttle_epoch in
    let h' : Host = record h { bandwidth_throttle_epoch = now } in
    if ltb elapsed 1000
    then some (h, l)
    else if u32 h.connected_peers == 0
    then some (h', l)
    else recalculate_limits now h' (throttle_peers now elapsed h' l)
