-- ===== src/Network/Reaching.antt =====
-- Every state that a new host reaches.
use rusty_enet.Base.{
  ℕ, Bool, true, false, zero, suc, ◌+◌, ◌≤◌, ◌≡◌, refl, ap, Option, none, some, arith, length,
}
use rusty_enet.Peer.{disconnected, Peer, Host}
use rusty_enet.Connection.{reset, reset_fields, reset_queues}
use rusty_enet.Connection.Counters.{connected_weight, limited_weight}
use rusty_enet.Limits.{set_channel_limit}
use rusty_enet.Network.{Addresses, Network}
use rusty_enet.Network.Creating.{
  HostSettings, Creation, created, not_created, set_checksum, number_peer_slot, new_host,
  limit_or_zero, make_slots, host_create, host_new,
}
use rusty_enet.Network.Tally.{IsTallied, total}
use rusty_enet.Network.Steps.{Steps, Steps-IsTallied}

new_peer_disconnected :
    (h : Host) (i : ℕ)
    → (reset (record { host = h; peer = number_peer_slot i; event = none })).peer.state
      ≡ disconnected
unfolding reset reset_fields reset_queues
new_peer_disconnected h i = refl

module _ (A : Type 0) where
  make_slots-length : (h : Host) (i n : ℕ) → length (make_slots {A = A} h i n) ≡ n
  unfolding make_slots
  make_slots-length h i zero = refl
  make_slots-length h i (suc n) = ap suc (make_slots-length h (i + 1) n)

  make_slots-total :
      (f : Peer → ℕ) (h : Host) (i n : ℕ)
      → ((p : Peer) → p.state ≡ disconnected → f p ≡ 0)
      → total f (make_slots {A = A} h i n) ≡ 0
  unfolding make_slots
  make_slots-total f h i zero z = refl
  make_slots-total f h i (suc n) z = omega (
    arith,
    z (reset (record { host = h; peer = number_peer_slot i; event = none })).peer
        (new_peer_disconnected h i),
    make_slots-total f h (i + 1) n z,
  )

connected_weight_disconnected : (p : Peer) → p.state ≡ disconnected → connected_weight p ≡ 0
connected_weight_disconnected p e = ground arith

limited_weight_disconnected : (p : Peer) → p.state ≡ disconnected → limited_weight p ≡ 0
limited_weight_disconnected p e = ground arith

module _ {A E : Type 0} where
  host_create-IsTallied :
      (socket : Option E) (address time : ℕ) (s : HostSettings) (n : Network A)
      → s.peer_limit ≤ 4095
      → host_create socket address time s ≡ created n
      → IsTallied n
  unfolding host_create new_host set_channel_limit
  host_create-IsTallied (some x) address time s n h e = ground arith
  host_create-IsTallied none address time s n h e =
      let g =
        new_host s.using_new_packet s.channel_limit (limit_or_zero s.incoming_bandwidth_limit)
          (limit_or_zero s.outgoing_bandwidth_limit) in
      ground (
        arith,
        make_slots-length A g 0 s.peer_limit,
        make_slots-total A connected_weight g 0 s.peer_limit connected_weight_disconnected,
        make_slots-total A limited_weight g 0 s.peer_limit limited_weight_disconnected,
      )

  set_checksum-IsTallied :
      (b : Bool) (r : Creation A E) (n : Network A)
      → ((m : Network A) → r ≡ created m → IsTallied m)
      → set_checksum b r ≡ created n
      → IsTallied n
  set_checksum-IsTallied b (not_created x) n f e = ground arith
  set_checksum-IsTallied true (created m) n f e = ground (arith, f m refl)
  set_checksum-IsTallied false (created m) n f e = f n e

  checked-IsTallied :
      (socket : Option E) (address time : ℕ) (s : HostSettings) (n : Network A)
      → s.peer_limit ≤ 4095
      → set_checksum s.checksum (host_create socket address time s) ≡ created n
      → IsTallied n
  checked-IsTallied socket address time s n h =
      set_checksum-IsTallied s.checksum (host_create socket address time s) n
        (λ m. host_create-IsTallied socket address time s m h)

  -- Every host that `Host::new` makes counts its connected and its bandwidth limited peers
  -- rightly, and has at most 4095 peers, in every state that it reaches, whatever settings,
  -- addresses and sequence of steps.
  pub host_new-IsTallied :
      (addresses : Addresses A) (socket : Option E) (address time : ℕ) (s : HostSettings)
      (n m : Network A)
      → host_new socket address time s ≡ created n
      → Steps addresses n m
      → IsTallied m
  unfolding host_new
  host_new-IsTallied addresses socket address time s n m e r =
      Steps-IsTallied addresses n m r (ground (arith, checked-IsTallied socket address time s n))
