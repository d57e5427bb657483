-- ===== src/Connected.antt =====
-- Hosts on connections instead of sockets: the peers of src/connected.rs, the states in which they
-- are, and what the application does with one of them.
pub mod Adding
pub mod Telling
pub mod Shuttling
pub mod Generations
pub mod Keeping
pub mod Forwarding
pub mod Renewing
pub mod Living
pub mod Handling
pub mod Lasting
use rusty_enet.Base.{
  ℕ, zero, suc, ◌+◌, Bool, true, false, ◌&&◌, ◌||◌, List, [], ◌∷◌, Option, none, some, ltb, ◌==◌,
  if◌then◌else◌, get_elem?, set, replicate,
}

-- An address with the connection that it is of. `id` is the index of a peer; a generation is never
-- used twice.
pub record Address (A : Type 0) : Type 0 where
  pub address : A
  pub id : ℕ
  pub generation : ℕ

-- What a peer is told before the host has a peer for it.
pub record PeerSettings : Type 0 where
  pub timeout : Option (ℕ × ℕ × ℕ)
  pub ping_interval : Option ℕ
  pub throttle : Option (ℕ × ℕ × ℕ)
  pub mtu : Option ℕ

abbrev pub no_settings : PeerSettings
no_settings = record { timeout = none; ping_interval = none; throttle = none; mtu = none }

-- The pointer to a peer of the host below is its index. `C` is the type of connections.
pub data PeerState (C A : Type 0) : Type 0 where
  disconnected : (last_peer : Option ℕ) → PeerState C A
  awaiting_peer : C → Address A → (since timeout : ℕ) → PeerSettings → PeerState C A
  has_peer : C → Address A → (peer : ℕ) → PeerState C A
  disconnecting : C → Address A → (last_peer : Option ℕ) → (last_send : ℕ) → PeerState C A

-- What a connection answers. A partial packet counts as none.
pub data Reception : Type 0 where
  packet : List ℕ → Reception
  no_packet receive_error : Reception

-- The trait `Connection`, whose types come from outside: each operation with the connection as it is
-- afterwards. `send` tells whether there was no error, `init` the address if there was none.
pub record Connection (C A : Type 0) : Type 0 where
  pub init : C → C × Option A
  pub send : List ℕ → C → C × Bool
  pub receive : C → C × Reception

-- `EventNoRef` of the host below, with the index of its peer.
pub data InnerEvent (D : Type 0) : Type 0 where
  connects disconnects : (peer event_data : ℕ) → InnerEvent D
  receives : (peer channel_id : ℕ) → D → InnerEvent D

-- `Event`, with the index of the peer here.
pub data Event (D : Type 0) : Type 0 where
  connect_event disconnect_event : (peer event_data : ℕ) → Event D
  receive_event : (peer channel_id : ℕ) → D → Event D

-- The operations of the host below, `Host` of src/host.rs with a `ReadWrite` for its socket, in the
-- state `S`, and with packets `D`. `read` and `write` are those of the `ReadWrite`. An error of
-- `service` counts as no event.
pub record Inner (S A D : Type 0) : Type 0 where
  pub now : S → ℕ
  pub connect : Address A → (channel_count connect_data : ℕ) → S → Option (ℕ × S)
  pub peer_address : S → ℕ → Option (Address A)
  pub disconnect : (peer disconnect_data : ℕ) → S → S
  pub disconnect_now : (peer disconnect_data : ℕ) → S → S
  pub disconnect_later : (peer disconnect_data : ℕ) → S → S
  pub reset : (peer : ℕ) → S → S
  pub set_timeout : (peer limit minimum maximum : ℕ) → S → S
  pub set_ping_interval : (peer ping_interval : ℕ) → S → S
  pub set_throttle : (peer interval acceleration deceleration : ℕ) → S → S
  pub set_mtu : (peer mtu : ℕ) → S → S
  pub write : Address A → List ℕ → S → S
  pub read : S → Option ((Address A × List ℕ) × S)
  pub service : S → Option (InnerEvent D) × S
  pub check_events : S → Option (InnerEvent D) × S

pub record Host (S C A : Type 0) : Type 0 where
  pub inner : S
  pub peers : List (PeerState C A)
  pub next_generation : ℕ

-- `Address::same`, `same_host` and `is_broadcast`, over those of the address inside.
module _ {A : Type 0} where
  unfoldable pub same : (A → A → Bool) → Address A → Address A → Bool
  same f a b = a.id == b.id && a.generation == b.generation && f a.address b.address

  unfoldable pub same_host : (A → A → Bool) → Address A → Address A → Bool
  same_host f a b = a.id == b.id && a.generation == b.generation && f a.address b.address

module _ {C A : Type 0} where
  -- `Peer::peer`.
  abbrev pub inner_peer : PeerState C A → Option ℕ
  inner_peer (has_peer c a p) = some p
  inner_peer _ = none

  -- `Peer::peer_or_last_peer`.
  abbrev pub inner_or_last_peer : PeerState C A → Option ℕ
  inner_or_last_peer (disconnected p) = p
  inner_or_last_peer (awaiting_peer c a since timeout s) = none
  inner_or_last_peer (has_peer c a p) = some p
  inner_or_last_peer (disconnecting c a p t) = p

  -- `Peer::connection`.
  abbrev pub connection : PeerState C A → Option C
  connection (disconnected p) = none
  connection (awaiting_peer c a since timeout s) = some c
  connection (has_peer c a p) = some c
  connection (disconnecting c a p t) = some c

  abbrev pub state_address : PeerState C A → Option (Address A)
  state_address (disconnected p) = none
  state_address (awaiting_peer c a since timeout s) = some a
  state_address (has_peer c a p) = some a
  state_address (disconnecting c a p t) = some a

  abbrev pub is_disconnected : PeerState C A → Bool
  is_disconnected (disconnected p) = true
  is_disconnected _ = false

  -- `Peer::settings`, changed.
  abbrev pub update_settings : (PeerSettings → PeerSettings) → PeerState C A → PeerState C A
  update_settings f (awaiting_peer c a since timeout s) = awaiting_peer c a since timeout (f s)
  update_settings f s = s

-- One peer, of the index `i`, and the host below.
module _ {S C A D : Type 0} (operations : Inner S A D) where
  -- `Peer::disconnect`.
  unfoldable pub peer_disconnect : (disconnect_data : ℕ) → PeerState C A × S → PeerState C A × S
  peer_disconnect d (s, h) = elim (inner_peer s) [
    | some p ↦ (s, operations.disconnect p d h)
    | none ↦ (disconnected none, h)
  ]

  -- `Peer::disconnect_now`.
  unfoldable pub peer_disconnect_now : (disconnect_data : ℕ) → PeerState C A × S → PeerState C A × S
  peer_disconnect_now d (s, h) = elim (inner_peer s) [
    | some p ↦ (s, operations.disconnect_now p d h)
    | none ↦ (disconnected none, h)
  ]

  -- `Peer::disconnect_later`.
  unfoldable pub peer_disconnect_later :
      (disconnect_data : ℕ) → PeerState C A × S → PeerState C A × S
  peer_disconnect_later d (s, h) = elim (inner_peer s) [
    | some p ↦ (s, operations.disconnect_later p d h)
    | none ↦ (disconnected none, h)
  ]

  -- `Peer::reset`.
  unfoldable pub peer_reset : PeerState C A × S → PeerState C A × S
  peer_reset (s, h) = elim (inner_peer s) [
    | some p ↦ (disconnected none, operations.reset p h)
    | none ↦ (disconnected none, h)
  ]

  -- `Peer::set_timeout`, `set_ping_interval`, `set_throttle` and `set_mtu`: by the host below, or
  -- kept until there is a peer of it.
  unfoldable pub set_timeout : (limit minimum maximum : ℕ) → PeerState C A × S → PeerState C A × S
  set_timeout l m n (s, h) = elim (inner_peer s) [
    | some p ↦ (s, operations.set_timeout p l m n h)
    | none ↦ (update_settings (λ x. record x { timeout = some (l, m, n) }) s, h)
  ]

  unfoldable pub set_ping_interval : (ping_interval : ℕ) → PeerState C A × S → PeerState C A × S
  set_ping_interval n (s, h) = elim (inner_peer s) [
    | some p ↦ (s, operations.set_ping_interval p n h)
    | none ↦ (update_settings (λ x. record x { ping_interval = some n }) s, h)
  ]

  unfoldable pub set_throttle :
      (interval acceleration deceleration : ℕ) → PeerState C A × S → PeerState C A × S
  set_throttle i a d (s, h) = elim (inner_peer s) [
    | some p ↦ (s, operations.set_throttle p i a d h)
    | none ↦ (update_settings (λ x. record x { throttle = some (i, a, d) }) s, h)
  ]

  -- None where the mtu is not within its bounds.
  unfoldable pub set_mtu : (mtu : ℕ) → PeerState C A × S → Option (PeerState C A × S)
  set_mtu n (s, h) =
      if ltb 4096 n || ltb n 576
      then none
      else some (elim (inner_peer s) [
        | some p ↦ (s, operations.set_mtu p n h)
        | none ↦ (update_settings (λ x. record x { mtu = some n }) s, h)
      ])

module _ {S A D : Type 0} (operations : Inner S A D) where
  abbrev pub apply_timeout : Option (ℕ × ℕ × ℕ) → ℕ → S → S
  apply_timeout none p h = h
  apply_timeout (some (l, m, n)) p h = operations.set_timeout p l m n h

  abbrev pub apply_ping_interval : Option ℕ → ℕ → S → S
  apply_ping_interval none p h = h
  apply_ping_interval (some n) p h = operations.set_ping_interval p n h

  abbrev pub apply_throttle : Option (ℕ × ℕ × ℕ) → ℕ → S → S
  apply_throttle none p h = h
  apply_throttle (some (i, a, d)) p h = operations.set_throttle p i a d h

  abbrev pub apply_mtu : Option ℕ → ℕ → S → S
  apply_mtu none p h = h
  apply_mtu (some n) p h = operations.set_mtu p n h

  -- `PeerSettings::apply`.
  unfoldable pub apply_settings : PeerSettings → (peer : ℕ) → S → S
  apply_settings s p h = apply_mtu s.mtu p (
      apply_throttle s.throttle p
        (apply_ping_interval s.ping_interval p (apply_timeout s.timeout p h)))
