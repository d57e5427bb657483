-- ===== src/Connected/Adding.antt =====
-- `Host::new` and `Host::add_connection` of src/connected.rs.
use rusty_enet.Base.{ℕ, ◌+◌, List, [], ◌∷◌, Option, none, some, if◌then◌else◌, set, replicate}
use rusty_enet.Connected.{
  Address, no_settings, PeerState, disconnected, awaiting_peer, has_peer, Connection, Inner, Host,
  is_disconnected,
}

-- `ConnectionKind`.
pub data ConnectionKind (C : Type 0) : Type 0 where
  initiator : C → (channel_count connect_data : ℕ) → ConnectionKind C
  receiver : C → (timeout : ℕ) → ConnectionKind C

-- The result of `add_connection`, with the index of the peer, and the host as it is left.
pub data Addition (S C A : Type 0) : Type 0 where
  no_available_peers failed_to_initialize : Host S C A → Addition S C A
  added : (index : ℕ) → Host S C A → Addition S C A

module _ {C A : Type 0} where
  -- The index of the first peer that is disconnected, counted from `i`.
  unfoldable pub find_disconnected : (i : ℕ) → List (PeerState C A) → Option ℕ
  find_disconnected i [] = none
  find_disconnected i (s ∷ l) =
      let next = find_disconnected (i + 1) l in if is_disconnected s then some i else next

module _ {S C A : Type 0} where
  abbrev pub set_state : ℕ → PeerState C A → Host S C A → Host S C A
  set_state i s h = record h { peers = set h.peers i s }

  -- `Host::new`, over a new host below with as many peers.
  unfoldable pub new_connected : (inner : S) → (peer_limit : ℕ) → Host S C A
  new_connected inner n = record {
    inner = inner;
    peers = replicate n (disconnected none);
    next_generation = 0;
  }

  -- Taking a generation for a connection, whether or not it comes about.
  abbrev pub take_generation : Host S C A → Host S C A
  take_generation h = record h { next_generation = h.next_generation + 1 }

module _ {S C A D : Type 0} (operations : Inner S A D) (connections : Connection C A) where
  -- The host below asks for the connection.
  abbrev pub after_connect : ℕ → C → Address A → Host S C A → Option (ℕ × S) → Addition S C A
  after_connect i c a h none = no_available_peers h
  after_connect i c a h (some (p, s)) =
      added i (set_state i (has_peer c a p) (record h { inner = s }))

  abbrev pub initiate :
      ℕ → (channel_count connect_data : ℕ) → Host S C A → C × Option A → Addition S C A
  initiate i n d h (c, none) = failed_to_initialize (take_generation h)
  initiate i n d h (c, some x) =
      let a : Address A = record { address = x; id = i; generation = h.next_generation } in
      after_connect i c a (take_generation h) (operations.connect a n d h.inner)

  abbrev pub await : ℕ → (timeout : ℕ) → Host S C A → C × Option A → Addition S C A
  await i t h (c, none) = failed_to_initialize (take_generation h)
  await i t h (c, some x) =
      let a : Address A = record { address = x; id = i; generation = h.next_generation } in
      added i
        (set_state i (awaiting_peer c a (operations.now h.inner) t no_settings) (take_generation h))

  abbrev pub add_at : ConnectionKind C → Host S C A → Option ℕ → Addition S C A
  add_at k h none = no_available_peers h
  add_at (initiator c n d) h (some i) = initiate i n d h (connections.init c)
  add_at (receiver c t) h (some i) = await i t h (connections.init c)

  unfoldable pub add_connection : ConnectionKind C → Host S C A → Addition S C A
  unfolding find_disconnected
  add_connection k h = add_at k h (find_disconnected 0 h.peers)
