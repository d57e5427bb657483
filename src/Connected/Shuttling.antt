-- ===== src/Connected/Shuttling.antt =====
-- `Host::service` of src/connected.rs, which shuttles packets between the connections and the host
-- below. Times are in nanoseconds, like those of `Duration`, and do not overflow.
use rusty_enet.Base.{
  ℕ, zero, suc, ◌+◌, ◌*◌, ◌^◌, Bool, true, false, List, [], ◌∷◌, Option, none, some, ltb, ◌==◌,
  if◌then◌else◌, get_elem?,
}
use rusty_enet.Connected.{
  Address, PeerState, disconnected, awaiting_peer, has_peer, disconnecting, Reception, packet,
  no_packet, receive_error, Connection, disconnect_event, Inner, Host, peer_disconnect, peer_reset,
}
use rusty_enet.Connected.Adding.{set_state}
use rusty_enet.Connected.Telling.{Told, told, after_inner}

module _ {C A : Type 0} where
  abbrev pub with_connection : C → PeerState C A → PeerState C A
  with_connection c (disconnected p) = disconnected p
  with_connection c (awaiting_peer _ a since timeout s) = awaiting_peer c a since timeout s
  with_connection c (has_peer _ a p) = has_peer c a p
  with_connection c (disconnecting _ a p t) = disconnecting c a p t

  -- A connection that was closing for two seconds without sending is dropped.
  unfoldable pub expire : (now : ℕ) → PeerState C A → PeerState C A
  expire now (disconnecting c a p t) =
      if ltb (t + 2 * 10 ^ 9) now then disconnected p else disconnecting c a p t
  expire now s = s

  -- A peer that no one has connected to in time.
  unfoldable pub is_overdue : (now : ℕ) → PeerState C A → Bool
  is_overdue now (awaiting_peer c a since timeout s) = ltb (since + timeout) now
  is_overdue now s = false

-- One round of the first loop: it goes on, or ends with a peer that is gone.
pub data Round (S C A : Type 0) : Type 0 where
  stays leaves : PeerState C A → S → Round S C A

-- The first loop.
pub data Sweep (S C A : Type 0) : Type 0 where
  swept : List (PeerState C A) → S → Sweep S C A
  interrupted : (index : ℕ) → List (PeerState C A) → S → Sweep S C A

module _ {S C A : Type 0} where
  abbrev pub and_before : PeerState C A → Sweep S C A → Sweep S C A
  and_before s (swept l h) = swept (s ∷ l) h
  and_before s (interrupted i l h) = interrupted i (s ∷ l) h

module _ {S C A D : Type 0} (operations : Inner S A D) (connections : Connection C A) where
  abbrev pub after_receive : Address A → PeerState C A → S → C × Reception → Round S C A
  after_receive a s h (c, packet l) = stays (with_connection c s) (operations.write a l h)
  after_receive a s h (c, no_packet) = stays (with_connection c s) h
  after_receive a s h (c, receive_error) =
      let (t, g) = peer_reset operations (with_connection c s, h) in leaves t g

  -- What is received from a connection goes to the host below.
  abbrev pub receive_from : PeerState C A → S → Round S C A
  receive_from (disconnected p) h = stays (disconnected p) h
  receive_from (awaiting_peer c a since timeout s) h =
      after_receive a (awaiting_peer c a since timeout s) h (connections.receive c)
  receive_from (has_peer c a p) h = after_receive a (has_peer c a p) h (connections.receive c)
  receive_from (disconnecting c a p t) h =
      after_receive a (disconnecting c a p t) h (connections.receive c)

  unfoldable pub visit_peer : (now : ℕ) → PeerState C A → S → Round S C A
  unfolding expire is_overdue
  visit_peer now s h =
      if is_overdue now s then leaves (disconnected none) h else receive_from (expire now s) h

  unfoldable pub sweep : (now i : ℕ) → List (PeerState C A) → S → Sweep S C A
  sweep now i [] h = swept [] h
  sweep now i (s ∷ l) h = elim (visit_peer now s h) [
    | stays t g ↦ and_before t (sweep now (i + 1) l g)
    | leaves t g ↦ interrupted i (t ∷ l) g
  ]

  -- A packet of the host below goes to its connection. An error ends a connection that is not
  -- closing already.
  abbrev pub after_send : (now : ℕ) → PeerState C A → S → C × Bool → PeerState C A × S
  after_send now (disconnecting _ a p t) h (c, true) = (disconnecting c a p now, h)
  after_send now (disconnecting _ a p t) h (c, false) = (disconnecting c a p t, h)
  after_send now s h (c, true) = (with_connection c s, h)
  after_send now s h (c, false) = peer_disconnect operations 0 (with_connection c s, h)

  abbrev pub send_to :
      (now : ℕ) → Address A → List ℕ → PeerState C A → S → C → Address A → PeerState C A × S
  send_to now a l s h c b =
      if a.generation == b.generation then after_send now s h (connections.send l c) else (s, h)

  unfoldable pub deliver_to : (now : ℕ) → Address A → List ℕ → PeerState C A → S → PeerState C A × S
  deliver_to now a l (disconnected p) h = (disconnected p, h)
  deliver_to now a l (awaiting_peer c b since timeout s) h =
      send_to now a l (awaiting_peer c b since timeout s) h c b
  deliver_to now a l (has_peer c b p) h = send_to now a l (has_peer c b p) h c b
  deliver_to now a l (disconnecting c b p t) h = send_to now a l (disconnecting c b p t) h c b

  abbrev pub write_back : ℕ → Host S C A → PeerState C A × S → Host S C A
  write_back i h (s, g) = set_state i s (record h { inner = g })

  abbrev pub deliver_at :
      (now : ℕ) → Address A → List ℕ → Host S C A → Option (PeerState C A) → Host S C A
  deliver_at now a l h none = h
  deliver_at now a l h (some s) = write_back a.id h (deliver_to now a l s h.inner)

  unfoldable pub deliver : (now : ℕ) → Address A → List ℕ → Host S C A → Host S C A
  deliver now a l h = deliver_at now a l h (get_elem? h.peers a.id)

  -- The second loop, for so many packets.
  unfoldable pub deliver_all : (fuel now : ℕ) → Host S C A → Host S C A
  deliver_all zero now h = h
  deliver_all (suc n) now h = elim (operations.read h.inner) [
    | none ↦ h
    | some r ↦ deliver_all n now (deliver now r.0.0 r.0.1 (record h { inner = r.1 }))
  ]

  abbrev pub after_sweep : (fuel now : ℕ) → Host S C A → Sweep S C A → Told S C A D
  after_sweep n now h (interrupted i l g) =
      told (some (disconnect_event i 0)) (record h { inner = g; peers = l })
  after_sweep n now h (swept l g) =
      let k = deliver_all n now (record h { inner = g; peers = l }) in
      after_inner operations k (operations.service k.inner)

  -- `Host::service`.
  unfoldable pub service : (fuel : ℕ) → Host S C A → Told S C A D
  service n h =
      let now = operations.now h.inner in after_sweep n now h (sweep now 0 h.peers h.inner)
