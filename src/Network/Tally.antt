-- ===== src/Network/Tally.antt =====
-- `connected_peers` and `bandwidth_limited_peers` of a host against the states of all its peers,
-- over everything that a host does.
use rusty_enet.Base.{
  ℕ, zero, suc, ◌+◌, ◌-◌, ◌≤◌, ◌<◌, ◌^◌, ◌≡◌, refl, List, [], ◌∷◌, Option, some, arith, length, set,
  get_elem?, length-set,
}
use rusty_enet.Peer.{Peer, Context, Event}
use rusty_enet.Connection.Counters.{IsCounted, connected_weight, limited_weight}
use rusty_enet.Network.{Slot, Network, peer_at, find_peer, set_peer, focus, restore, put_back}
use rusty_enet.Network.Free.{IsFree}

connected_weight-le : (p : Peer) → connected_weight p ≤ 1
connected_weight-le p = ground arith

limited_weight-le : (p : Peer) → limited_weight p ≤ 1
limited_weight-le p = ground arith

module _ {A : Type 0} where
  abbrev pub total : (Peer → ℕ) → List (Slot A) → ℕ
  total f [] = 0
  total f (s ∷ l) = f s.peer + total f l

  -- The counts are right, and the array is not too long for them.
  pub record IsTallied (n : Network A) : Type 0 where
    pub peers : length n.slots ≤ 4095
    pub connected : n.host.connected_peers ≡ total connected_weight n.slots
    pub limited : n.host.bandwidth_limited_peers ≡ total limited_weight n.slots

  total-set_peer :
      (f : Peer → ℕ) (l : List (Slot A)) (i : ℕ) (p q : Peer)
      → peer_at l i ≡ some p
      → total f (set_peer l i q) + f p ≡ total f l + f q
  total-set_peer f [] i p q e = ground arith
  total-set_peer f (s ∷ l) zero p q e = ground arith
  total-set_peer f (s ∷ l) (suc i) p q e = ground (arith, total-set_peer f l i p q e)

  total-set :
      (f : Peer → ℕ) (l : List (Slot A)) (i : ℕ) (p : Peer) (s : Slot A)
      → peer_at l i ≡ some p
      → total f (set l i s) + f p ≡ total f l + f s.peer
  total-set f [] i p s e = ground arith
  total-set f (x ∷ l) zero p s e = ground arith
  total-set f (x ∷ l) (suc i) p s e = ground (arith, total-set f l i p s e)

  length-set_peer : (l : List (Slot A)) (i : ℕ) (q : Peer) → length (set_peer l i q) ≡ length l
  length-set_peer [] i q = refl
  length-set_peer (s ∷ l) zero q = refl
  length-set_peer (s ∷ l) (suc i) q = ground (arith, length-set_peer l i q)

  -- The peers other than one, as the lemmas on one peer count them.
  abbrev pub others : (Peer → ℕ) → Network A → Peer → ℕ
  others f n p = total f n.slots - f p

  le-total :
      (f : Peer → ℕ) (l : List (Slot A)) (i : ℕ) (p : Peer) → peer_at l i ≡ some p → f p ≤ total f l
  le-total f [] i p e = ground arith
  le-total f (s ∷ l) zero p e = ground arith
  le-total f (s ∷ l) (suc i) p e = ground (arith, le-total f l i p e)

  total-le : (f : Peer → ℕ) (l : List (Slot A)) → ((p : Peer) → f p ≤ 1) → total f l ≤ length l
  total-le f [] h = ground arith
  total-le f (s ∷ l) h = ground (arith, total-le f l h, h s.peer)

  pub others_fit :
      (n : Network A) (p : Peer)
      → IsTallied n
      → (others connected_weight n p + 1 < 2 ^ 64) × (others limited_weight n p + 1 < 2 ^ 64)
  others_fit n p t = ground (
    arith,
    total-le connected_weight n.slots connected_weight-le,
    total-le limited_weight n.slots limited_weight-le,
  )

  pub focus-IsCounted :
      (n : Network A) (i : ℕ) (p : Peer) (e : Option Event)
      → IsTallied n
      → find_peer n i ≡ some p
      → IsCounted (others connected_weight n p) (others limited_weight n p) (focus n p e)
  focus-IsCounted n i p e t g =
      let a = le-total connected_weight n.slots i p g in
      let b = le-total limited_weight n.slots i p g in
      record { connected = omega (arith, t.connected, a); limited = omega (arith, t.limited, b) }

  pub restore-IsTallied :
      (n : Network A) (i : ℕ) (p : Peer) (c : Context)
      → IsTallied n
      → find_peer n i ≡ some p
      → IsCounted (others connected_weight n p) (others limited_weight n p) c
      → IsTallied (restore n i c)
  restore-IsTallied n i p c t g v = record {
    peers = omega (arith, t.peers, length-set_peer n.slots i c.peer);
    connected = omega (
      arith,
      v.connected,
      total-set_peer connected_weight n.slots i p c.peer g,
      le-total connected_weight n.slots i p g,
    );
    limited = omega (
      arith,
      v.limited,
      total-set_peer limited_weight n.slots i p c.peer g,
      le-total limited_weight n.slots i p g,
    );
  }

  -- A free peer that takes part in a connection that begins is counted neither before nor after.
  pub put_back-IsTallied :
      (n : Network A) (i : ℕ) (a : Option A) (c : Context)
      → IsTallied n
      → IsFree n.slots i
      → connected_weight c.peer ≡ 0
      → c.host.connected_peers ≡ n.host.connected_peers
      → c.host.bandwidth_limited_peers ≡ n.host.bandwidth_limited_peers
      → IsTallied (put_back n i a c)
  put_back-IsTallied n i a c t f w g h =
      let s : Slot A = record { peer = c.peer; address = a } in
      record {
        peers = omega (arith, t.peers, length-set n.slots i s);
        connected =
            ground
              (arith, total-set connected_weight n.slots i f.free s f.found, f.is_disconnected);
        limited =
            ground (arith, total-set limited_weight n.slots i f.free s f.found, f.is_disconnected);
      }

  total-set_same :
      (f : Peer → ℕ) (l : List (Slot A)) (i : ℕ) (s t : Slot A)
      → get_elem? l i ≡ some s
      → f t.peer ≡ f s.peer
      → total f (set l i t) ≡ total f l
  total-set_same f [] i s t e g = refl
  total-set_same f (x ∷ l) zero s t e g = ground arith
  total-set_same f (x ∷ l) (suc i) s t e g = ground (arith, total-set_same f l i s t)

  -- A slot that changes in what is not counted.
  pub slot-IsTallied :
      (n : Network A) (i : ℕ) (s t : Slot A)
      → IsTallied n
      → get_elem? n.slots i ≡ some s
      → connected_weight t.peer ≡ connected_weight s.peer
      → limited_weight t.peer ≡ limited_weight s.peer
      → IsTallied (record n { slots = set n.slots i t })
  slot-IsTallied n i s t v e g h = record {
    peers = omega (arith, v.peers, length-set n.slots i t);
    connected = omega (arith, v.connected, total-set_same connected_weight n.slots i s t e g);
    limited = omega (arith, v.limited, total-set_same limited_weight n.slots i s t e h);
  }
