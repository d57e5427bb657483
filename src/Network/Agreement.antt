-- ===== src/Network/Agreement.antt =====
-- What the two ends of a connection hold once the request and the answer have arrived.
use rusty_enet.Base.{ℕ, zero, suc, ◌≤◌, ◌≡◌, refl, List, [], ◌∷◌, Option, none, some, arith, set}
use rusty_enet.Protocol.{ConnectBody, connect, verify_connect}
use rusty_enet.Peer.{Peer, Context, accepted}
use rusty_enet.Handshake.{handle_verify_connect}
use rusty_enet.Network.Terms.{
  SameTerms, last_queued, start_request-last, start_answer-last, IsShared,
  handle_verify_connect-IsShared, start_request-IsAsking, start_answer-IsAnswering,
}
use rusty_enet.Network.{
  Addresses, Slot, Network, start_request, peer_at, request_found, next_seed, random,
  clamp_channels, find_free, find_peer, request_at, host_connect,
}
use rusty_enet.Network.Answering.{
  start_answer, answer_found, answer_at, Scan, repeated, panicked, scanned, scan, answered,
  handle_connect,
}

module _ {A : Type 0} where
  -- The peer that comes back from a request, as it was started.
  record IsRequest (n : Network A) (d : ℕ) (q : Peer) : Type 0 where
    count : ℕ
    connect_id : ℕ
    before : Peer
    started : q ≡ (start_request n.host count connect_id d before).peer

  pub record IsAnswer (n : Network A) (b : ConnectBody) (d i : ℕ) (q : Peer) : Type 0 where
    pub before : Peer
    pub found : find_peer n i ≡ some before
    pub started : q ≡ (start_answer n.host b d before).peer
    pub channels_minimum : 1 ≤ b.channel_count
    pub channels_maximum : b.channel_count ≤ 255

  peer_at-set :
      (l : List (Slot A)) (i : ℕ) (s : Slot A) (p : Peer)
      → peer_at l i ≡ some p
      → peer_at (set l i s) i ≡ some s.peer
  peer_at-set [] i s p e = ground arith
  peer_at-set (x ∷ l) zero s p e = refl
  peer_at-set (x ∷ l) (suc i) s p e = peer_at-set l i s p e

  request_at-IsRequest :
      (a : A) (count d : ℕ) (n m : Network A) (o : Option ℕ) (i : ℕ) (q : Peer)
      → request_at a count d n o ≡ some (i, m)
      → find_peer m i ≡ some q
      → IsRequest n d q
  request_at-IsRequest a count d n m none i q e f = ground arith
  request_at-IsRequest a count d n m (some j) i q e f = go (find_peer n j) refl e
    where
      go :
          (o : Option Peer)
          → find_peer n j ≡ o
          → request_found a count d n j o ≡ some (i, m)
          → IsRequest n d q
      go none g e = ground arith
      go (some p) g e =
          let seed = next_seed n.random_seed in
          let c = start_request n.host (clamp_channels count) (random seed) d p in
          record {
            count = clamp_channels count;
            connect_id = random seed;
            before = p;
            started =
                ground
                  (arith, peer_at-set n.slots j (record { peer = c.peer; address = some a }) p);
          }

  host_connect-IsRequest :
      (a : A) (count d : ℕ) (n m : Network A) (i : ℕ) (q : Peer)
      → host_connect a count d n ≡ some (i, m)
      → find_peer m i ≡ some q
      → IsRequest n d q
  unfolding host_connect
  host_connect-IsRequest a count d n m i q =
      request_at-IsRequest a count d n m (find_free 0 n.slots) i q

  answer_found-IsAnswer :
      (x : A) (b : ConnectBody) (d : ℕ) (n m : Network A) (j i : ℕ) (q : Peer) (o : Option Peer)
      → 1 ≤ b.channel_count
      → b.channel_count ≤ 255
      → find_peer n j ≡ o
      → answer_found x b d n j o ≡ answered i m
      → find_peer m i ≡ some q
      → IsAnswer n b d i q
  answer_found-IsAnswer x b d n m j i q none l u g e f = ground arith
  answer_found-IsAnswer x b d n m j i q (some p) l u g e f =
      let c = start_answer n.host b d p in
      record {
        before = p;
        found = ground arith;
        started =
            ground (arith, peer_at-set n.slots j (record { peer = c.peer; address = some x }) p);
        channels_minimum = l;
        channels_maximum = u;
      }

  answer_at-IsAnswer :
      (b : ConnectBody) (d : ℕ) (n m : Network A) (s : Scan) (i : ℕ) (q : Peer)
      → 1 ≤ b.channel_count
      → b.channel_count ≤ 255
      → answer_at b d n s ≡ answered i m
      → find_peer m i ≡ some q
      → IsAnswer n b d i q
  answer_at-IsAnswer b d n m repeated i q l u e f = ground arith
  answer_at-IsAnswer b d n m panicked i q l u e f = ground arith
  answer_at-IsAnswer b d n m (scanned none k) i q l u e f = ground arith
  answer_at-IsAnswer b d n m (scanned (some j) k) i q l u e f = go n.received_address refl
    where
      go : (x : Option A) → n.received_address ≡ x → IsAnswer n b d i q
      go none h = ground arith
      go (some x) h = ground (arith, answer_found-IsAnswer x b d n m j i q (find_peer n j) l u refl)

  pub handle_connect-IsAnswer :
      (addresses : Addresses A) (b : ConnectBody) (d : ℕ) (n m : Network A) (i : ℕ) (q : Peer)
      → handle_connect addresses b d n ≡ answered i m
      → find_peer m i ≡ some q
      → IsAnswer n b d i q
  unfolding handle_connect
  handle_connect-IsAnswer addresses b d n m i q e f = ground (
    arith,
    answer_at-IsAnswer b d n m (scan addresses n.received_address b.connect_id 0 none 0 n.slots) i
        q,
  )

  started-IsShared :
      (n s : Network A) (b v : ConnectBody) (e f j : ℕ) (p q : Peer) (c : Context)
      → 576 ≤ n.host.mtu
      → n.host.mtu ≤ 4096
      → 576 ≤ s.host.mtu
      → 1 ≤ s.host.channel_limit
      → IsRequest n e p
      → last_queued p ≡ some (connect b f)
      → IsAnswer s b f j q
      → last_queued q ≡ some (verify_connect v)
      → SameTerms c.peer p
      → (d : Context) × (handle_verify_connect v c ≡ accepted d) × IsShared d.peer q
  started-IsShared n s b v e f j p q c m m' l k r g w h t =
      handle_verify_connect-IsShared b v c q
        (ground (
          arith,
          start_request-IsAsking n.host r.count r.connect_id e r.before,
          start_request-last n.host r.count r.connect_id e r.before,
        ))
        (ground (
          arith,
          start_answer-IsAnswering s.host b f w.before,
          start_answer-last s.host b f w.before,
        ))

  -- A connection that is asked for is agreed on: where a host has queued a request for a peer,
  -- another host answers that request, and the answer that it has queued arrives at the first peer
  -- while that one's identifiers, throttle, mtu, window and count of channels are as they were,
  -- the answer is accepted, and both peers then have the same mtu, count of channels and
  -- connection number, and each names the other and its session as that one names itself. Both
  -- hosts have an mtu of at least 576, the first one of at most 4096, and the second allows at
  -- least one channel.
  pub host_connect-IsShared :
      (addresses : Addresses A) (a : A) (count e f i j : ℕ) (n n' s s' : Network A)
      (b v : ConnectBody) (p q : Peer) (c : Context)
      → 576 ≤ n.host.mtu
      → n.host.mtu ≤ 4096
      → 576 ≤ s.host.mtu
      → 1 ≤ s.host.channel_limit
      → host_connect a count e n ≡ some (i, n')
      → find_peer n' i ≡ some p
      → last_queued p ≡ some (connect b f)
      → handle_connect addresses b f s ≡ answered j s'
      → find_peer s' j ≡ some q
      → last_queued q ≡ some (verify_connect v)
      → SameTerms c.peer p
      → (d : Context) × (handle_verify_connect v c ≡ accepted d) × IsShared d.peer q
  host_connect-IsShared addresses a count e f i j n n' s s' b v p q c m m' l k g h r g' h' r' t =
      started-IsShared n s b v e f j p q c m m' l k (host_connect-IsRequest a count e n n' i p g h)
        r (handle_connect-IsAnswer addresses b f s s' j q g' h') r' t
