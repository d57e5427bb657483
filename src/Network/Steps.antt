-- ===== src/Network/Steps.antt =====
-- What happens to a host and its peers, step by step, and its counts.
use rusty_enet.Base.{
  ℕ, ◌+◌, ◌<◌, ◌^◌, ◌≡◌, refl, true, false, List, Option, none, some, arith, get_elem?,
}
use rusty_enet.Protocol.{Command, ConnectBody, connect, verify_connect}
use rusty_enet.Peer.{Peer, Host, Context, Event, context}
use rusty_enet.Connection.Counters.{IsQuiet, quiet-IsCounted, IsCounted, connected_weight}
use rusty_enet.Connection.Ending.{control}
use rusty_enet.Connection.History.{Happening, run, run-IsCounted}
use rusty_enet.Outgoing.Frame.{queue_outgoing_command-SameLink}
use rusty_enet.Timeout.{check_timeouts}
use rusty_enet.Timeout.GivingUp.{check_timeouts-IsCounted}
use rusty_enet.Network.{
  Addresses, Slot, Network, next_seed, random, clamp_channels, find_free, find_peer, focus, restore,
  prepare_request, start_request, request, request_found, request_at, host_connect,
}
use rusty_enet.Network.Answering.{
  take_request, answer_body, start_answer, answer_found, answer_at, Scan, repeated, panicked,
  scanned, scan, answered, handle_connect,
}
use rusty_enet.Network.Dispatching.{check_events, check_events-IsTallied}
use rusty_enet.Network.Free.{IsFree, first_unused, find_free-FreeFrom, scan-FreeFrom}
use rusty_enet.Inbound.{heard_from, hear_at, hear}
use rusty_enet.Inbound.Commands.{Allocator, handle_from_peer}
use rusty_enet.Inbound.Counted.{handle_body-IsCounted}
use rusty_enet.Network.Tally.{
  IsTallied, slot-IsTallied, others_fit, focus-IsCounted, restore-IsTallied, put_back-IsTallied,
}

-- What a host does with one of its peers.
pub data Service : Type 0 where
  happenings : List Happening → Service
  command_arrives : (flush : Context → Context) → Allocator → Command → (rest : List ℕ) → Service
  timeouts_are_checked : Service

unfoldable pub serve : Service → Context → Context
serve (happenings l) c = run l c
serve (command_arrives flush a k rest) c = context (handle_from_peer flush a k rest c)
serve timeouts_are_checked c = (check_timeouts c).1

serve-IsCounted :
    (n m : ℕ)
    → n + 1 < 2 ^ 64
    → m + 1 < 2 ^ 64
    → (s : Service) (c : Context) → IsCounted n m c
    → IsCounted n m (serve s c)
unfolding serve
serve-IsCounted n m h k (happenings l) c v = run-IsCounted n m h k l c v
serve-IsCounted n m h k (command_arrives flush a j rest) c v =
    handle_body-IsCounted n m h k flush a j rest c v j.body
serve-IsCounted n m h k timeouts_are_checked c v = check_timeouts-IsCounted n m h k c v

module _ {A : Type 0} (addresses : Addresses A) where
  -- One step of a host: a request that it sends, one that it answers, a service to a peer, any work
  -- for a peer that keeps its state, the events that are taken, the address of the next datagram,
  -- and its bytes.
  pub data Step : Network A → Network A → Type 0 where
    requests :
        (a : A) (count d i : ℕ) {n m : Network A}
        → host_connect a count d n ≡ some (i, m)
        → Step n m
    answers :
        (b : ConnectBody) (d i : ℕ) {n m : Network A}
        → handle_connect addresses b d n ≡ answered i m
        → Step n m
    serves :
        (s : Service) (i : ℕ) (p : Peer) (e : Option Event) {n : Network A}
        → find_peer n i ≡ some p
        → Step n (restore n i (serve s (focus n p e)))
    works :
        (i : ℕ) (p : Peer) (e : Option Event) (d : Context) {n : Network A}
        → find_peer n i ≡ some p
        → IsQuiet (focus n p e) d
        → Step n (restore n i d)
    dispatches : (e : Event) {n : Network A} → Step n (check_events e n).1
    counts_bytes : (i length : ℕ) {n : Network A} → Step n (hear i length n)
    hears : (x : Option A) {n : Network A} → Step n (record n { received_address = x })

  pub data Steps : Network A → Network A → Type 0 where
    done : {n : Network A} → Steps n n
    step : {n m k : Network A} → Step n m → Steps m k → Steps n k

start_request-uncounted :
    (h : Host) (n k d : ℕ) (p : Peer)
    → (connected_weight (start_request h n k d p).peer ≡ 0)
      × ((start_request h n k d p).host.connected_peers ≡ h.connected_peers)
      × ((start_request h n k d p).host.bandwidth_limited_peers ≡ h.bandwidth_limited_peers)
unfolding start_request prepare_request
start_request-uncounted h n k d p =
    let q = prepare_request h n k p in
    ground (
      arith,
      queue_outgoing_command-SameLink (record { host = h; peer = q; event = none })
          (control true false (connect (request h q) d)) none 0 0,
    )

start_answer-uncounted :
    (h : Host) (b : ConnectBody) (d : ℕ) (p : Peer)
    → (connected_weight (start_answer h b d p).peer ≡ 0)
      × ((start_answer h b d p).host.connected_peers ≡ h.connected_peers)
      × ((start_answer h b d p).host.bandwidth_limited_peers ≡ h.bandwidth_limited_peers)
unfolding start_answer take_request
start_answer-uncounted h b d p =
    let q = take_request h b d p in
    ground (
      arith,
      queue_outgoing_command-SameLink (record { host = h; peer = q; event = none })
          (control true false (verify_connect (answer_body h b.window_size q))) none 0 0,
    )

module _ {A : Type 0} (addresses : Addresses A) where
  request_found-IsTallied :
      (a : A) (count d i j : ℕ) (n m : Network A) (o : Option Peer)
      → IsTallied n
      → IsFree n.slots i
      → request_found a count d n i o ≡ some (j, m)
      → IsTallied m
  request_found-IsTallied a count d i j n m none t f e = ground arith
  request_found-IsTallied a count d i j n m (some p) t f e =
      let seed = next_seed n.random_seed in
      let c = start_request n.host (clamp_channels count) (random seed) d p in
      let (w, g, h) = start_request-uncounted n.host (clamp_channels count) (random seed) d p in
      let t' : IsTallied (record n { random_seed = seed }) = record {
        peers = t.peers;
        connected = t.connected;
        limited = t.limited;
      } in
      ground (arith, put_back-IsTallied (record n { random_seed = seed }) i (some a) c t' f w g h)

  host_connect-IsTallied :
      (a : A) (count d i : ℕ) (n m : Network A)
      → IsTallied n
      → host_connect a count d n ≡ some (i, m)
      → IsTallied m
  unfolding host_connect
  host_connect-IsTallied a count d i n m t e = go (find_free 0 n.slots) refl e
    where
      go :
          (o : Option ℕ)
          → find_free 0 n.slots ≡ o
          → request_at a count d n o ≡ some (i, m)
          → IsTallied m
      go none g e = ground arith
      go (some j) g e =
          request_found-IsTallied a count d j i n m (find_peer n j) t
            (first_unused n.slots j (find_free-FreeFrom 0 n.slots j g)) e

  answer_found-IsTallied :
      (x : A) (b : ConnectBody) (d i j : ℕ) (n m : Network A) (o : Option Peer)
      → IsTallied n
      → IsFree n.slots i
      → answer_found x b d n i o ≡ answered j m
      → IsTallied m
  answer_found-IsTallied x b d i j n m none t f e = ground arith
  answer_found-IsTallied x b d i j n m (some p) t f e =
      let (w, g, h) = start_answer-uncounted n.host b d p in
      ground (arith, put_back-IsTallied n i (some x) (start_answer n.host b d p) t f w g h)

  answer_at-IsTallied :
      (b : ConnectBody) (d j : ℕ) (n m : Network A) (s : Scan)
      → IsTallied n
      → ((i k : ℕ) → s ≡ scanned (some i) k → IsFree n.slots i)
      → answer_at b d n s ≡ answered j m
      → IsTallied m
  answer_at-IsTallied b d j n m repeated t f e = ground arith
  answer_at-IsTallied b d j n m panicked t f e = ground arith
  answer_at-IsTallied b d j n m (scanned none k) t f e = ground arith
  answer_at-IsTallied b d j n m (scanned (some i) k) t f e = go n.received_address refl
    where
      go : (x : Option A) → n.received_address ≡ x → IsTallied m
      go none g = ground arith
      go (some x) g =
          ground (arith, answer_found-IsTallied x b d i j n m (find_peer n i) t (f i k refl))

  scan_first_unused :
      (x : Option A) (c i k : ℕ) (l : List (Slot A))
      → scan addresses x c 0 none 0 l ≡ scanned (some i) k
      → IsFree l i
  scan_first_unused x c i k l e =
      first_unused l i (ground (arith, scan-FreeFrom addresses x c 0 none 0 l i k))

  handle_connect-IsTallied :
      (b : ConnectBody) (d j : ℕ) (n m : Network A)
      → IsTallied n
      → handle_connect addresses b d n ≡ answered j m
      → IsTallied m
  unfolding handle_connect
  handle_connect-IsTallied b d j n m t e =
      let s = scan addresses n.received_address b.connect_id 0 none 0 n.slots in
      ground (
        arith,
        answer_at-IsTallied b d j n m s t
            (λ i k. scan_first_unused n.received_address b.connect_id i k n.slots),
      )

  hear-IsTallied : (i l : ℕ) (n : Network A) → IsTallied n → IsTallied (hear i l n)
  unfolding hear heard_from
  hear-IsTallied i l n t = go (get_elem? n.slots i) refl
    where
      go : (o : Option (Slot A)) → get_elem? n.slots i ≡ o → IsTallied (hear_at i l o n)
      go none e = t
      go (some s) e = slot-IsTallied n i s (heard_from l n.received_address s) t e refl refl

  Step-IsTallied : (n m : Network A) → Step addresses n m → IsTallied n → IsTallied m
  Step-IsTallied n m (requests a count d i e) t = host_connect-IsTallied a count d i n m t e
  Step-IsTallied n m (answers b d i e) t = handle_connect-IsTallied b d i n m t e
  Step-IsTallied n m (serves s i p e g) t =
      let (h, k) = others_fit n p t in
      restore-IsTallied n i p (serve s (focus n p e)) t g
        (serve-IsCounted _ _ h k s (focus n p e) (focus-IsCounted n i p e t g))
  Step-IsTallied n m (works i p e d g q) t =
      restore-IsTallied n i p d t g
        (quiet-IsCounted _ _ (focus n p e) d q (focus-IsCounted n i p e t g))
  Step-IsTallied n m (dispatches e) t = check_events-IsTallied e n t
  Step-IsTallied n m (counts_bytes i l) t = hear-IsTallied i l n t
  Step-IsTallied n m (hears x) t = record {
    peers = t.peers;
    connected = t.connected;
    limited = t.limited;
  }

  -- A host's counts of its connected and of its bandwidth limited peers are the numbers of its
  -- peers that are so, after any sequence of steps: requests sent and answered, answers, bandwidth
  -- limits and timeouts of any peer, events that are taken, whatever else connects or ends, and
  -- any work that keeps a peer's state and limit and the counts. They are so at the start, and the
  -- host has at most 4095 peers.
  pub Steps-IsTallied : (n m : Network A) → Steps addresses n m → IsTallied n → IsTallied m
  Steps-IsTallied n m done t = t
  Steps-IsTallied n m (step s r) t = Steps-IsTallied _ m r (Step-IsTallied n _ s t)
