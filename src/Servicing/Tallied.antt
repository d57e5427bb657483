-- ===== src/Servicing/Tallied.antt =====
-- A host's counts over a whole call of `enet_host_service` of src/c/protocol.rs.
use rusty_enet.Base.{
  ℕ, zero, suc, ◌≡◌, refl, ap, true, false, List, [], ◌∷◌, Option, none, some, arith, length, leb,
  if◌then◌else◌,
}
use rusty_enet.Peer.{Peer, Host, Event, no_event}
use rusty_enet.Acknowledge.{time_difference}
use rusty_enet.Connection.Counters.{connected_weight, limited_weight}
use rusty_enet.Network.{Addresses, Slot, Network}
use rusty_enet.Network.Dispatching.{
  dispatch_all, check_events, dispatch_all-IsTallied, check_events-IsTallied,
}
use rusty_enet.Network.Tally.{total, IsTallied}
use rusty_enet.Network.Steps.{Steps-IsTallied}
use rusty_enet.Throttling.{bandwidth_throttle}
use rusty_enet.Throttling.Counts.{AreSame, same, Shares, bandwidth_throttle-Shares}
use rusty_enet.Inbound.Commands.{Receipt, stuck, received, reports, handle_incoming_commands}
use rusty_enet.Inbound.Refinement.{handle_incoming_commands-Steps}
use rusty_enet.Outbound.Sending.{Line, Outlet, Sending, goes_on, has_event, fails, panics}
use rusty_enet.Outbound.Tallied.{Tallies, send_outgoing_commands-Tallies}
use rusty_enet.Servicing.{
  Incoming, complete, partial, nothing, failed, Serviced, serviced, socket_error, broken,
  with_received_address, with_service_time, write_peers, throttled, peers_of, throttle_when_due,
  after_datagram, receive_incoming_commands, after_sending, after_receiving, after_dispatch,
  dispatch_last, send_checked, exchange, exchange_throttled, after_events, host_service,
}

connected_weight_same :
    (p q : Peer)
    → p.state ≡ q.state
    → p.incoming_bandwidth ≡ q.incoming_bandwidth
    → connected_weight p ≡ connected_weight q
connected_weight_same p q a b = ground arith

limited_weight_same :
    (p q : Peer)
    → p.state ≡ q.state
    → p.incoming_bandwidth ≡ q.incoming_bandwidth
    → limited_weight p ≡ limited_weight q
limited_weight_same p q a b = ground arith

module _ {A : Type 0} where
  length-write_peers : (k : List (Slot A)) (l : List Peer) → length (write_peers k l) ≡ length k
  unfolding write_peers
  length-write_peers [] l = refl
  length-write_peers (s ∷ k) [] = refl
  length-write_peers (s ∷ k) (p ∷ l) = ap suc (length-write_peers k l)

  total-write_peers :
      (f : Peer → ℕ) (k : List (Slot A)) (l : List Peer)
      → ((p q : Peer) → p.state ≡ q.state → p.incoming_bandwidth ≡ q.incoming_bandwidth → f p ≡ f q)
      → AreSame l (peers_of k)
      → total f (write_peers k l) ≡ total f k
  unfolding write_peers
  total-write_peers f [] l h s = refl
  total-write_peers f (s ∷ k) [] h e = refl
  total-write_peers f (s ∷ k) (p ∷ l) h (same a b e) =
      omega (arith, h p s.peer a b, total-write_peers f k l h e)

  abbrev ThrottlesTallied : Option (Network A) → Type 0
  ThrottlesTallied none = Unit {0}
  ThrottlesTallied (some n) = IsTallied n

  throttled-IsTallied :
      (n : Network A) (o : Option (Host × List Peer))
      → IsTallied n
      → Shares n.host (peers_of n.slots) o
      → ThrottlesTallied (throttled n o)
  throttled-IsTallied n none t k = tt
  throttled-IsTallied n (some (h, l)) t k = record {
    peers = omega (arith, t.peers, length-write_peers n.slots l);
    connected = omega (
      arith,
      t.connected,
      k.connected,
      total-write_peers connected_weight n.slots l connected_weight_same k.peers,
    );
    limited = omega (
      arith,
      t.limited,
      k.limited,
      total-write_peers limited_weight n.slots l limited_weight_same k.peers,
    );
  }

  throttle_when_due-IsTallied :
      (now : ℕ) (n : Network A) → IsTallied n → ThrottlesTallied (throttle_when_due now n)
  unfolding throttle_when_due
  throttle_when_due-IsTallied now n t =
      let o = bandwidth_throttle now n.host (peers_of n.slots) in
      elim (leb 1000 (time_difference now n.host.bandwidth_throttle_epoch))
        as (λ b. ThrottlesTallied (if b then throttled n o else some n)) [
          | true ↦
              throttled-IsTallied n o t (bandwidth_throttle-Shares now n.host (peers_of n.slots))
          | false ↦ t
        ]

  with_received_address-IsTallied :
      (a : A) (n : Network A) → IsTallied n → IsTallied (with_received_address a n)
  with_received_address-IsTallied a n t = record {
    peers = t.peers;
    connected = t.connected;
    limited = t.limited;
  }

  with_service_time-IsTallied :
      (now : ℕ) (n : Network A) → IsTallied n → IsTallied (with_service_time now n)
  with_service_time-IsTallied now n t = record {
    peers = t.peers;
    connected = t.connected;
    limited = t.limited;
  }

module _ {A E : Type 0} where
  abbrev pub LeavesTallied : Serviced A E → Type 0
  LeavesTallied (serviced b t) = IsTallied t.network
  LeavesTallied (socket_error e t) = IsTallied t.network
  LeavesTallied broken = Unit {0}

  abbrev KeepsTallied : (Line A → Serviced A E) → Type 0
  KeepsTallied next = (t : Line A) → IsTallied t.network → LeavesTallied (next t)

  after_datagram-LeavesTallied :
      (s : Line A) (r : Receipt A) (next : Line A → Serviced A E)
      → ((e : Option Event) (n : Network A) → r ≡ received e n → IsTallied n)
      → KeepsTallied next
      → LeavesTallied (after_datagram s r next)
  after_datagram-LeavesTallied s stuck next h f = tt
  after_datagram-LeavesTallied s (received e n) next h f =
      let t : Line A = record s { network = n; event = e } in
      elim (reports e) as (λ b. LeavesTallied (if b then serviced true t else next t)) [
        | true ↦ h e n refl
        | false ↦ f t (h e n refl)
      ]

  after_sending-LeavesTallied :
      (x : Sending A E) (next : Line A → Serviced A E)
      → Tallies x
      → KeepsTallied next
      → LeavesTallied (after_sending x next)
  after_sending-LeavesTallied (goes_on b t) next v f = f t v
  after_sending-LeavesTallied (has_event t) next v f = v
  after_sending-LeavesTallied (fails e t) next v f = v
  after_sending-LeavesTallied panics next v f = tt

  after_receiving-LeavesTallied :
      (x : Serviced A E) (next : Line A → Serviced A E)
      → LeavesTallied x
      → KeepsTallied next
      → LeavesTallied (after_receiving x next)
  after_receiving-LeavesTallied (serviced true t) next v f = v
  after_receiving-LeavesTallied (serviced false t) next v f = f t v
  after_receiving-LeavesTallied (socket_error e t) next v f = v
  after_receiving-LeavesTallied broken next v f = tt

  module _ (addresses : Addresses A) where
    receive-LeavesTallied :
        (l : List (Incoming A E)) (k : ℕ) → KeepsTallied (receive_incoming_commands addresses l k)
    unfolding receive_incoming_commands
    receive-LeavesTallied [] zero s t = t
    receive-LeavesTallied (x ∷ l) zero s t = t
    receive-LeavesTallied [] (suc k) s t = t
    receive-LeavesTallied (complete a d x ∷ l) (suc k) s t =
        let n = with_received_address a s.network in
        after_datagram-LeavesTallied s (handle_incoming_commands addresses x d s.event n)
          (receive_incoming_commands addresses l k)
          (λ f m e.
            Steps-IsTallied addresses n m
              (handle_incoming_commands-Steps addresses x d s.event f n m e)
              (with_received_address-IsTallied a s.network t))
          (receive-LeavesTallied l k)
    receive-LeavesTallied (partial ∷ l) (suc k) s t = receive-LeavesTallied l (suc k) s t
    receive-LeavesTallied (nothing ∷ l) (suc k) s t = t
    receive-LeavesTallied (failed e ∷ l) (suc k) s t = t

    module _ (outlet : Outlet E) (fuel : ℕ) where
      send_checked-Tallies :
          (s : Line A) → IsTallied s.network → Tallies (send_checked addresses outlet fuel s)
      unfolding send_checked
      send_checked-Tallies s t = send_outgoing_commands-Tallies addresses outlet fuel true s t

      after_dispatch-LeavesTallied :
          (s : Line A) (r : Option Event × Network A)
          → IsTallied r.1
          → LeavesTallied (after_dispatch s r)
      after_dispatch-LeavesTallied s (none, n) t = t
      after_dispatch-LeavesTallied s (some e, n) t = t

      dispatch_last-LeavesTallied : KeepsTallied (dispatch_last addresses outlet fuel)
      unfolding dispatch_last
      dispatch_last-LeavesTallied s t = go s.event
        where
          go :
              (o : Option Event)
              → LeavesTallied (elim o as (λ x. Serviced A E) [
                | none ↦ broken
                | some e ↦ after_dispatch s (dispatch_all e s.network.host.dispatch_queue s.network)
              ])
          go none = tt
          go (some e) =
              after_dispatch-LeavesTallied s
                (dispatch_all e s.network.host.dispatch_queue s.network)
                (dispatch_all-IsTallied e s.network.host.dispatch_queue s.network t)

      exchange-LeavesTallied :
          (l : List (Incoming A E)) → KeepsTallied (exchange addresses outlet fuel l)
      unfolding exchange
      exchange-LeavesTallied l s t =
          after_sending-LeavesTallied (send_checked addresses outlet fuel s) _
            (send_checked-Tallies s t)
            (λ u v.
              after_receiving-LeavesTallied (receive_incoming_commands addresses l 256 u) _
                (receive-LeavesTallied l 256 u v)
                (λ w x.
                  after_sending-LeavesTallied (send_checked addresses outlet fuel w) _
                    (send_checked-Tallies w x) dispatch_last-LeavesTallied))

      exchange_throttled-LeavesTallied :
          (l : List (Incoming A E)) (s : Line A) (o : Option (Network A))
          → ThrottlesTallied o
          → LeavesTallied (exchange_throttled addresses outlet fuel l s o)
      exchange_throttled-LeavesTallied l s none t = tt
      exchange_throttled-LeavesTallied l s (some n) t =
          exchange-LeavesTallied l (record s { network = n }) t

      after_events-LeavesTallied :
          (now : ℕ) (l : List (Incoming A E)) (e : Event) (s : Line A)
          (r : Option Event × Network A)
          → IsTallied r.1
          → LeavesTallied (after_events addresses outlet fuel now l e s r)
      after_events-LeavesTallied now l e s (some f, n) t = t
      after_events-LeavesTallied now l e s (none, n) t =
          exchange_throttled-LeavesTallied l
            (record s { event = some (record e { event_type = no_event; event_packet = none }) })
            (throttle_when_due now (with_service_time now n))
            (throttle_when_due-IsTallied now (with_service_time now n)
              (with_service_time-IsTallied now n t))

      -- A whole call of the service function, with all that it takes from the socket, sends, tells
      -- and gives up on, leaves the host's counts of its connected and of its bandwidth limited
      -- peers right if they were, however it ends. Whatever bytes arrive, and whatever the clock,
      -- the socket, the checksum, the compressor and the allocator answer, for any number of
      -- passes of sending.
      pub host_service-LeavesTallied :
          (now : ℕ) (l : List (Incoming A E)) (e : Event) (s : Line A)
          → IsTallied s.network
          → LeavesTallied (host_service addresses outlet fuel now l e s)
      unfolding host_service
      host_service-LeavesTallied now l e s t =
          after_events-LeavesTallied now l e s (check_events e s.network)
            (check_events-IsTallied e s.network t)
