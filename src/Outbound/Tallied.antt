-- ===== src/Outbound/Tallied.antt =====
-- `enet_protocol_send_outgoing_commands` of src/c/protocol.rs keeps a host's counts.
use rusty_enet.Base.{
  ℕ, zero, suc, ◌+◌, ◌≡◌, refl, Bool, true, false, ◌||◌, List, [], ◌∷◌, Option, none, some, arith,
  length, get_elem?, if◌then◌else◌, ◌==◌,
}
use rusty_enet.Peer.{Peer, Context}
use rusty_enet.Connection.Counters.{IsCounted, connected_weight, limited_weight}
use rusty_enet.Timeout.{check_timeouts}
use rusty_enet.Timeout.GivingUp.{check_timeouts-IsCounted}
use rusty_enet.Network.{Addresses, Slot, next_seed, peer_at, find_peer, focus, restore}
use rusty_enet.Network.Tally.{IsTallied, others, others_fit, focus-IsCounted, restore-IsTallied}
use rusty_enet.Datagram.{Datagram, send_acknowledgements, remove_sent_unreliable_commands}
use rusty_enet.Datagram.Filling.{Filled}
use rusty_enet.Inbound.Commands.{reports}
use rusty_enet.Outbound.{Integrity, make_integrity}
use rusty_enet.Outbound.Sending.{
  Output, Line, Outlet, Sending, goes_on, has_event, fails, panics, empty_datagram, with_continue,
  fill, fill_ping, before_send, sent_now, after_send, emit, send_filled, timeout_is_due,
  after_timeouts, send_to_peer, is_visited, visit_slot, send_pass, send_passes, with_integrity,
  first_address, send_outgoing_commands,
}
use rusty_enet.Outbound.Counted.{
  send_acknowledgements-IsCounted, remove_sent_unreliable_commands-IsCounted, FilledIsCounted,
  fill-IsCounted, fill_ping-IsCounted, sent_now-IsCounted,
}

module _ {A : Type 0} where
  peer_at-get_elem? :
      (l : List (Slot A)) (i : ℕ) (t : Slot A) → get_elem? l i ≡ some t → peer_at l i ≡ some t.peer
  peer_at-get_elem? [] i t e = ground arith
  peer_at-get_elem? (s ∷ l) zero t e = ground arith
  peer_at-get_elem? (s ∷ l) (suc i) t e = peer_at-get_elem? l i t e

module _ {A E : Type 0} where
  -- The counts of the host that is left are right.
  abbrev pub Tallies : Sending A E → Type 0
  Tallies (goes_on b t) = IsTallied t.network
  Tallies (has_event t) = IsTallied t.network
  Tallies (fails e t) = IsTallied t.network
  Tallies panics = Unit {0}

  module _ (outlet : Outlet E) (integrity : Option Integrity) where
    -- One peer of a host with right counts.
    module _ (i : ℕ) (s : Line A) (p : Peer) (found : find_peer s.network i ≡ some p)
        (tallied : IsTallied s.network) where
      abbrev Counts : Context → Type 0
      Counts = IsCounted (others connected_weight s.network p) (others limited_weight s.network p)

      restored : (c : Context) → Counts c → IsTallied (restore s.network i c)
      restored c v = restore-IsTallied s.network i p c tallied found v

      after_send-Tallies :
          (o : List (Output A)) (c : Context) (x : Option E)
          → Counts c
          → Tallies (after_send outlet integrity i (record s { outbox = o }) c x)
      after_send-Tallies o c none v = restored c v
      after_send-Tallies o c (some e) v = restored c v

      emit-Tallies :
          (a : Option A) (f : Filled) → Counts f.context → Tallies (emit outlet integrity i s a f)
      emit-Tallies none f v = tt
      emit-Tallies (some a) f v =
          let (h, k) = others_fit s.network p tallied in
          let c = sent_now (before_send f.context) in
          after_send-Tallies _ (remove_sent_unreliable_commands outlet.flush f.sent_unreliable c)
            (outlet.socket (length s.outbox))
            (remove_sent_unreliable_commands-IsCounted _ _ h k outlet.flush f.sent_unreliable c
              (sent_now-IsCounted _ _ h k f.context v))

      send_filled-Tallies :
          (a : Option A) (o : Option Filled)
          → FilledIsCounted
              (others connected_weight s.network p)
              (others limited_weight s.network p)
              (others_fit s.network p tallied).0
              (others_fit s.network p tallied).1
              outlet.flush
              o
          → Tallies (send_filled outlet integrity i s a o)
      unfolding send_filled
      send_filled-Tallies a none v = tt
      send_filled-Tallies a (some f) v =
          elim (f.datagram.command_count == 0)
            as (λ x. Tallies (
              if x
              then goes_on f.context.peer.continue_sending
                  (record s { network = restore s.network i f.context; event = f.context.event })
              else emit outlet integrity i s a f)) [
                | true ↦ restored f.context v
                | false ↦ emit-Tallies a f v
              ]

      after_timeouts-Tallies :
          (a : Option A) (d : Datagram) (b : Bool) (c : Context)
          → Counts c
          → Tallies (after_timeouts outlet integrity i s a d (b, c))
      after_timeouts-Tallies a d false c v =
          let (h, k) = others_fit s.network p tallied in
          send_filled-Tallies a (fill_ping outlet.flush (fill outlet.flush c d)) (
            fill_ping-IsCounted _ _ h k outlet.flush (fill outlet.flush c d)
              (fill-IsCounted _ _ h k outlet.flush c d v))
      after_timeouts-Tallies a d true c v =
          let t : Line A = record s { network = restore s.network i c; event = c.event } in
          elim (reports c.event)
            as (λ x. Tallies (if x then has_event t else goes_on c.peer.continue_sending t)) [
              | true ↦ restored c v
              | false ↦ restored c v
            ]

      checked_timeouts-Tallies :
          (b : Bool) (a : Option A) (d : Datagram) (c : Context)
          → Counts c
          → Tallies
              (after_timeouts outlet integrity i s a d (if b then check_timeouts c else (false, c)))
      checked_timeouts-Tallies false a d c v = after_timeouts-Tallies a d false c v
      checked_timeouts-Tallies true a d c v =
          let (h, k) = others_fit s.network p tallied in
          after_timeouts-Tallies a d (check_timeouts c).0 (check_timeouts c).1
            (check_timeouts-IsCounted _ _ h k c v)

      send_to_peer-Tallies :
          (check : Bool) (a : Option A)
          → Tallies (send_to_peer outlet integrity check i s a (focus s.network p s.event))
      unfolding send_to_peer
      send_to_peer-Tallies check a =
          let (h, k) = others_fit s.network p tallied in
          let b = focus s.network p s.event in
          let d = empty_datagram b.host.using_new_packet in
          let v = focus-IsCounted s.network i p s.event tallied found in
          let w : Counts (with_continue false b) = record {
            connected = v.connected;
            limited = v.limited;
          } in
          let r = send_acknowledgements (with_continue false b) d in
          checked_timeouts-Tallies (timeout_is_due check r.0) a r.1 r.0
            (send_acknowledgements-IsCounted _ _ h k (with_continue false b) d w)

    visit_slot-Tallies :
        (check first : Bool) (i : ℕ) (s : Line A) (o : Option (Slot A))
        → get_elem? s.network.slots i ≡ o
        → IsTallied s.network
        → Tallies (visit_slot outlet integrity check first i s o)
    visit_slot-Tallies check first i s none e t = t
    visit_slot-Tallies check first i s (some x) e t =
        let found = peer_at-get_elem? s.network.slots i x e in
        elim (is_visited first x.peer)
          as (λ b. Tallies (
            if b
            then send_to_peer outlet integrity check i s x.address (focus s.network x.peer s.event)
            else goes_on false s)) [
              | true ↦ send_to_peer-Tallies i s x.peer found t check x.address
              | false ↦ t
            ]

    send_pass-Tallies :
        (check first : Bool) (count i : ℕ) (again : Bool) (s : Line A)
        → IsTallied s.network
        → Tallies (send_pass outlet integrity check first count i again s)
    unfolding send_pass
    send_pass-Tallies check first zero i again s t = t
    send_pass-Tallies check first (suc n) i again s t =
        go (visit_slot outlet integrity check first i s (get_elem? s.network.slots i))
          (visit_slot-Tallies check first i s (get_elem? s.network.slots i) refl t)
          (λ more. send_pass-Tallies check first n (i + 1) (again || more))
      where
        go :
            (x : Sending A E)
            → Tallies x
            → ((more : Bool) (u : Line A)
                → IsTallied u.network
                → Tallies (send_pass outlet integrity check first n (i + 1) (again || more) u))
            → Tallies (elim x as (λ y. Sending A E) [
              | goes_on more u ↦ send_pass outlet integrity check first n (i + 1) (again || more) u
              | has_event u ↦ has_event u
              | fails e u ↦ fails e u
              | panics ↦ panics
            ])
        go (goes_on more u) v f = f more u v
        go (has_event u) v f = v
        go (fails e u) v f = v
        go panics v f = tt

    send_passes-Tallies :
        (fuel : ℕ) (check first : Bool) (s : Line A)
        → IsTallied s.network
        → Tallies (send_passes outlet integrity fuel check first s)
    unfolding send_passes
    send_passes-Tallies zero check first s t = t
    send_passes-Tallies (suc n) check first s t =
        go (send_pass outlet integrity check first (length s.network.slots) 0 false s)
          (send_pass-Tallies check first (length s.network.slots) 0 false s t)
          (send_passes-Tallies n check false)
      where
        go :
            (x : Sending A E)
            → Tallies x
            → ((u : Line A)
                → IsTallied u.network
                → Tallies (send_passes outlet integrity n check false u))
            → Tallies (elim x as (λ y. Sending A E) [
              | goes_on true u ↦ send_passes outlet integrity n check false u
              | goes_on false u ↦ goes_on false u
              | has_event u ↦ has_event u
              | fails e u ↦ fails e u
              | panics ↦ panics
            ])
        go (goes_on true u) v f = f u v
        go (goes_on false u) v f = v
        go (has_event u) v f = v
        go (fails e u) v f = v
        go panics v f = tt

  module _ (addresses : Addresses A) (outlet : Outlet E) where
    with_integrity-Tallies :
        (fuel : ℕ) (check : Bool) (s : Line A) (o : Option A)
        → IsTallied s.network
        → Tallies (with_integrity addresses outlet fuel check s o)
    with_integrity-Tallies fuel check s none t = tt
    with_integrity-Tallies fuel check s (some a) t =
        let seed = s.network.random_seed in
        let u : Line A = record s {
          network = record s.network { random_seed = next_seed (next_seed seed) };
        } in
        let v : IsTallied u.network = record {
          peers = t.peers;
          connected = t.connected;
          limited = t.limited;
        } in
        let i = some (make_integrity seed (addresses.port a)) in
        elim (addresses.port a == 65535)
          as (λ b. Tallies (if b then panics else send_passes outlet i fuel check true u)) [
            | true ↦ tt
            | false ↦ send_passes-Tallies outlet i fuel check true u v
          ]

    -- Sending what is due to all peers of a host keeps its counts of connected and of bandwidth
    -- limited peers right, however it ends: with an event, with an error of the socket, when there is
    -- no more to send, or after any number of passes over the peers. Whatever the checksum, the
    -- compressor and the socket answer.
    pub send_outgoing_commands-Tallies :
        (fuel : ℕ) (check : Bool) (s : Line A)
        → IsTallied s.network
        → Tallies (send_outgoing_commands addresses outlet fuel check s)
    unfolding send_outgoing_commands
    send_outgoing_commands-Tallies fuel check s t =
        elim (s.network.host.using_new_packet)
          as (λ b. Tallies (
            if b
            then with_integrity addresses outlet fuel check s (first_address s.network.slots)
            else send_passes outlet none fuel check true s)) [
              | true ↦ with_integrity-Tallies fuel check s (first_address s.network.slots) t
              | false ↦ send_passes-Tallies outlet none fuel check true s t
            ]
