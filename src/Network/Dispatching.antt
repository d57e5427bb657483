-- ===== src/Network/Dispatching.antt =====
-- What the application is told: `enet_protocol_dispatch_incoming_commands` and
-- `enet_host_check_events` of src/c/protocol.rs.
use rusty_enet.Base.{
  ℕ, ◌+◌, ◌<◌, ◌^◌, ◌≡◌, refl, true, false, List, [], ◌∷◌, Option, none, some, arith,
}
use rusty_enet.Packet.{Packet}
use rusty_enet.Peer.{
  connection_pending, connection_succeeded, connected, zombie, IncomingCommand, Peer, Context,
  Event, connect_event, disconnect_event, receive_event, no_event,
}
use rusty_enet.Connection.{change_state, reset, schedule_dispatch}
use rusty_enet.Connection.Counters.{IsCounted, change_state-IsCounted, reset-IsCounted}
use rusty_enet.Incoming.Arriving.{receive}
use rusty_enet.Network.{Network, find_peer, focus, restore}
use rusty_enet.Network.Tally.{IsTallied, others_fit, focus-IsCounted, restore-IsTallied}

abbrev pub unscheduled : Context → Context
unscheduled c = record c {
  peer = record c.peer { link = record c.peer.link { needs_dispatch = false } };
}

abbrev pub with_recalculation : Context → Context
with_recalculation c = record c { host = record c.host { recalculate_bandwidth_limits = true } }

-- A peer that has more to deliver goes to the end of the queue.
abbrev pub requeue : List IncomingCommand → Context → Context
requeue [] c = c
requeue (_ ∷ _) c = schedule_dispatch c

abbrev pub deliver_event : Event → Context → Option (ℕ × Packet × Peer) → Option Event × Context
deliver_event e c none = (none, c)
deliver_event e c (some (i, a, p)) = (
  some (record e {
    event_type = receive_event;
    event_peer = p.incoming_peer_id;
    event_channel_id = i;
    event_packet = some a;
  }),
  requeue p.dispatched_commands (record c { peer = p }),
)

-- The body of the loop for one peer, with the event if there is one.
unfoldable pub dispatch_peer : Event → Context → Option Event × Context
dispatch_peer e b =
    let c = unscheduled b in
    let linked = some (record e {
      event_type = connect_event;
      event_peer = c.peer.incoming_peer_id;
      event_data = c.peer.event_data;
    }) in
    elim b.peer.state [
      | connection_pending ↦ (linked, change_state connected c)
      | connection_succeeded ↦ (linked, change_state connected c)
      | zombie ↦ (
        some (record e {
          event_type = disconnect_event;
          event_peer = c.peer.incoming_peer_id;
          event_data = c.peer.event_data;
        }),
        reset (with_recalculation c),
      )
      | connected ↦ deliver_event e c (receive c.peer)
      | _ ↦ (none, c)
    ]

module _ {A : Type 0} where
  abbrev pub with_queue : List ℕ → Network A → Network A
  with_queue q n = record n { host = record n.host { dispatch_queue = q } }

  -- The first event ends the loop.
  abbrev pub tell :
      Option Event
      → (now : Network A) → (rest : Option Event × Network A) → Option Event × Network A
  tell (some o) m r = (some o, m)
  tell none m r = r

  -- The loop, down the queue up to the first event. The queue holds indices of peers.
  unfoldable pub dispatch_all : Event → List ℕ → Network A → Option Event × Network A
  dispatch_all e [] n = (none, with_queue [] n)
  dispatch_all e (i ∷ q) n = elim (find_peer n i) [
    | none ↦ dispatch_all e q n
    | some p ↦
        let r = dispatch_peer e (focus (with_queue q n) p none) in
        let m = restore n i r.1 in tell r.0 m (dispatch_all e q m)
  ]

  -- `enet_host_check_events`.
  unfoldable pub check_events : Event → Network A → Option Event × Network A
  check_events e n =
      dispatch_all (record e { event_type = no_event; event_packet = none }) n.host.dispatch_queue n

module _ (n m : ℕ) (n_fits : n + 1 < 2 ^ 64) (m_fits : m + 1 < 2 ^ 64) where
  dispatch_peer-IsCounted :
      (e : Event) (c : Context) → IsCounted n m c → IsCounted n m (dispatch_peer e c).1
  unfolding dispatch_peer receive schedule_dispatch
  dispatch_peer-IsCounted e c v = ground (
    arith,
    change_state-IsCounted n m n_fits m_fits connected (unscheduled c),
    reset-IsCounted n m n_fits m_fits (with_recalculation (unscheduled c)),
  )

module _ {A : Type 0} where
  tell-IsTallied :
      (o : Option Event) (m : Network A) (r : Option Event × Network A)
      → IsTallied m
      → IsTallied r.1
      → IsTallied (tell o m r).1
  tell-IsTallied (some o) m r t u = t
  tell-IsTallied none m r t u = u

  with_queue-IsTallied : (q : List ℕ) (n : Network A) → IsTallied n → IsTallied (with_queue q n)
  with_queue-IsTallied q n t = record {
    peers = t.peers;
    connected = t.connected;
    limited = t.limited;
  }

  restored-IsTallied :
      (e : Event) (q : List ℕ) (n : Network A) (i : ℕ) (p : Peer)
      → IsTallied n
      → find_peer n i ≡ some p
      → IsTallied (restore n i (dispatch_peer e (focus (with_queue q n) p none)).1)
  restored-IsTallied e q n i p t g =
      let (h, k) = others_fit n p t in
      restore-IsTallied n i p (dispatch_peer e (focus (with_queue q n) p none)).1 t g (
        dispatch_peer-IsCounted _ _ h k e (focus (with_queue q n) p none)
          (focus-IsCounted (with_queue q n) i p none (with_queue-IsTallied q n t) g))

  pub dispatch_all-IsTallied :
      (e : Event) (q : List ℕ) (n : Network A) → IsTallied n → IsTallied (dispatch_all e q n).1
  unfolding dispatch_all
  dispatch_all-IsTallied e [] n t = with_queue-IsTallied [] n t
  dispatch_all-IsTallied e (i ∷ q) n t = go (find_peer n i) refl (dispatch_all-IsTallied e q)
    where
      go :
          (o : Option Peer)
          → find_peer n i ≡ o
          → ((m : Network A) → IsTallied m → IsTallied (dispatch_all e q m).1)
          → IsTallied
              (elim o as (λ x. Option Event × Network A) [
                | none ↦ dispatch_all e q n
                | some p ↦
                    let r = dispatch_peer e (focus (with_queue q n) p none) in
                    let m = restore n i r.1 in tell r.0 m (dispatch_all e q m)
              ]).1
      go none g f = f n t
      go (some p) g f =
          let m = restore n i (dispatch_peer e (focus (with_queue q n) p none)).1 in
          let u = restored-IsTallied e q n i p t g in
          tell-IsTallied (dispatch_peer e (focus (with_queue q n) p none)).0 m (dispatch_all e q m)
            u (f m u)

  pub check_events-IsTallied :
      (e : Event) (n : Network A) → IsTallied n → IsTallied (check_events e n).1
  unfolding check_events
  check_events-IsTallied e n t =
      dispatch_all-IsTallied (record e { event_type = no_event; event_packet = none })
        n.host.dispatch_queue n t
