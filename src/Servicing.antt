-- ===== src/Servicing.antt =====
-- What the application calls over and over: `enet_host_service`, `enet_host_flush` and
-- `enet_protocol_receive_incoming_commands` of src/c/protocol.rs.
pub mod Tallied
use rusty_enet.Base.{
  ℕ, zero, suc, Bool, true, false, List, [], ◌∷◌, Option, none, some, leb, map, if◌then◌else◌,
}
use rusty_enet.Peer.{Peer, Host, Event, no_event}
use rusty_enet.Acknowledge.{time_difference}
use rusty_enet.Network.{Addresses, Slot, Network}
use rusty_enet.Network.Dispatching.{dispatch_all, check_events}
use rusty_enet.Throttling.{bandwidth_throttle}
use rusty_enet.Inbound.{ReceivedData}
use rusty_enet.Inbound.Commands.{
  Surroundings, Receipt, stuck, received, reports, handle_incoming_commands,
}
use rusty_enet.Outbound.Sending.{
  Line, Outlet, Sending, goes_on, has_event, fails, panics, send_outgoing_commands,
}

-- What the socket answers when it is asked for a datagram, with the callbacks as they are then.
pub data Incoming (A E : Type 0) : Type 0 where
  complete : A → ReceivedData → Surroundings → Incoming A E
  partial nothing : Incoming A E
  failed : E → Incoming A E

-- How a call ends: with or without an event, with the socket's error, or in a panic.
pub data Serviced (A E : Type 0) : Type 0 where
  serviced : (has_event : Bool) → Line A → Serviced A E
  socket_error : E → Line A → Serviced A E
  broken : Serviced A E

module _ {A : Type 0} where
  abbrev pub with_received_address : A → Network A → Network A
  with_received_address a n = record n { received_address = some a }

  abbrev pub with_service_time : ℕ → Network A → Network A
  with_service_time now n = record n { host = record n.host { service_time = now } }

  -- The array of peers after it was worked on without the addresses.
  unfoldable pub write_peers : List (Slot A) → List Peer → List (Slot A)
  write_peers [] l = []
  write_peers (s ∷ k) [] = s ∷ k
  write_peers (s ∷ k) (p ∷ l) = record s { peer = p } ∷ write_peers k l

  abbrev pub throttled : Network A → Option (Host × List Peer) → Option (Network A)
  throttled n none = none
  throttled n (some r) = some (record n { host = r.0; slots = write_peers n.slots r.1 })

  abbrev pub peers_of : List (Slot A) → List Peer
  peers_of l = map (λ s. s.peer) l

  -- Once a second the bandwidth is shared anew.
  unfoldable pub throttle_when_due : (now : ℕ) → Network A → Option (Network A)
  throttle_when_due now n =
      if leb 1000 (time_difference now n.host.bandwidth_throttle_epoch)
      then throttled n (bandwidth_throttle now n.host (peers_of n.slots))
      else some n

module _ {A E : Type 0} where
  abbrev pub after_datagram : Line A → Receipt A → (next : Line A → Serviced A E) → Serviced A E
  after_datagram s stuck next = broken
  after_datagram s (received e n) next =
      let t : Line A = record s { network = n; event = e } in
      if reports e then serviced true t else next t

  -- `?` on the result of sending.
  abbrev pub after_sending : Sending A E → (next : Line A → Serviced A E) → Serviced A E
  after_sending (goes_on b t) next = next t
  after_sending (has_event t) next = serviced true t
  after_sending (fails e t) next = socket_error e t
  after_sending panics next = broken

  abbrev pub after_receiving : Serviced A E → (next : Line A → Serviced A E) → Serviced A E
  after_receiving (serviced true t) next = serviced true t
  after_receiving (serviced false t) next = next t
  after_receiving (socket_error e t) next = socket_error e t
  after_receiving broken next = broken

  abbrev pub after_dispatch : Line A → Option Event × Network A → Serviced A E
  after_dispatch s (none, n) = serviced false (record s { network = n })
  after_dispatch s (some e, n) = serviced true (record s { network = n; event = some e })

module _ {A E : Type 0} (addresses : Addresses A) where
  -- `enet_protocol_receive_incoming_commands`, for at most `packets` datagrams. A part of one, which
  -- the socket has cut off, is not counted. The list holds what the socket answers, in turn; when it
  -- ends there is nothing more.
  unfoldable pub receive_incoming_commands :
      List (Incoming A E) → (packets : ℕ) → Line A → Serviced A E
  receive_incoming_commands l zero s = serviced false s
  receive_incoming_commands [] (suc k) s = serviced false s
  receive_incoming_commands (complete a d x ∷ l) (suc k) s =
      after_datagram s
        (handle_incoming_commands addresses x d s.event (with_received_address a s.network))
        (receive_incoming_commands l k)
  receive_incoming_commands (partial ∷ l) (suc k) s = receive_incoming_commands l (suc k) s
  receive_incoming_commands (nothing ∷ l) (suc k) s = serviced false s
  receive_incoming_commands (failed e ∷ l) (suc k) s = socket_error e s

  module _ (outlet : Outlet E) (fuel : ℕ) where
    -- `enet_host_flush`, which reports no event and drops the socket's error.
    unfoldable pub host_flush : (now : ℕ) → Line A → Option (Line A)
    host_flush now s =
        elim (send_outgoing_commands addresses outlet fuel false
          (record s { network = with_service_time now s.network; event = none })) [
            | goes_on b t ↦ some t
            | has_event t ↦ some t
            | fails e t ↦ some t
            | panics ↦ none
          ]

    unfoldable pub dispatch_last : Line A → Serviced A E
    dispatch_last s = elim s.event [
      | none ↦ broken
      | some e ↦ after_dispatch s (dispatch_all e s.network.host.dispatch_queue s.network)
    ]

    unfoldable pub send_checked : Line A → Sending A E
    send_checked s = send_outgoing_commands addresses outlet fuel true s

    -- Sending, receiving, sending what that has brought about, and what there is to tell.
    unfoldable pub exchange : List (Incoming A E) → Line A → Serviced A E
    exchange l s = after_sending (send_checked s) (λ t.
        after_receiving (receive_incoming_commands l 256 t)
          (λ u. after_sending (send_checked u) dispatch_last))

    abbrev pub exchange_throttled : List (Incoming A E) → Line A → Option (Network A) → Serviced A E
    exchange_throttled l s none = broken
    exchange_throttled l s (some n) = exchange l (record s { network = n })

    abbrev pub after_events :
        (now : ℕ) → List (Incoming A E) → Event → Line A → Option Event × Network A → Serviced A E
    after_events now l e s (some f, n) = serviced true (record s { network = n; event = some f })
    after_events now l e s (none, n) =
        exchange_throttled l
          (record s { event = some (record e { event_type = no_event; event_packet = none }) })
          (throttle_when_due now (with_service_time now n))

    -- `enet_host_service`, where the clock shows `now`.
    unfoldable pub host_service : (now : ℕ) → List (Incoming A E) → Event → Line A → Serviced A E
    host_service now l e s = after_events now l e s (check_events e s.network)
