-- ===== src/Tests/Servicing.antt =====
-- A client is serviced: a datagram arrives, and a ping goes out.
use rusty_enet.Base.{ℕ, List, [], ◌∷◌, none}
use rusty_enet.Peer.{Event, no_event}
use rusty_enet.Outbound.Sending.{Line, Outlet}
use rusty_enet.Servicing.{Incoming, complete, partial, host_service}
use rusty_enet.Servicing.Tallied.{LeavesTallied, host_service-LeavesTallied}
use rusty_enet.Tests.Meeting.{ports, client, client-IsTallied}
use rusty_enet.Tests.Arriving.{plain, datagram}

-- A socket that never fails, and a host without callbacks.
abbrev outlet : Outlet ℕ
outlet = record {
  flush = λ c. c;
  callbacks = λ n. record { checksum = λ l. 0; compress = none };
  socket = λ n. none;
}

abbrev replies : List (Incoming ℕ ℕ)
replies = partial ∷ complete 65537 datagram plain ∷ []

abbrev no_events : Event
no_events = record {
  event_type = no_event;
  event_peer = 0;
  event_channel_id = 0;
  event_packet = none;
  event_data = 0;
}

abbrev line : Line ℕ
line = record { network = client; event = none; outbox = [] }

host_service-LeavesTallied_example :
    LeavesTallied (host_service ports outlet 5 40 replies no_events line)
host_service-LeavesTallied_example =
    host_service-LeavesTallied ports outlet 5 40 replies no_events line client-IsTallied
