-- ===== src/Tests/Generations.antt =====
-- Tests of src/connected.rs: a host whose connections are lists of packets that were sent, over a host
-- below that is a list of packets to be read.
use rusty_enet.Base.{ℕ, ◌≢◌, ◌≡◌, refl, true, List, [], ◌∷◌, Option, none, some, zero, suc, arith}
use rusty_enet.Connected.{
  Address, no_settings, PeerState, disconnected, awaiting_peer, has_peer, disconnecting, Reception,
  packet, no_packet, receive_error, Connection, InnerEvent, Event, disconnect_event, connect_event,
  Inner, Host,
}
use rusty_enet.Connected.Adding.{initiator, receiver, new_connected, add_connection}
use rusty_enet.Connected.Telling.{told}
use rusty_enet.Connected.Shuttling.{deliver, service}
use rusty_enet.Connected.Generations.{address_at, IsWellFormed, IsRetired}
use rusty_enet.Connected.Renewing.{host_after}
use rusty_enet.Connected.Lasting.{
  adds, Steps, done, step, Steps-new-IsWellFormed, deliver-Steps-IsRetired,
}

-- What the host below has to be read, each with its address.
abbrev Queue : Type 0
Queue = List (Address ℕ × List ℕ)

abbrev read_queue : Queue → Option ((Address ℕ × List ℕ) × Queue)
read_queue [] = none
read_queue (x ∷ l) = some (x, l)

abbrev below : Inner Queue ℕ (List ℕ)
below = record {
  now = λ h. 5;
  connect = λ a n d h. some (0, h);
  peer_address = λ h p. none;
  disconnect = λ p d h. h;
  disconnect_now = λ p d h. h;
  disconnect_later = λ p d h. h;
  reset = λ p h. h;
  set_timeout = λ p l m n h. h;
  set_ping_interval = λ p n h. h;
  set_throttle = λ p i a d h. h;
  set_mtu = λ p n h. h;
  write = λ a l h. h;
  read = read_queue;
  service = λ h. (none, h);
  check_events = λ h. (none, h);
}

abbrev wires : Connection (List (List ℕ)) ℕ
wires = record {
  init = λ c. (c, some 77);
  send = λ l c. (l ∷ c, true);
  receive = λ c. (c, no_packet);
}

abbrev started : Host Queue (List (List ℕ)) ℕ
started = new_connected [] 2

abbrev one_added : Host Queue (List (List ℕ)) ℕ
one_added = host_after (add_connection below wires (receiver [] 100) started)

abbrev both_added : Host Queue (List (List ℕ)) ℕ
both_added = host_after (add_connection below wires (initiator [] 3 9) one_added)

abbrev both : Steps below wires started both_added
both =
    step started one_added both_added (adds (receiver [] 100))
      (step one_added both_added both_added (adds (initiator [] 3 9)) (done both_added))

abbrev stale : Address ℕ
stale = record { address = 77; id = 0; generation = 0 }

abbrev fresh : Address ℕ
fresh = record { address = 77; id = 0; generation = 1 }

-- A host whose first connection is gone.
abbrev emptied : Host Queue (List (List ℕ)) ℕ
emptied = record { inner = []; peers = disconnected none ∷ []; next_generation = 1 }

abbrev retaken : Host Queue (List (List ℕ)) ℕ
retaken = host_after (add_connection below wires (initiator [] 3 9) emptied)

emptied-IsRetired : IsRetired 0 emptied
emptied-IsRetired = record { was_used = ground arith; is_gone = gone }
  where
    gone : (i : ℕ) (a : Address ℕ) → address_at emptied.peers i ≡ some a → a.generation ≢ 0
    gone zero a e = ground arith
    gone (suc i) a e = ground arith

both_added_states :
    both_added.peers
    ≡ awaiting_peer [] (record { address = 77; id = 0; generation = 0 }) 5 100 no_settings
      ∷ has_peer [] (record { address = 77; id = 1; generation = 1 }) 0
      ∷ []
unfolding add_connection new_connected
both_added_states = refl

-- A packet for the connection that has the peer now is sent.
fresh_delivered :
    (deliver below wires 6 fresh (1 ∷ []) retaken).peers ≡ has_peer ((1 ∷ []) ∷ []) fresh 0 ∷ []
unfolding deliver add_connection rusty_enet.Connected.Shuttling.deliver_to
fresh_delivered = refl

-- Nobody has come in time.
service_overdue :
    service below wires 3 (record one_added { peers = awaiting_peer [] stale 1 2 no_settings ∷ [] })
    ≡ told (some (disconnect_event 0 0)) (record one_added { peers = disconnected none ∷ [] })
unfolding service rusty_enet.Connected.Shuttling.sweep rusty_enet.Connected.Shuttling.visit_peer
service_overdue = refl

Steps-new-IsWellFormed_example : IsWellFormed both_added
Steps-new-IsWellFormed_example = Steps-new-IsWellFormed below wires [] 2 both_added both

deliver-Steps-IsRetired_example : deliver below wires 6 stale (1 ∷ []) retaken ≡ retaken
deliver-Steps-IsRetired_example =
    deliver-Steps-IsRetired below wires 6 stale (1 ∷ []) emptied retaken emptied-IsRetired
      (step emptied retaken retaken (adds (initiator [] 3 9)) (done retaken))
