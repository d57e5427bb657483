-- ===== src/Tests/Beginning.antt =====
-- A new host with two peers, which asks for a connection.
use rusty_enet.Base.{ℕ, ◌==◌, ◌≡◌, refl, [], Option, none, some, false, true}
use rusty_enet.Connection.{reset, reset_queues, reset_fields, on_disconnect}
use rusty_enet.Network.{Addresses, Network, find_free, host_connect}
use rusty_enet.Network.Creating.{
  HostSettings, Creation, created, not_created, number_peer_slot, new_host, make_slots, host_create,
  host_new,
}
use rusty_enet.Network.Tally.{IsTallied}
use rusty_enet.Network.Steps.{requests, done, step}
use rusty_enet.Network.Reaching.{host_new-IsTallied}

abbrev equal_numbers : Addresses ℕ
equal_numbers = record {
  same_host = λ a b. a == b;
  same = λ a b. a == b;
  is_broadcast = λ a. false;
  port = λ a. 0;
}

abbrev settings : HostSettings
settings = record {
  peer_limit = 2;
  channel_limit = 4;
  incoming_bandwidth_limit = some 57600;
  outgoing_bandwidth_limit = none;
  checksum = true;
  seed = some 42;
  using_new_packet = true;
}

abbrev no_network : Network ℕ
no_network = record {
  host = new_host true 0 0 0;
  random_seed = 0;
  received_address = none;
  slots = [];
}

abbrev network_or : Creation ℕ ℕ → Network ℕ
network_or (not_created e) = no_network
network_or (created n) = n

abbrev made : Network ℕ
made = network_or (host_new none 0 0 settings)

host_new_sample : host_new {E = ℕ} none 0 0 settings ≡ created made
unfolding host_new host_create
host_new_sample = refl

abbrev asked_or : Option (ℕ × Network ℕ) → ℕ × Network ℕ
asked_or none = (0, no_network)
asked_or (some r) = r

abbrev asked : ℕ × Network ℕ
asked = asked_or (host_connect 7 2 5 made)

host_connect_from_new : host_connect 7 2 5 made ≡ some (asked.0, asked.1)
unfolding host_connect find_free host_new host_create make_slots number_peer_slot reset reset_queues
    reset_fields on_disconnect
host_connect_from_new = refl

host_new-IsTallied_example : IsTallied asked.1
host_new-IsTallied_example =
    host_new-IsTallied equal_numbers none 0 0 settings made asked.1 host_new_sample
      (step (requests 7 2 5 asked.0 host_connect_from_new) done)
