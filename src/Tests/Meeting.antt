-- ===== src/Tests/Meeting.antt =====
-- A client asks a server for a connection; both have one free peer.
use rusty_enet.Base.{ℕ, ◌/◌, ◌%◌, ◌==◌, ◌≡◌, refl, [], ◌∷◌, none, some, arith, false, ◌≤◌}
use rusty_enet.Protocol.{ConnectBody, connect, verify_connect}
use rusty_enet.Peer.{Peer, Host, Context, accepted}
use rusty_enet.Connection.{reset_fields, reset_queues, on_disconnect, reset}
use rusty_enet.Handshake.{handle_verify_connect}
use rusty_enet.Outgoing.{
  queue_outgoing_command, setup_outgoing_command, number_command, number_peer, enqueue, prepare,
  stamp,
}
use rusty_enet.Network.{
  Addresses, Network, next_seed, random, prepare_request, request, start_request, find_free,
  find_peer, put_back, host_connect,
}
use rusty_enet.Network.Answering.{
  take_request, answer_body, start_answer, classify, scan, answered, handle_connect,
}
use rusty_enet.Network.Terms.{SameTerms, IsShared, last_queued}
use rusty_enet.Network.Agreement.{host_connect-IsShared}
use rusty_enet.Network.Sessions.{IsRenewed, handle_connect-IsRenewed}
use rusty_enet.Network.Verdict.{
  verdict, duplicates, any_repeated, handle_connect-verdict, handle_connect-duplicates,
}
use rusty_enet.Network.Tally.{IsTallied}
use rusty_enet.Network.Steps.{requests, done, step, Steps-IsTallied}
use rusty_enet.Tests.Samples.{peer, host}

-- Addresses are numbers: a host has 65536 ports.
abbrev pub ports : Addresses ℕ
ports = record {
  same_host = λ a b. a / 65536 == b / 65536;
  same = λ a b. a == b;
  is_broadcast = λ a. a / 65536 == 0xffffffff;
  port = λ a. a % 65536;
}

abbrev free_peer : Peer
free_peer =
    (reset (record {
      host = host [];
      peer = record (peer false) {
        link = record (peer false).link {
          incoming_peer_id = 0;
          incoming_session_id = 255;
          outgoing_session_id = 255;
        };
      };
      event = none;
    })).peer

abbrev small_host : (mtu : ℕ) → Host
small_host mtu = record (host []) {
  mtu = mtu;
  connected_peers = 1;
  bandwidth_limited_peers = 1;
  duplicate_peers = 2;
}

abbrev network : (mtu : ℕ) → Network ℕ
network mtu = record {
  host = small_host mtu;
  random_seed = 9;
  received_address = some 65537;
  slots =
      record { peer = peer false; address = some 65537 }
      ∷ record { peer = free_peer; address = none }
      ∷ [];
}

abbrev pub client : Network ℕ
client = network 1392

abbrev server : Network ℕ
server = network 1200

abbrev asked : Context
asked = start_request client.host 2 (random (next_seed 9)) 5 free_peer

abbrev body : ConnectBody
body = request client.host (prepare_request client.host 2 (random (next_seed 9)) free_peer)

abbrev replied : Context
replied = start_answer server.host body 5 free_peer

abbrev reply : ConnectBody
reply = answer_body server.host body.window_size (take_request server.host body 5 free_peer)

abbrev client_asking : Network ℕ
client_asking = put_back (record client { random_seed = next_seed 9 }) 1 (some 131072) asked

abbrev server_answering : Network ℕ
server_answering = put_back server 1 (some 65537) replied

host_connect_sample : host_connect 131072 2 5 client ≡ some (1, client_asking)
unfolding host_connect find_free reset reset_queues reset_fields on_disconnect
host_connect_sample = refl

handle_connect_sample : handle_connect ports body 5 server ≡ answered 1 server_answering
unfolding handle_connect scan classify find_free reset reset_queues reset_fields on_disconnect
    request prepare_request random
handle_connect_sample = refl

queued_request : last_queued asked.peer ≡ some (connect body 5)
unfolding start_request queue_outgoing_command setup_outgoing_command number_command number_peer
    enqueue prepare stamp reset reset_queues reset_fields on_disconnect prepare_request
queued_request = refl

queued_reply : last_queued replied.peer ≡ some (verify_connect reply)
unfolding start_answer queue_outgoing_command setup_outgoing_command number_command number_peer
    enqueue prepare stamp reset reset_queues reset_fields on_disconnect take_request
queued_reply = refl

-- The request has been sent.
abbrev asked_again : Context
asked_again = record asked {
  host = client_asking.host;
  peer = record asked.peer {
    queues = record asked.peer.queues {
      outgoing_commands = [];
      sent_reliable_commands = asked.peer.outgoing_commands;
    };
  };
}

asked_again-SameTerms : SameTerms asked_again.peer asked.peer
asked_again-SameTerms = record {
  link = refl;
  throttle = refl;
  mtu = refl;
  window_size = refl;
  channel_count = refl;
}

host_connect-IsShared_example :
    (d : Context) × (handle_verify_connect reply asked_again ≡ accepted d)
    × IsShared d.peer replied.peer
host_connect-IsShared_example =
    host_connect-IsShared ports 131072 2 5 5 1 1 client client_asking server server_answering body
      reply asked.peer replied.peer asked_again (omega arith) (omega arith) (omega arith)
      (omega arith) host_connect_sample refl queued_request handle_connect_sample refl queued_reply
      asked_again-SameTerms

handle_connect-IsRenewed_example :
    (p : Peer) × (find_peer server 1 ≡ some p) × IsRenewed p replied.peer
handle_connect-IsRenewed_example =
    handle_connect-IsRenewed ports body 5 1 server server_answering replied.peer
      handle_connect_sample refl

handle_connect-verdict_example :
    handle_connect ports body 5 server ≡ verdict ports 65537 body 5 server
unfolding reset reset_queues reset_fields on_disconnect
handle_connect-verdict_example =
    handle_connect-verdict ports 65537 body 5 server refl (omega arith) refl

handle_connect-duplicates_example :
    (duplicates ports 65537 server_answering.slots ≤ 2)
    × (any_repeated ports 65537 body.connect_id server.slots ≡ false)
unfolding reset reset_queues reset_fields on_disconnect
handle_connect-duplicates_example =
    handle_connect-duplicates ports 65537 body 5 1 server server_answering refl (omega arith) refl
      handle_connect_sample

pub client-IsTallied : IsTallied client
unfolding reset reset_queues reset_fields on_disconnect
client-IsTallied = record { peers = omega arith; connected = refl; limited = refl }

Steps-IsTallied_example : IsTallied client_asking
Steps-IsTallied_example =
    Steps-IsTallied ports client client_asking
      (step (requests 131072 2 5 1 host_connect_sample) done) client-IsTallied
