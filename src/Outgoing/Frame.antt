-- ===== src/Outgoing/Frame.antt =====
-- What queueing a command leaves alone.
use rusty_enet.Base.{add32, ℕ, ◌≡◌, Option, none, some, arith}
use rusty_enet.Protocol.{Command}
use rusty_enet.Peer.{Peer, OutgoingCommand, Context}
use rusty_enet.Outgoing.{
  number_command, account, enqueue, prepare, setup_outgoing_command, retain_packet,
  queue_outgoing_command, new_command,
}

-- The fields by which a peer is known to its host and counted by it.
pub record SameLink (c d : Context) : Type 0 where
  pub link : c.peer.link ≡ d.peer.link
  pub incoming_bandwidth : c.peer.incoming_bandwidth ≡ d.peer.incoming_bandwidth
  pub connected_peers : c.host.connected_peers ≡ d.host.connected_peers
  pub bandwidth_limited_peers : c.host.bandwidth_limited_peers ≡ d.host.bandwidth_limited_peers
  pub dispatch_queue : c.host.dispatch_queue ≡ d.host.dispatch_queue

pub record SamePeerLink (p q : Peer) : Type 0 where
  pub link : p.link ≡ q.link
  pub incoming_bandwidth : p.incoming_bandwidth ≡ q.incoming_bandwidth

number_command-SamePeerLink :
    (p : Peer) (o : OutgoingCommand) → SamePeerLink (number_command p o).source p
unfolding number_command
number_command-SamePeerLink p o = ground arith

enqueue-SamePeerLink : (p : Peer) (o : OutgoingCommand) → SamePeerLink (enqueue o p) p
unfolding enqueue
enqueue-SamePeerLink p o = ground arith

pub setup_outgoing_command-SameLink :
    (c : Context) (o : OutgoingCommand) → SameLink (setup_outgoing_command c o) c
unfolding setup_outgoing_command
setup_outgoing_command-SameLink c o =
    let n = number_command (account o c.peer) o in
    ground (
      arith,
      number_command-SamePeerLink (account o c.peer) o,
      enqueue-SamePeerLink n.source (prepare (add32 c.host.total_queued 1) n o),
    )

pub queue_outgoing_command-SameLink :
    (c : Context) (k : Command) (a : Option ℕ) (i n : ℕ)
    → SameLink (queue_outgoing_command c k a i n) c
unfolding queue_outgoing_command
queue_outgoing_command-SameLink c k none i n =
    ground (arith, setup_outgoing_command-SameLink c (new_command k none i n))
queue_outgoing_command-SameLink c k (some a) i n = ground (
  arith,
  setup_outgoing_command-SameLink (record c { host = retain_packet (some a) 1 c.host })
      (new_command k (some a) i n),
)
