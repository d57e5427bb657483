-- ===== src/Connection/Counters.antt =====
-- `connected_peers` and `bandwidth_limited_peers` of a host against the states of its peers.
use rusty_enet.Base.{ℕ, ◌+◌, ◌<◌, ◌^◌, ◌≡◌, Bool, true, false, ◌&&◌, not, ◌⊎◌, none, arith, ◌==◌}
use rusty_enet.Outgoing.Frame.{queue_outgoing_command-SameLink}
use rusty_enet.Protocol.{disconnect}
use rusty_enet.Peer.{PeerState, disconnect_later, is_connected, Peer, Context}
use rusty_enet.Connection.{
  on_disconnect, reset_queues, reset, change_state, dispatch_state, notify_connect,
  notify_disconnect,
}
use rusty_enet.Connection.Ending.{
  leave, disconnect_connected, disconnect_unconnected, handle_disconnect, peer_disconnect,
  queue_control, control,
}

abbrev pub weight : Bool → ℕ
weight true = 1
weight false = 0

-- What a peer adds to the two counters.
abbrev pub connected_weight : Peer → ℕ
connected_weight p = weight (is_connected p.state)

abbrev pub limited_weight : Peer → ℕ
limited_weight p = weight (is_connected p.state && not (p.incoming_bandwidth == 0))

-- The counters are right, where the other peers add `n` and `m`.
pub record IsCounted (n m : ℕ) (c : Context) : Type 0 where
  pub connected : c.host.connected_peers ≡ n + connected_weight c.peer
  pub limited : c.host.bandwidth_limited_peers ≡ m + limited_weight c.peer

-- What sending and receiving leave alone.
pub record IsQuiet (c d : Context) : Type 0 where
  pub state : d.peer.state ≡ c.peer.state
  pub incoming_bandwidth : d.peer.incoming_bandwidth ≡ c.peer.incoming_bandwidth
  pub connected_peers : d.host.connected_peers ≡ c.host.connected_peers
  pub bandwidth_limited_peers : d.host.bandwidth_limited_peers ≡ c.host.bandwidth_limited_peers

pub quiet-IsCounted : (n m : ℕ) (c d : Context) → IsQuiet c d → IsCounted n m c → IsCounted n m d
quiet-IsCounted n m c d q v = ground arith

module _ (n m : ℕ) (n_fits : n + 1 < 2 ^ 64) (m_fits : m + 1 < 2 ^ 64) where
  pub reset-IsCounted : (c : Context) → IsCounted n m c → IsCounted n m (reset c)
  unfolding reset
  reset-IsCounted c v = ground arith

module _ (n m : ℕ) (n_fits : n + 1 < 2 ^ 64) (m_fits : m + 1 < 2 ^ 64) where
  pub change_state-IsCounted :
      (s : PeerState) (c : Context) → IsCounted n m c → IsCounted n m (change_state s c)
  unfolding change_state
  change_state-IsCounted s c v = ground arith

  pub dispatch_state-IsCounted :
      (s : PeerState) (c : Context) → IsCounted n m c → IsCounted n m (dispatch_state s c)
  unfolding dispatch_state
  dispatch_state-IsCounted s c v = ground arith

  pub notify_connect-IsCounted : (c : Context) → IsCounted n m c → IsCounted n m (notify_connect c)
  unfolding notify_connect
  notify_connect-IsCounted c v = ground arith

  pub notify_disconnect-IsCounted :
      (c : Context) → IsCounted n m c → IsCounted n m (notify_disconnect c)
  unfolding notify_disconnect
  notify_disconnect-IsCounted c v = ground arith

  pub handle_disconnect-IsCounted :
      (a : Bool) (d : ℕ) (c : Context) → IsCounted n m c → IsCounted n m (handle_disconnect a d c)
  unfolding handle_disconnect
  handle_disconnect-IsCounted a d c v = ground arith

  leave-IsCounted : (c : Context) → IsCounted n m c → IsCounted n m (leave c)
  unfolding leave on_disconnect
  leave-IsCounted c v = ground arith

  queue_disconnect-IsCounted :
      (a u : Bool) (d : ℕ) (c : Context)
      → IsCounted n m c
      → IsCounted n m (queue_control a u (disconnect d) (reset_queues c))
  unfolding reset_queues
  queue_disconnect-IsCounted a u d c v = ground (
    arith,
    queue_outgoing_command-SameLink (reset_queues c) (control a u (disconnect d)) none 0 0,
  )

  -- A peer that waits to leave has nothing flushed when it does.
  pub leave_later-IsCounted :
      (flush : Context → Context) (d : ℕ) (c : Context)
      → c.peer.state ≡ disconnect_later
      → IsCounted n m c
      → IsCounted n m (peer_disconnect flush d c)
  unfolding peer_disconnect disconnect_connected
  leave_later-IsCounted flush d c e v =
      ground (arith, leave-IsCounted _ (queue_disconnect-IsCounted true false d c v))

  -- Flushing may change how many of the other peers are connected.
  module _ (n' m' : ℕ) (n'_fits : n' + 1 < 2 ^ 64) (m'_fits : m' + 1 < 2 ^ 64)
      (flush : Context → Context)
      (flush-IsCounted : (c : Context) → IsCounted n m c → IsCounted n' m' (flush c)) where
    -- The peer's own part of the counters and those of the others, before or after flushing.
    abbrev pub IsCountedEither : Context → Type 0
    IsCountedEither c = IsCounted n m c ⊎ IsCounted n' m' c

    -- Ending a connection with `enet_peer_disconnect` keeps a host's two counts right on every
    -- path: as they were for the other peers, or as the flush left them. The other peers add `n`
    -- and `m` before the flush and `n'` and `m'` after it, all less than 2 ^ 64 - 1, and the flush
    -- itself takes right counts to right ones.
    pub peer_disconnect-IsCounted :
        (d : ℕ) (c : Context) → IsCounted n m c → IsCountedEither (peer_disconnect flush d c)
    unfolding peer_disconnect disconnect_connected disconnect_unconnected
    peer_disconnect-IsCounted d c v = ground (
      arith,
      leave-IsCounted _ (queue_disconnect-IsCounted true false d c v),
      reset-IsCounted n' m' n'_fits m'_fits _
          (flush-IsCounted _ (queue_disconnect-IsCounted false true d c v)),
    )
