-- ===== src/Connection/Ending.antt =====
-- Control commands and the end of a connection: `enet_peer_disconnect` and its variants, ping and
-- the settings of a peer in src/c/peer.rs, `enet_protocol_handle_disconnect` of src/c/protocol.rs.
use rusty_enet.Base.{ℕ, Bool, true, false, ◌&&◌, none, ◌==◌, if◌then◌else◌}
use rusty_enet.Protocol.{Command, Body, disconnect, ping, throttle_configure}
use rusty_enet.Peer.{
  PeerState, disconnected, connecting, acknowledging_connect, connection_pending,
  connection_succeeded, connected, disconnect_later, disconnecting, acknowledging_disconnect,
  zombie, is_connected, Peer, Context,
}
use rusty_enet.Outgoing.{queue_outgoing_command}
use rusty_enet.Connection.{
  change_state, dispatch_state, has_outgoing_commands, on_disconnect, recalculate, reset,
  reset_queues, with_event_data, with_state,
}

-- A command on channel 0xff that carries no packet.
abbrev pub control : (acknowledge unsequenced : Bool) → Body → Command
control a u b = record {
  flag_acknowledge = a;
  flag_unsequenced = u;
  channel_id = 0xff;
  reliable_sequence_number = 0;
  body = b;
}

abbrev pub queue_control : (acknowledge unsequenced : Bool) → Body → Context → Context
queue_control a u b c = queue_outgoing_command c (control a u b) none 0 0

-- `enet_peer_ping`.
unfoldable pub peer_ping : Context → Context
peer_ping c = elim c.peer.state [ connected ↦ queue_control true false ping c | _ ↦ c ]

-- `enet_peer_ping_interval`.
unfoldable pub set_ping_interval : ℕ → Peer → Peer
set_ping_interval n p = record p {
  timing = record p.timing { ping_interval = (if n == 0 then 500 else n) };
}

-- `enet_peer_timeout`.
unfoldable pub set_timeout : (limit minimum maximum : ℕ) → Peer → Peer
set_timeout limit minimum maximum p = record p {
  timing = record p.timing {
    timeout_limit = (if limit == 0 then 32 else limit);
    timeout_minimum = (if minimum == 0 then 5000 else minimum);
    timeout_maximum = (if maximum == 0 then 30000 else maximum);
  };
}

-- `enet_peer_throttle_configure`.
unfoldable pub peer_throttle_configure :
    (interval acceleration deceleration : ℕ) → Context → Context
peer_throttle_configure i a d c = queue_control true false (throttle_configure i a d) (record c {
  peer = record c.peer {
    throttle = record c.peer.throttle {
      packet_throttle_interval = i;
      packet_throttle_acceleration = a;
      packet_throttle_deceleration = d;
    };
  };
})

-- `enet_peer_on_disconnect` and the new state.
unfoldable pub leave : Context → Context
leave c = let c' = on_disconnect c in record c' { peer = with_state disconnecting c'.peer }

-- A connected peer stays, in state `disconnecting`, until its notice is acknowledged.
unfoldable pub disconnect_connected : ℕ → Context → Context
disconnect_connected d c = leave (queue_control true false (disconnect d) (reset_queues c))

-- `enet_host_flush` sends what is queued for all peers. The functions below are stated for every
-- effect that it can have on the host and this peer.
module _ (flush : Context → Context) where
  -- `enet_peer_disconnect_now`.
  unfoldable pub peer_disconnect_now : ℕ → Context → Context
  peer_disconnect_now d c = elim c.peer.state [
    | disconnected ↦ c
    | zombie ↦ reset c
    | disconnecting ↦ reset c
    | _ ↦ reset (flush (queue_control false true (disconnect d) (reset_queues c)))
  ]

  -- A peer that was never connected is told once and forgotten.
  unfoldable pub disconnect_unconnected : ℕ → Context → Context
  disconnect_unconnected d c =
      reset (flush (queue_control false true (disconnect d) (reset_queues c)))

  -- `enet_peer_disconnect`, by the state in which it finds the peer.
  unfoldable pub peer_disconnect : ℕ → Context → Context
  peer_disconnect d c = elim c.peer.state [
    | disconnecting ↦ c
    | disconnected ↦ c
    | acknowledging_disconnect ↦ c
    | zombie ↦ c
    | connected ↦ disconnect_connected d c
    | disconnect_later ↦ disconnect_connected d c
    | _ ↦ disconnect_unconnected d c
  ]

  -- `enet_peer_disconnect_later`.
  unfoldable pub peer_disconnect_later : ℕ → Context → Context
  peer_disconnect_later d c =
      if is_connected c.peer.state && has_outgoing_commands c.peer
      then with_event_data d (record c { peer = with_state disconnect_later c.peer })
      else peer_disconnect d c

-- The tests of `enet_protocol_handle_disconnect`, by the state in which it finds the peer.
pub data DisconnectAction : Type 0 where
  ignore notify forget acknowledge_first : DisconnectAction

abbrev disconnect_action : PeerState → DisconnectAction
disconnect_action disconnected = ignore
disconnect_action zombie = ignore
disconnect_action acknowledging_disconnect = ignore
disconnect_action connection_succeeded = notify
disconnect_action disconnecting = notify
disconnect_action connecting = notify
disconnect_action connected = acknowledge_first
disconnect_action disconnect_later = acknowledge_first
disconnect_action acknowledging_connect = forget
disconnect_action connection_pending = forget

abbrev is_disconnected : PeerState → Bool
is_disconnected disconnected = true
is_disconnected _ = false

-- The end of the handler: a peer that it has not reset remembers the reason.
abbrev keep_reason : ℕ → Context → Context
keep_reason d c = if is_disconnected c.peer.state then c else with_event_data d c

-- `enet_protocol_handle_disconnect`, which always returns 0.
unfoldable pub handle_disconnect : (acknowledge : Bool) → ℕ → Context → Context
unfolding reset_queues dispatch_state change_state reset
handle_disconnect acknowledge d c =
    let r = reset_queues c in
    elim (disconnect_action c.peer.state) [
      | ignore ↦ c
      | notify ↦ keep_reason d (dispatch_state zombie r)
      | forget ↦
          keep_reason d (reset (elim c.peer.state [ connection_pending ↦ recalculate r | _ ↦ r ]))
      | acknowledge_first ↦
          if acknowledge
          then keep_reason d (change_state acknowledging_disconnect r)
          else keep_reason d (dispatch_state zombie r)
    ]
