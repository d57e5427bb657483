-- ===== src/Network/Answering.antt =====
-- A request that arrives: `enet_protocol_handle_connect` of src/c/protocol.rs.
use rusty_enet.Base.{
  ℕ, ◌+◌, ◌%◌, Bool, true, false, ◌&&◌, ◌||◌, not, List, [], ◌∷◌, Option, none, some, ltb, leb,
  ◌==◌, if◌then◌else◌, add_size, replicate,
}
use rusty_enet.Protocol.{ConnectBody, verify_connect}
use rusty_enet.Peer.{acknowledging_connect, Peer, Host, Context}
use rusty_enet.Connection.Ending.{queue_control}
use rusty_enet.Limits.{clamp_window, clamp_mtu, own_window, shared_window}
use rusty_enet.Network.{
  Addresses, Slot, Network, is_disconnected, is_connecting, fresh_channel, find_peer, put_back,
}

-- The new session number of one direction: the next one of two bits that is not the old one.
unfoldable pub renew_session : (offered old : ℕ) → ℕ
renew_session offered old =
    let n = ((if offered == 0xff then old else offered) + 1) % 4 in
    if n == old then (n + 1) % 4 else n

-- What a free peer becomes for a request that is taken.
unfoldable pub take_request : Host → ConnectBody → (connect_data : ℕ) → Peer → Peer
take_request h b d p =
    let count = if ltb h.channel_limit b.channel_count then h.channel_limit else b.channel_count in
    let mtu = clamp_mtu b.mtu in
    record p {
      link = record p.link {
        state = acknowledging_connect;
        connect_id = b.connect_id;
        outgoing_peer_id = b.outgoing_peer_id;
        event_data = d;
        outgoing_session_id = renew_session b.incoming_session_id p.outgoing_session_id;
        incoming_session_id = renew_session b.outgoing_session_id p.incoming_session_id;
      };
      traffic = record p.traffic {
        incoming_bandwidth = b.incoming_bandwidth;
        outgoing_bandwidth = b.outgoing_bandwidth;
      };
      throttle = record p.throttle {
        packet_throttle_interval = b.packet_throttle_interval;
        packet_throttle_acceleration = b.packet_throttle_acceleration;
        packet_throttle_deceleration = b.packet_throttle_deceleration;
      };
      flow = record p.flow {
        mtu = (if ltb mtu h.mtu then mtu else h.mtu);
        window_size = shared_window h.outgoing_bandwidth b.incoming_bandwidth;
      };
      queues = record p.queues { channels = replicate count fresh_channel; channel_count = count };
    }

-- The window that the other end may use, in the answer.
unfoldable pub offered_window : (bandwidth requested : ℕ) → ℕ
offered_window bandwidth requested =
    let w = own_window bandwidth in clamp_window (if ltb requested w then requested else w)

-- The answer to a request with the window `requested`.
unfoldable pub answer_body : Host → (requested : ℕ) → Peer → ConnectBody
answer_body h requested p = record {
  outgoing_peer_id = p.incoming_peer_id;
  incoming_session_id = p.outgoing_session_id;
  outgoing_session_id = p.incoming_session_id;
  mtu = p.mtu;
  window_size = offered_window h.incoming_bandwidth requested;
  channel_count = p.channel_count;
  incoming_bandwidth = h.incoming_bandwidth;
  outgoing_bandwidth = h.outgoing_bandwidth;
  packet_throttle_interval = p.packet_throttle_interval;
  packet_throttle_acceleration = p.packet_throttle_acceleration;
  packet_throttle_deceleration = p.packet_throttle_deceleration;
  connect_id = p.connect_id;
}

unfoldable pub start_answer : Host → ConnectBody → (connect_data : ℕ) → Peer → Context
start_answer h b d p =
    let q = take_request h b d p in
    queue_control true false (verify_connect (answer_body h b.window_size q))
      (record { host = h; peer = q; event = none })

-- What the loop over the peers makes of one of them. An address that is not set is unwrapped, which
-- panics.
pub data Sight : Type 0 where
  unused unrelated duplicate own unset : Sight

-- The loop over the peers: the request is known already, or there is a first free peer and a count
-- of the peers at the same host.
pub data Scan : Type 0 where
  repeated panicked : Scan
  scanned : (free : Option ℕ) (duplicates : ℕ) → Scan

pub data Reply (A : Type 0) : Type 0 where
  refused failed : Reply A
  answered : (index : ℕ) → Network A → Reply A

module _ {A : Type 0} where
  abbrev pub answer_found :
      A → ConnectBody → (connect_data : ℕ) → Network A → ℕ → Option Peer → Reply A
  answer_found x b d n i none = refused
  answer_found x b d n i (some p) = answered i (put_back n i (some x) (start_answer n.host b d p))

  abbrev pub answer_at : ConnectBody → (connect_data : ℕ) → Network A → Scan → Reply A
  answer_at b d n repeated = refused
  answer_at b d n panicked = failed
  answer_at b d n (scanned none k) = refused
  answer_at b d n (scanned (some i) k) =
      if leb n.host.duplicate_peers k then refused else elim n.received_address [
        | none ↦ failed
        | some x ↦ answer_found x b d n i (find_peer n i)
      ]

abbrev pub first : ℕ → Option ℕ → Option ℕ
first i none = some i
first i (some j) = some j

module _ {A : Type 0} (addresses : Addresses A) where
  abbrev pub compare : (received known : Option A) → (same_connection : Bool) → Sight
  compare received none k = unset
  compare none (some y) k = unset
  compare (some x) (some y) k =
      if not (addresses.same_host y x)
      then unrelated
      else if addresses.same y x && k
      then own
      else duplicate

  unfoldable pub classify : (received : Option A) (connect_id : ℕ) → Slot A → Sight
  classify x k s =
      if is_disconnected s.peer.state
      then unused
      else if is_connecting s.peer.state
      then unrelated
      else compare x s.address (s.peer.connect_id == k)

  unfoldable pub scan :
      (received : Option A) (connect_id i : ℕ) → Option ℕ → (duplicates : ℕ) → List (Slot A) → Scan
  scan x k i free n [] = scanned free n
  scan x k i free n (s ∷ l) = elim (classify x k s) [
    | unused ↦ scan x k (i + 1) (first i free) n l
    | unrelated ↦ scan x k (i + 1) free n l
    | duplicate ↦ scan x k (i + 1) free (add_size n 1) l
    | own ↦ repeated
    | unset ↦ panicked
  ]

  -- `enet_protocol_handle_connect`, with the index of the peer that it returns.
  unfoldable pub handle_connect : ConnectBody → (connect_data : ℕ) → Network A → Reply A
  handle_connect b d n =
      if ltb b.channel_count 1 || ltb 255 b.channel_count
      then refused
      else answer_at b d n (scan n.received_address b.connect_id 0 none 0 n.slots)
