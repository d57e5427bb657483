-- ===== src/Network/Terms.antt =====
-- The terms of a request and of its answer, and of the peers at both ends.
use rusty_enet.Base.{
  ℕ, ◌≤◌, ◌≡◌, refl, ap, ◌∙◌, true, false, List, [], ◌∷◌, ◌++◌, Option, none, some, arith,
}
use rusty_enet.Protocol.{Body, ConnectBody, connect, verify_connect}
use rusty_enet.Outgoing.{
  stamp, number_command, number_peer, enqueue, prepare, setup_outgoing_command,
  queue_outgoing_command,
}
use rusty_enet.Peer.{connecting, OutgoingCommand, Peer, Host, Context, accepted}
use rusty_enet.Connection.Ending.{queue_control}
use rusty_enet.Connection.{notify_connect}
use rusty_enet.Limits.{clamp_mtu}
use rusty_enet.Handshake.{answers, agree, take_answer, handle_verify_connect}
use rusty_enet.Handshake.Agreement.{remove_sent_reliable_command-Same}
use rusty_enet.Network.{prepare_request, request, start_request}
use rusty_enet.Network.Answering.{take_request, answer_body, start_answer}

-- What a queued command on the control channel leaves of a peer.
pub record SameTerms (p q : Peer) : Type 0 where
  pub link : p.link ≡ q.link
  pub throttle : p.throttle ≡ q.throttle
  pub mtu : p.mtu ≡ q.mtu
  pub window_size : p.window_size ≡ q.window_size
  pub channel_count : p.channel_count ≡ q.channel_count

pub queue_control-SameTerms :
    (b : Body) (c : Context) → SameTerms (queue_control true false b c).peer c.peer
unfolding queue_outgoing_command setup_outgoing_command number_command number_peer enqueue
queue_control-SameTerms b c = ground arith

abbrev last : List OutgoingCommand → Option Body
last [] = none
last (o ∷ []) = some o.command.body
last (o ∷ x ∷ l) = last (x ∷ l)

last-append :
    (l : List OutgoingCommand) (o : OutgoingCommand) → last (l ++ (o ∷ [])) ≡ some o.command.body
last-append [] o = refl
last-append (x ∷ []) o = refl
last-append (x ∷ y ∷ l) o = last-append (y ∷ l) o

-- The control command that a peer queued last.
abbrev pub last_queued : Peer → Option Body
last_queued p = last p.outgoing_commands

queue_control-last :
    (b : Body) (c : Context)
    → ((u g : ℕ) → stamp u g b ≡ b)
    → last_queued (queue_control true false b c).peer ≡ some b
unfolding queue_outgoing_command setup_outgoing_command number_command number_peer enqueue prepare
queue_control-last b c h = last-append c.peer.outgoing_commands _ ∙ ap some (h _ _)

pub start_request-last :
    (h : Host) (n k d : ℕ) (p : Peer)
    → last_queued (start_request h n k d p).peer
      ≡ some (connect (request h (prepare_request h n k p)) d)
unfolding start_request stamp
start_request-last h n k d p = queue_control-last _ _ (λ u g. refl)

pub start_answer-last :
    (h : Host) (b : ConnectBody) (d : ℕ) (p : Peer)
    → last_queued (start_answer h b d p).peer
      ≡ some (verify_connect (answer_body h b.window_size (take_request h b d p)))
unfolding start_answer stamp
start_answer-last h b d p = queue_control-last _ _ (λ u g. refl)

-- What the two peers agree on: how each names the other, the connection and its limits.
pub record IsShared (p q : Peer) : Type 0 where
  pub outgoing_peer_id : p.outgoing_peer_id ≡ q.incoming_peer_id
  pub incoming_peer_id : p.incoming_peer_id ≡ q.outgoing_peer_id
  pub outgoing_session_id : p.outgoing_session_id ≡ q.incoming_session_id
  pub incoming_session_id : p.incoming_session_id ≡ q.outgoing_session_id
  pub connect_id : p.connect_id ≡ q.connect_id
  pub mtu : p.mtu ≡ q.mtu
  pub channel_count : p.channel_count ≡ q.channel_count

-- The terms of a peer that asks, as the request states them.
pub record IsAsking (p : Peer) (b : ConnectBody) : Type 0 where
  pub state : p.state ≡ connecting
  pub connect_id : b.connect_id ≡ p.connect_id
  pub outgoing_peer_id : b.outgoing_peer_id ≡ p.incoming_peer_id
  pub mtu : b.mtu ≡ p.mtu
  pub mtu_minimum : 576 ≤ p.mtu
  pub mtu_maximum : p.mtu ≤ 4096
  pub channel_count : b.channel_count ≡ p.channel_count
  pub interval : b.packet_throttle_interval ≡ p.packet_throttle_interval
  pub acceleration : b.packet_throttle_acceleration ≡ p.packet_throttle_acceleration
  pub deceleration : b.packet_throttle_deceleration ≡ p.packet_throttle_deceleration

-- The answering peer.
pub record IsAnswering (b : ConnectBody) (q : Peer) (v : ConnectBody) : Type 0 where
  pub connect_id : b.connect_id ≡ q.connect_id
  pub connect_id' : v.connect_id ≡ q.connect_id
  pub peer_id : b.outgoing_peer_id ≡ q.outgoing_peer_id
  pub peer_id' : v.outgoing_peer_id ≡ q.incoming_peer_id
  pub session : v.incoming_session_id ≡ q.outgoing_session_id
  pub session' : v.outgoing_session_id ≡ q.incoming_session_id
  pub mtu : v.mtu ≡ q.mtu
  pub mtu_maximum : q.mtu ≤ clamp_mtu b.mtu
  pub mtu_minimum : 576 ≤ q.mtu
  pub channel_count : v.channel_count ≡ q.channel_count
  pub channels_offered : q.channel_count ≤ b.channel_count
  pub channels_minimum : 1 ≤ q.channel_count
  pub channels_maximum : q.channel_count ≤ 255
  pub interval : v.packet_throttle_interval ≡ b.packet_throttle_interval
  pub acceleration : v.packet_throttle_acceleration ≡ b.packet_throttle_acceleration
  pub deceleration : v.packet_throttle_deceleration ≡ b.packet_throttle_deceleration

notify_connect-IsShared :
    (c : Context) (q : Peer) → IsShared c.peer q → IsShared (notify_connect c).peer q
unfolding notify_connect
notify_connect-IsShared c q s = ground arith

take_answer-IsShared :
    (b v : ConnectBody) (c : Context) (q : Peer)
    → IsAsking c.peer b
    → IsAnswering b q v
    → IsShared (take_answer v c).peer q
unfolding take_answer agree clamp_mtu
take_answer-IsShared b v c q a w = ground (arith, remove_sent_reliable_command-Same 1 0xff c)

pub handle_verify_connect-IsShared :
    (b v : ConnectBody) (c : Context) (q : Peer)
    → IsAsking c.peer b
    → IsAnswering b q v
    → (d : Context) × (handle_verify_connect v c ≡ accepted d) × IsShared d.peer q
unfolding handle_verify_connect answers
handle_verify_connect-IsShared b v c q a w = (
  notify_connect (take_answer v c),
  ground arith,
  notify_connect-IsShared (take_answer v c) q (take_answer-IsShared b v c q a w),
)

pub start_request-IsAsking :
    (h : Host) (n k d : ℕ) (p : Peer)
    → 576 ≤ h.mtu
    → h.mtu ≤ 4096
    → IsAsking (start_request h n k d p).peer (request h (prepare_request h n k p))
unfolding start_request prepare_request request
start_request-IsAsking h n k d p l u =
    let q = prepare_request h n k p in
    ground (
      arith,
      queue_control-SameTerms (connect (request h q) d)
          (record { host = h; peer = q; event = none }),
    )

pub start_answer-IsAnswering :
    (h : Host) (b : ConnectBody) (d : ℕ) (p : Peer)
    → 576 ≤ h.mtu
    → 1 ≤ h.channel_limit
    → 1 ≤ b.channel_count
    → b.channel_count ≤ 255
    → IsAnswering b (start_answer h b d p).peer (answer_body h b.window_size (take_request h b d p))
unfolding start_answer take_request answer_body clamp_mtu
start_answer-IsAnswering h b d p l u m n =
    let q = take_request h b d p in
    ground (
      arith,
      queue_control-SameTerms (verify_connect (answer_body h b.window_size q))
          (record { host = h; peer = q; event = none }),
    )
