-- ===== src/Network/Sessions.antt =====
-- The session numbers of a peer that answers a request: `enet_protocol_handle_connect`.
use rusty_enet.Base.{ℕ, ◌<◌, ◌≡◌, ◌≢◌, sym, subst, true, false, none, some, arith}
use rusty_enet.Protocol.{ConnectBody, verify_connect}
use rusty_enet.Connection.Ending.{control}
use rusty_enet.Outgoing.Frame.{queue_outgoing_command-SameLink}
use rusty_enet.Peer.{Peer, Host}
use rusty_enet.Network.Agreement.{handle_connect-IsAnswer}
use rusty_enet.Network.{Addresses, Network, find_peer}
use rusty_enet.Network.Answering.{
  renew_session, take_request, answer_body, start_answer, answered, handle_connect,
}

renew_session_ne :
    (offered old : ℕ) → (renew_session offered old ≢ old) × (renew_session offered old < 4)
unfolding renew_session
renew_session_ne o n = (λ e. ground arith, ground arith)

pub record IsRenewed (p q : Peer) : Type 0 where
  pub incoming : q.incoming_session_id ≢ p.incoming_session_id
  pub incoming_fits : q.incoming_session_id < 4
  pub outgoing : q.outgoing_session_id ≢ p.outgoing_session_id
  pub outgoing_fits : q.outgoing_session_id < 4

start_answer-IsRenewed :
    (h : Host) (b : ConnectBody) (d : ℕ) (p : Peer) → IsRenewed p (start_answer h b d p).peer
unfolding start_answer take_request
start_answer-IsRenewed h b d p =
    let q = take_request h b d p in
    ground (
      arith,
      queue_outgoing_command-SameLink (record { host = h; peer = q; event = none })
          (control true false (verify_connect (answer_body h b.window_size q))) none 0 0,
      renew_session_ne b.incoming_session_id p.outgoing_session_id,
      renew_session_ne b.outgoing_session_id p.incoming_session_id,
    )

-- A peer that answers a request has session numbers that differ from those of its last connection,
-- in both directions, and fit two bits, whatever the request holds.
pub handle_connect-IsRenewed :
    {A : Type 0} (addresses : Addresses A) (b : ConnectBody) (d i : ℕ) (n m : Network A) (q : Peer)
    → handle_connect addresses b d n ≡ answered i m
    → find_peer m i ≡ some q
    → (p : Peer) × (find_peer n i ≡ some p) × IsRenewed p q
handle_connect-IsRenewed addresses b d i n m q e f =
    let a = handle_connect-IsAnswer addresses b d n m i q e f in
    (
      a.before,
      a.found,
      subst (IsRenewed a.before) (sym a.started) (start_answer-IsRenewed n.host b d a.before),
    )
