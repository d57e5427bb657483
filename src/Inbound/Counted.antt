-- ===== src/Inbound/Counted.antt =====
-- A command from a peer leaves the counts of its host right: the handlers of src/c/protocol.rs.
use rusty_enet.Base.{ℕ, ◌+◌, ◌<◌, ◌^◌, List, arith, max}
use rusty_enet.Protocol.{
  Command, Body, acknowledge, connect, verify_connect, disconnect, ping, send_reliable,
  send_unreliable, send_fragment, send_unsequenced, bandwidth_limit, throttle_configure,
  send_unreliable_fragment,
}
use rusty_enet.Peer.{Context, context}
use rusty_enet.Connection.Counters.{
  IsQuiet, quiet-IsCounted, IsCounted, notify_connect-IsCounted, notify_disconnect-IsCounted,
  handle_disconnect-IsCounted, leave_later-IsCounted,
}
use rusty_enet.Limits.{handle_throttle_configure, handle_ping}
use rusty_enet.Limits.Bounds.{handle_bandwidth_limit-IsCounted}
use rusty_enet.Acknowledge.{take_sample, received_sent_time, time_difference}
use rusty_enet.Acknowledge.Removing.{acknowledged, handle_acknowledge, remove_sent_reliable_command}
use rusty_enet.Handshake.Agreement.{
  remove_sent_reliable_command-Same, handle_verify_connect-IsCounted,
}
use rusty_enet.Inbound.Commands.{Allocator, handle_body}
use rusty_enet.Inbound.Quiet.{
  handle_send_reliable-IsQuiet, handle_send_unreliable-IsQuiet, handle_send_unsequenced-IsQuiet,
  handle_send_fragment-IsQuiet, handle_send_unreliable_fragment-IsQuiet,
}

take_sample-IsQuiet :
    (t r : ℕ) (c : Context) → IsQuiet c (record c { peer = take_sample t r c.peer })
unfolding take_sample
take_sample-IsQuiet t r c = ground arith

module _ (n m : ℕ) (n_fits : n + 1 < 2 ^ 64) (m_fits : m + 1 < 2 ^ 64)
    (flush : Context → Context) where
  acknowledged-IsCounted :
      (k : ℕ) (c : Context) → IsCounted n m c → IsCounted n m (context (acknowledged flush k c))
  unfolding acknowledged
  acknowledged-IsCounted k c v = ground (
    arith,
    notify_connect-IsCounted n m n_fits m_fits c,
    notify_disconnect-IsCounted n m n_fits m_fits c,
    leave_later-IsCounted n m n_fits m_fits flush c.peer.event_data c,
  )

  removed-IsCounted :
      (t r number i : ℕ) (c : Context)
      → IsCounted n m c
      → IsCounted n m
          (remove_sent_reliable_command number i (record c { peer = take_sample t r c.peer })).1
  removed-IsCounted t r number i c v =
      let d : Context = record c { peer = take_sample t r c.peer } in
      ground (arith, take_sample-IsQuiet t r c, remove_sent_reliable_command-Same number i d)

  -- An acknowledgement leaves a host's two counts right.
  pub handle_acknowledge-IsCounted :
      (i number time : ℕ) (c : Context)
      → IsCounted n m c
      → IsCounted n m (context (handle_acknowledge flush i number time c))
  unfolding handle_acknowledge
  handle_acknowledge-IsCounted i number time c v =
      let now = c.host.service_time in
      let rtt = max (time_difference now (received_sent_time now time)) 1 in
      let r =
        remove_sent_reliable_command number i (record c { peer = take_sample now rtt c.peer }) in
      ground (arith, acknowledged-IsCounted r.0 r.1 (removed-IsCounted now rtt number i c v))

  handle_ping-IsCounted : (c : Context) → IsCounted n m c → IsCounted n m (context (handle_ping c))
  unfolding handle_ping
  handle_ping-IsCounted c v = ground arith

  handle_throttle_configure-IsCounted :
      (i a d : ℕ) (c : Context)
      → IsCounted n m c
      → IsCounted n m (context (handle_throttle_configure i a d c))
  unfolding handle_throttle_configure
  handle_throttle_configure-IsCounted i a d c v = ground arith

  module _ (allocator : Allocator) (k : Command) (rest : List ℕ) (c : Context)
      (c-IsCounted : IsCounted n m c) where
    -- Whatever a peer's command is, the host's two counts stay right.
    pub handle_body-IsCounted :
        (b : Body) → IsCounted n m (context (handle_body flush allocator k rest c b))
    unfolding handle_body
    handle_body-IsCounted (acknowledge number time) =
        handle_acknowledge-IsCounted k.channel_id number time c c-IsCounted
    handle_body-IsCounted (connect b d) = c-IsCounted
    handle_body-IsCounted (verify_connect b) =
        handle_verify_connect-IsCounted n m b c n_fits m_fits c-IsCounted
    handle_body-IsCounted (disconnect d) =
        handle_disconnect-IsCounted n m n_fits m_fits k.flag_acknowledge d c c-IsCounted
    handle_body-IsCounted ping = handle_ping-IsCounted c c-IsCounted
    handle_body-IsCounted (send_reliable l) =
        quiet-IsCounted n m c _ (handle_send_reliable-IsQuiet _ l k rest c) c-IsCounted
    handle_body-IsCounted (send_unreliable u l) =
        quiet-IsCounted n m c _ (handle_send_unreliable-IsQuiet _ l k rest c) c-IsCounted
    handle_body-IsCounted (send_fragment f) =
        quiet-IsCounted n m c _ (handle_send_fragment-IsQuiet _ _ f k rest c) c-IsCounted
    handle_body-IsCounted (send_unsequenced g l) =
        quiet-IsCounted n m c _ (handle_send_unsequenced-IsQuiet _ g l k rest c) c-IsCounted
    handle_body-IsCounted (bandwidth_limit i o) =
        handle_bandwidth_limit-IsCounted n m i o c n_fits m_fits c-IsCounted
    handle_body-IsCounted (throttle_configure i a d) =
        handle_throttle_configure-IsCounted i a d c c-IsCounted
    handle_body-IsCounted (send_unreliable_fragment f) =
        quiet-IsCounted n m c _ (handle_send_unreliable_fragment-IsQuiet _ _ f k rest c) c-IsCounted
