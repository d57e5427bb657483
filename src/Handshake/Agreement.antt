-- ===== src/Handshake/Agreement.antt =====
-- What both ends agree on when a connection request is answered, and the counts of the host.
use rusty_enet.Base.{ℕ, ◌+◌, ◌<◌, ◌≤◌, ◌^◌, ◌≡◌, refl, Option, none, some, Bool, arith, min}
use rusty_enet.Protocol.{ConnectBody, command_number}
use rusty_enet.Peer.{connecting, zombie, OutgoingCommand, Peer, Context, accepted, context}
use rusty_enet.Connection.{notify_connect, with_event_data}
use rusty_enet.Connection.Counters.{IsCounted, notify_connect-IsCounted, dispatch_state-IsCounted}
use rusty_enet.Outgoing.{with_channel}
use rusty_enet.Limits.{clamp_window, clamp_mtu}
use rusty_enet.Acknowledge.Removing.{
  complete_removal, Removal, find_removal, on_window, finish_packet, remove_sent_reliable_command,
}
use rusty_enet.Handshake.{agree, take_answer, handle_verify_connect}

-- What removing a sent command leaves of a peer,
pub record SamePeer (p q : Peer) : Type 0 where
  pub link : p.link ≡ q.link
  pub incoming_bandwidth : p.incoming_bandwidth ≡ q.incoming_bandwidth
  pub mtu : p.mtu ≡ q.mtu
  pub window_size : p.window_size ≡ q.window_size
  pub channel_count : p.channel_count ≡ q.channel_count

-- and of the host's counts.
pub record Same (c d : Context) : Type 0 where
  pub peer : SamePeer c.peer d.peer
  pub connected : c.host.connected_peers ≡ d.host.connected_peers
  pub limited : c.host.bandwidth_limited_peers ≡ d.host.bandwidth_limited_peers

abbrev Remains : Peer → Option Removal → Type 0
Remains p none = Unit {0}
Remains p (some r) = SamePeer r.remaining p

find_removal-Remains : (n i : ℕ) (p : Peer) → Remains p (find_removal n i p)
unfolding find_removal
find_removal-Remains n i p = ground arith

on_window-SamePeer : (n i : ℕ) (p : Peer) → SamePeer (on_window n i p) p
unfolding with_channel
on_window-SamePeer n i p = ground arith

finish_packet-Same : (s : Bool) (o : OutgoingCommand) (c : Context) → Same (finish_packet s o c) c
unfolding finish_packet
finish_packet-Same s o c = ground arith

complete_removal-Same :
    (n i : ℕ) (r : Removal) (c : Context)
    → SamePeer r.remaining c.peer
    → Same (complete_removal n i r c) c
unfolding complete_removal
complete_removal-Same n i r c v = ground (
  arith,
  on_window-SamePeer n i r.remaining,
  finish_packet-Same r.was_sent r.removed (record c { peer = on_window n i r.remaining }),
)

pub remove_sent_reliable_command-Same :
    (n i : ℕ) (c : Context) → Same (remove_sent_reliable_command n i c).1 c
unfolding remove_sent_reliable_command
remove_sent_reliable_command-Same n i c =
    go (find_removal n i c.peer) (find_removal-Remains n i c.peer)
  where
    go :
        (o : Option Removal)
        → Remains c.peer o
        → Same
            (elim o as (λ x. ℕ × Context) [
              | none ↦ (0, c)
              | some r ↦ (command_number r.removed.command.body, complete_removal n i r c)
            ]).1
            c
    go none v = record {
      peer = record {
        link = refl;
        incoming_bandwidth = refl;
        mtu = refl;
        window_size = refl;
        channel_count = refl;
      };
      connected = refl;
      limited = refl;
    }
    go (some r) v = complete_removal-Same n i r c v

-- A peer that is connecting is not counted, so its bandwidth may change.
take_answer-IsCounted :
    (n m : ℕ) (b : ConnectBody) (c : Context)
    → c.peer.state ≡ connecting
    → IsCounted n m c
    → IsCounted n m (take_answer b c)
unfolding take_answer agree
take_answer-IsCounted n m b c e v = ground (arith, remove_sent_reliable_command-Same 1 0xff c)

-- An answer to a connection request leaves a host's two counts right on every path: ignored,
-- refused or accepted, where it brings a new bandwidth limit. The other peers add `n` and `m` to
-- the counts, and are fewer than 2 ^ 64 - 1.
pub handle_verify_connect-IsCounted :
    (n m : ℕ) (b : ConnectBody) (c : Context)
    → n + 1 < 2 ^ 64
    → m + 1 < 2 ^ 64
    → IsCounted n m c
    → IsCounted n m (context (handle_verify_connect b c))
unfolding handle_verify_connect
handle_verify_connect-IsCounted n m b c hn hm v = ground (
  arith,
  take_answer-IsCounted n m b c,
  notify_connect-IsCounted n m hn hm (take_answer b c),
  dispatch_state-IsCounted n m hn hm zombie (with_event_data 0 c),
)

notify_connect-flow : (c : Context) → (notify_connect c).peer.flow ≡ c.peer.flow
unfolding notify_connect
notify_connect-flow c = ground arith

-- What a peer's limits are after an answer, against what they were.
pub record Agreed (p q : Peer) : Type 0 where
  pub mtu : q.mtu ≤ p.mtu
  pub mtu_minimum : min 576 p.mtu ≤ q.mtu
  pub window_size : q.window_size ≤ p.window_size
  pub window_minimum : min 4096 p.window_size ≤ q.window_size

-- Answering a connection request never raises a peer's mtu or window size, and does not take the
-- mtu below 576 or the window size below 4096 where they were not below before, whatever the
-- answer holds.
pub handle_verify_connect-Agreed :
    (b : ConnectBody) (c d : Context)
    → handle_verify_connect b c ≡ accepted d
    → Agreed c.peer d.peer
unfolding handle_verify_connect take_answer agree clamp_mtu clamp_window
handle_verify_connect-Agreed b c d e =
    ground
      (arith, remove_sent_reliable_command-Same 1 0xff c, notify_connect-flow (take_answer b c))
