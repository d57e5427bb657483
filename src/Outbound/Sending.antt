-- ===== src/Outbound/Sending.antt =====
-- The loops over the peers of `enet_protocol_send_outgoing_commands` in src/c/protocol.rs.
use rusty_enet.Base.{
  ℕ, zero, suc, ◌+◌, Bool, true, false, ◌&&◌, ◌||◌, not, List, [], ◌∷◌, ◌++◌, Option, none, some,
  ltb, leb, ◌==◌, if◌then◌else◌, sub32, sub_size, get_elem?, length,
}
use rusty_enet.Peer.{Peer, Context, Event}
use rusty_enet.Connection.Ending.{peer_ping}
use rusty_enet.Acknowledge.{time_difference}
use rusty_enet.Timeout.{check_timeouts}
use rusty_enet.Network.{Addresses, Slot, Network, next_seed, focus, restore}
use rusty_enet.Datagram.{Datagram, send_acknowledgements, remove_sent_unreliable_commands}
use rusty_enet.Datagram.Choosing.{Progress}
use rusty_enet.Datagram.Filling.{Filled, walk, begin_walk, end_filled, check_outgoing_commands}
use rusty_enet.Inbound.{is_dead}
use rusty_enet.Inbound.Commands.{reports}
use rusty_enet.Outbound.{
  Integrity, make_integrity, Callbacks, encode_datagram, all_buffers, initial_size,
  update_packet_loss,
}

-- What the socket is given to send.
pub record Output (A : Type 0) : Type 0 where
  pub destination : A
  pub bytes : List ℕ

-- A host at work, with what it has sent, first to last.
pub record Line (A : Type 0) : Type 0 where
  pub network : Network A
  pub event : Option Event
  pub outbox : List (Output A)

-- The callbacks and the socket, whose answers may differ from one datagram to the next: the argument
-- counts those sent before. A socket that answers nothing has sent the datagram.
pub record Outlet (E : Type 0) : Type 0 where
  pub flush : Context → Context
  pub callbacks : (sent : ℕ) → Callbacks
  pub socket : (sent : ℕ) → Option E

-- How the work on one peer, a pass over all of them, or the whole function ends: with more to do,
-- with an event, with the socket's error, or in a panic.
pub data Sending (A E : Type 0) : Type 0 where
  goes_on : (continue_sending : Bool) → Line A → Sending A E
  has_event : Line A → Sending A E
  fails : E → Line A → Sending A E
  panics : Sending A E

abbrev pub empty_datagram : (using_new_packet : Bool) → Datagram
empty_datagram using_new_packet = record {
  entries = [];
  command_count = 0;
  buffer_count = 1;
  packet_size = initial_size using_new_packet;
  has_sent_time = false;
}

abbrev pub with_continue : Bool → Context → Context
with_continue b c = record c {
  peer = record c.peer { link = record c.peer.link { continue_sending = b } };
}

abbrev pub is_empty {ℓ} : {A : Type ℓ} → List A → Bool
is_empty [] = true
is_empty (_ ∷ _) = false

-- Whether the peer has waited long enough for a packet to be checked for a timeout.
unfoldable pub timeout_is_due : (check_for_timeouts : Bool) → Context → Bool
timeout_is_due check_for_timeouts c =
    check_for_timeouts
    && not (is_empty c.peer.sent_reliable_commands)
    && ltb (sub32 c.host.service_time c.peer.next_timeout) 86400000

-- A ping goes out when nothing was heard for a time and there is room.
unfoldable pub ping_is_due : Filled → Bool
ping_is_due f =
    let c = f.context in
    f.can_ping
    && is_empty c.peer.sent_reliable_commands
    && leb c.peer.ping_interval (time_difference c.host.service_time c.peer.last_receive_time)
    && leb 4 (sub_size c.peer.mtu f.datagram.packet_size)

module _ (flush : Context → Context) where
  -- Without commands to choose from, the choice is left out and a ping may follow.
  unfoldable pub fill : Context → Datagram → Option Filled
  fill c d =
      if is_empty c.peer.outgoing_commands && is_empty c.peer.outgoing_send_reliable_commands
      then some (record {
        context = c;
        datagram = d;
        sent_unreliable = [];
        dropped = [];
        can_ping = true;
      })
      else check_outgoing_commands flush c d

  -- The second choice goes on with the list of the first.
  unfoldable pub check_again : Context → Filled → Option Filled
  check_again c f =
      let l = c.peer.outgoing_commands in
      let r = c.peer.outgoing_send_reliable_commands in
      let s : Progress = record (begin_walk c f.datagram) {
        sent_unreliable = f.sent_unreliable;
        dropped = f.dropped;
      } in
      end_filled flush c (walk c.host.service_time (length l + length r + 1) l r s)

  unfoldable pub fill_ping : Option Filled → Option Filled
  fill_ping none = none
  fill_ping (some f) = if ping_is_due f then check_again (peer_ping f.context) f else some f

-- The peer once its datagram is made up.
unfoldable pub before_send : Context → Context
before_send c = record c { peer = update_packet_loss c.host.service_time c.peer }

-- After the first pass only peers with more to send are visited.
abbrev pub is_visited : (first_pass : Bool) → Peer → Bool
is_visited first_pass p = not (is_dead p.state) && (first_pass || p.continue_sending)

abbrev pub sent_now : Context → Context
sent_now c = record c {
  peer = record c.peer { timing = record c.peer.timing { last_send_time = c.host.service_time } };
}

module _ {E : Type 0} (outlet : Outlet E) (integrity : Option Integrity) where
  abbrev pub datagram_bytes : (sent : ℕ) → Context → Datagram → List ℕ
  datagram_bytes sent c d =
      encode_datagram (outlet.callbacks sent) c.host.has_checksum integrity c.host.service_time
        (sub_size d.packet_size (initial_size c.host.using_new_packet)) d.has_sent_time c.peer
        (all_buffers c.host.packets d.entries)

module _ {A E : Type 0} (outlet : Outlet E) (integrity : Option Integrity) where
  abbrev pub after_send : ℕ → Line A → Context → Option E → Sending A E
  after_send i s c none =
      goes_on c.peer.continue_sending
        (record s { network = restore s.network i c; event = c.event })
  after_send i s c (some e) =
      fails e (record s { network = restore s.network i c; event = c.event })

  -- The datagram goes out, and the unreliable packets in it are freed.
  abbrev pub emit : ℕ → Line A → Option A → Filled → Sending A E
  emit i s none f = panics
  emit i s (some a) f =
      let c = before_send f.context in
      let sent = length s.outbox in
      after_send i
        (record s {
          outbox =
              s.outbox
              ++ (record {
                destination = a;
                bytes = datagram_bytes outlet integrity sent c f.datagram;
              }
                  ∷ []);
        })
        (remove_sent_unreliable_commands outlet.flush f.sent_unreliable (sent_now c))
        (outlet.socket sent)

  unfoldable pub send_filled : ℕ → Line A → Option A → Option Filled → Sending A E
  send_filled i s a none = panics
  send_filled i s a (some f) =
      if f.datagram.command_count == 0
      then goes_on f.context.peer.continue_sending
          (record s { network = restore s.network i f.context; event = f.context.event })
      else emit i s a f

  -- A peer that has given up sends nothing more. An event of that ends the whole function.
  abbrev pub after_timeouts : ℕ → Line A → Option A → Datagram → Bool × Context → Sending A E
  after_timeouts i s a d (false, c) =
      send_filled i s a (fill_ping outlet.flush (fill outlet.flush c d))
  after_timeouts i s a d (true, c) =
      let t : Line A = record s { network = restore s.network i c; event = c.event } in
      if reports c.event then has_event t else goes_on c.peer.continue_sending t

  unfoldable pub send_to_peer :
      (check_for_timeouts : Bool) → ℕ → Line A → Option A → Context → Sending A E
  send_to_peer check_for_timeouts i s a b =
      let (c, d) =
        send_acknowledgements (with_continue false b) (empty_datagram b.host.using_new_packet) in
      after_timeouts i s a d
        (if timeout_is_due check_for_timeouts c then check_timeouts c else (false, c))

  abbrev pub visit_slot :
      (check_for_timeouts first_pass : Bool) → ℕ → Line A → Option (Slot A) → Sending A E
  visit_slot check first_pass i s none = goes_on false s
  visit_slot check first_pass i s (some t) =
      if is_visited first_pass t.peer
      then send_to_peer check i s t.address (focus s.network t.peer s.event)
      else goes_on false s

  -- The inner loop, over the peers from `i` on, `count` of them. Another pass is wanted if any peer
  -- has more to send.
  unfoldable pub send_pass :
      (check_for_timeouts first_pass : Bool) → (count i : ℕ) → (again : Bool) → Line A → Sending A E
  send_pass check first_pass zero i again s = goes_on again s
  send_pass check first_pass (suc count) i again s =
      elim (visit_slot check first_pass i s (get_elem? s.network.slots i)) [
        | goes_on more t ↦ send_pass check first_pass count (i + 1) (again || more) t
        | has_event t ↦ has_event t
        | fails e t ↦ fails e t
        | panics ↦ panics
      ]

  -- The outer loop. `goes_on true` says that the fuel was not enough.
  unfoldable pub send_passes :
      (fuel : ℕ) → (check_for_timeouts first_pass : Bool) → Line A → Sending A E
  send_passes zero check first_pass s = goes_on true s
  send_passes (suc fuel) check first_pass s =
      elim (send_pass check first_pass (length s.network.slots) 0 false s) [
        | goes_on true t ↦ send_passes fuel check false t
        | goes_on false t ↦ goes_on false t
        | has_event t ↦ has_event t
        | fails e t ↦ fails e t
        | panics ↦ panics
      ]

module _ {A : Type 0} where
  abbrev pub first_address : List (Slot A) → Option A
  first_address [] = none
  first_address (s ∷ l) = s.address

module _ {A E : Type 0} (addresses : Addresses A) (outlet : Outlet E) where
  -- The port is that of the first peer, whatever peer is sent to. One of 65535 overflows.
  abbrev pub with_integrity :
      (fuel : ℕ) → (check_for_timeouts : Bool) → Line A → Option A → Sending A E
  with_integrity fuel check s none = panics
  with_integrity fuel check s (some a) =
      let seed = s.network.random_seed in
      let t : Line A = record s {
        network = record s.network { random_seed = next_seed (next_seed seed) };
      } in
      if addresses.port a == 65535
      then panics
      else send_passes outlet (some (make_integrity seed (addresses.port a))) fuel check true t

  -- `enet_protocol_send_outgoing_commands`.
  unfoldable pub send_outgoing_commands :
      (fuel : ℕ) → (check_for_timeouts : Bool) → Line A → Sending A E
  send_outgoing_commands fuel check s =
      if s.network.host.using_new_packet
      then with_integrity fuel check s (first_address s.network.slots)
      else send_passes outlet none fuel check true s
