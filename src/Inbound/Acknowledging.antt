-- ===== src/Inbound/Acknowledging.antt =====
-- A reliable packet that arrives is kept and acknowledged: one round of the loop of
-- `enet_protocol_handle_incoming_commands` in src/c/protocol.rs.
use rusty_enet.Base.{
  ℕ, ◌*◌, ◌^◌, ◌<◌, ◌≡◌, ◌≢◌, refl, ap, ◌∙◌, true, false, List, [], ◌∷◌, ◌++◌, some, arith, length,
  leb, ◌&&◌, get_elem?,
}
use rusty_enet.Protocol.{Command, send_reliable}
use rusty_enet.Window.{in_window, in_gap, withholds, queue_acknowledgement}
use rusty_enet.Window.Order.{ahead}
use rusty_enet.Peer.{connected, Channel, Peer, Context, accepted}
use rusty_enet.Incoming.Arriving.{Arrival, queued, new_incoming, queue_incoming_command}
use rusty_enet.Incoming.Placing.{keys, Has}
use rusty_enet.Incoming.Singles.{IsOrderly}
use rusty_enet.Incoming.Stream.{IsPacketFor}
use rusty_enet.Incoming.Taking.{IsTaken, queue_incoming_command-IsQueued}
use rusty_enet.Receive.{takes_packets, fits, whole, handle_send_reliable}
use rusty_enet.Network.{Addresses, Network, find_peer, focus}
use rusty_enet.Wire.Header.{Header}
use rusty_enet.Inbound.Commands.{
  Allocator, Reading, Handled, goes_on, with_answer, answer_command, acknowledges, handle_body,
  reading, finish_command, after_handler, handle_at, handle_for, handle_command,
}
use rusty_enet.Inbound.Leading.{peer_at-set_peer}

-- A number in the window is acknowledged also where the channel has moved past it since.
in_gap_after :
    (current next sequence : ℕ)
    → current < 2 ^ 16
    → next < 2 ^ 16
    → sequence < 2 ^ 16
    → in_window current sequence ≡ true
    → ahead current next < 7 * 4096
    → in_gap next sequence ≡ false
unfolding in_window in_gap
in_gap_after current next sequence h k l e f = ground arith

-- What an acknowledgement changes of a connected peer.
record IsAnswered (t : ℕ) (k : Command) (p q : Peer) : Type 0 where
  channels : q.channels ≡ p.channels
  dispatched : q.dispatched_commands ≡ p.dispatched_commands
  state : q.state ≡ p.state
  acknowledged :
      q.acknowledgements ≡ p.acknowledgements ++ (record { sent_time = t; command = k } ∷ [])

answer_command-IsAnswered :
    (t : ℕ) (k : Command) (p : Peer) (ch : Channel)
    → p.state ≡ connected
    → get_elem? p.channels k.channel_id ≡ some ch
    → in_gap ch.incoming_reliable_sequence_number k.reliable_sequence_number ≡ false
    → IsAnswered t k p (answer_command t k p)
unfolding answer_command acknowledges queue_acknowledgement withholds
answer_command-IsAnswered t k p ch e f g = ground arith

-- The command `k` is kept, as the arrival `a` at the peer `i`, and acknowledged.
pub record IsAcknowledged {A : Type 0} (h : Header) (k : Command) (a : Arrival) (i : ℕ)
    (ch : Channel) (p : Peer) (s : Reading A) (x : Handled A) : Type 0 where
  pub after : Reading A
  pub goes : x ≡ goes_on after
  pub peer : Peer
  pub found : find_peer after.network i ≡ some peer
  pub acknowledged :
      peer.acknowledgements
      ≡ p.acknowledgements ++ (record { sent_time = h.sent_time; command = k } ∷ [])
  pub taken :
      IsTaken k.channel_id a ch (focus s.network p s.event) (focus after.network peer after.event)

module _ {A : Type 0} (addresses : Addresses A) (flush : Context → Context)
    (allocator : Allocator) where
  handle_body-accepted :
      (k : Command) (rest : List ℕ) (c d : Context) (len : ℕ)
      → k.body ≡ send_reliable len
      → (takes_packets k.channel_id c.peer && fits len rest c.host) ≡ true
      → queue_incoming_command (whole 1 (allocator.address (length rest)) len k rest) c ≡ queued d
      → handle_body flush allocator k rest c k.body ≡ accepted d
  unfolding handle_body handle_send_reliable
  handle_body-accepted k rest c d len e f g =
      ap (handle_body flush allocator k rest c) e ∙ ground arith

  finish_command-goes_on :
      (h : Header) (k : Command) (n : Network A) (i : ℕ) (c : Context)
      → k.flag_acknowledge ≡ true
      → h.flag_sent_time ≡ true
      → finish_command h k n i c ≡ goes_on (reading n i (with_answer h.sent_time k c))
  unfolding finish_command
  finish_command-goes_on h k n i c e f = ground arith

  -- A reliable packet that arrives is kept and acknowledged: one round of the loop over the
  -- commands queues it, so that it and what waited before it are, in some order, those that are
  -- handed on and those that wait, adds one acknowledgement with its number and the datagram's
  -- time to those that the peer has to send, and goes on. The acknowledgement is not withheld
  -- though the channel may have moved past the number by then. The peer is known and connected,
  -- takes packets on the channel, with data waiting below the limit; the packet's length is
  -- allowed and its bytes are there; it asks to be acknowledged, and the datagram has a time; its
  -- number is in the window, not the current one, and does not wait yet; the channel is in order
  -- and only whole reliable packets wait at it.
  pub handle_command-IsAcknowledged :
      (h : Header) (k : Command) (rest : List ℕ) (s : Reading A) (i len : ℕ) (p : Peer)
      (ch : Channel)
      → s.peer ≡ some i
      → find_peer s.network i ≡ some p
      → p.state ≡ connected
      → k.body ≡ send_reliable len
      → k.flag_acknowledge ≡ true
      → h.flag_sent_time ≡ true
      → (takes_packets k.channel_id p && fits len rest s.network.host) ≡ true
      → leb s.network.host.maximum_waiting_data p.total_waiting_data ≡ false
      → get_elem? p.channels k.channel_id ≡ some ch
      → IsOrderly ch
      → k.reliable_sequence_number < 2 ^ 16
      → in_window ch.incoming_reliable_sequence_number k.reliable_sequence_number ≡ true
      → k.reliable_sequence_number ≢ ch.incoming_reliable_sequence_number
      → ¬ Has
          (ahead ch.incoming_reliable_sequence_number k.reliable_sequence_number)
          (keys ch.incoming_reliable_sequence_number ch.incoming_reliable_commands)
      → IsAcknowledged h k
          (whole 1 (allocator.address (length rest)) len k rest)
          i
          ch
          p
          s
          (handle_command addresses flush allocator h k rest s)
  unfolding handle_command new_incoming
  handle_command-IsAcknowledged h k rest s i len p ch at is_at up b r sent fit below e v lt w ne z =
      let n = s.network in
      let a = whole 1 (allocator.address (length rest)) len k rest in
      let c = focus n p s.event in
      let packet : IsPacketFor k.channel_id a = record {
        data_length = len;
        is_reliable = b;
        to_channel = refl;
        whole = refl;
        number_fits = lt;
      } in
      let (d, f, y) =
        queue_incoming_command-IsQueued k.channel_id a ch c packet e v below w ne z
          (λ x. absurd (ground (arith, x, up))) in
      let t = y.taken in
      let gap =
        in_gap_after ch.incoming_reliable_sequence_number
          t.channel.incoming_reliable_sequence_number k.reliable_sequence_number
          v.queue.current_fits t.number_fits lt w t.moves in
      let m = answer_command-IsAnswered h.sent_time k d.peer t.channel (y.state ∙ up) t.found gap in
      let q = answer_command h.sent_time k d.peer in
      let body = handle_body-accepted k rest c d len b fit f in
      record {
        after = reading n i (with_answer h.sent_time k d);
        goes =
            ap (handle_for addresses flush allocator h k rest s) at
            ∙ ap (handle_at addresses flush allocator h k rest s i) is_at
            ∙ ap (after_handler h k n i) body
            ∙ finish_command-goes_on h k n i d r sent;
        peer = q;
        found = peer_at-set_peer n.slots i p q is_at;
        acknowledged =
            m.acknowledged
            ∙ ap (λ l. l ++ (record { sent_time = h.sent_time; command = k } ∷ []))
                y.acknowledgements;
        taken = record {
          channel = t.channel;
          found = ap (λ l. get_elem? l k.channel_id) m.channels ∙ t.found;
          number_fits = t.number_fits;
          moves = t.moves;
          delivered = t.delivered;
          handed = m.dispatched ∙ t.handed;
          whole = t.whole;
        };
      }
