-- ===== src/Outbound/Counted.antt =====
-- Sending to a peer leaves the counts of its host right: the functions of src/c/protocol.rs that
-- `enet_protocol_send_outgoing_commands` calls.
use rusty_enet.Base.{
  ℕ, ◌+◌, ◌<◌, ◌^◌, ◌≡◌, refl, true, false, List, [], ◌∷◌, Option, none, some, arith, length,
}
use rusty_enet.Protocol.{ping}
use rusty_enet.Peer.{zombie, OutgoingCommand, Acknowledgement, Context}
use rusty_enet.Connection.{dispatch_state}
use rusty_enet.Connection.Counters.{IsCounted, dispatch_state-IsCounted, leave_later-IsCounted}
use rusty_enet.Connection.Ending.{peer_ping, control}
use rusty_enet.Outgoing.Frame.{queue_outgoing_command-SameLink}
use rusty_enet.Datagram.{
  Datagram, write, acknowledge_command, acknowledge_all, send_acknowledgements, leave_when_done,
  remove_sent_unreliable_commands,
}
use rusty_enet.Datagram.Choosing.{Progress}
use rusty_enet.Datagram.Filling.{walk, begin_walk, Filled, end_filled, check_outgoing_commands}
use rusty_enet.Outbound.{update_packet_loss}
use rusty_enet.Outbound.Sending.{fill, check_again, fill_ping, before_send, sent_now}
use rusty_enet.Outbound.Walking.{Walks, walk-Walks}

module _ (n m : ℕ) (n_fits : n + 1 < 2 ^ 64) (m_fits : m + 1 < 2 ^ 64) where
  acknowledge_all-IsCounted :
      (l : List Acknowledgement) (c : Context) (d : Datagram)
      → IsCounted n m c
      → IsCounted n m (acknowledge_all l c d).0
  unfolding acknowledge_all
  acknowledge_all-IsCounted [] c d v = ground arith
  acknowledge_all-IsCounted (a ∷ l) c d v =
      let e = write (record { command = acknowledge_command a; part = none }) d in
      let z = dispatch_state-IsCounted n m n_fits m_fits zombie c v in
      ground (
        arith,
        acknowledge_all-IsCounted l c e,
        acknowledge_all-IsCounted l (dispatch_state zombie c) e z,
      )

  pub send_acknowledgements-IsCounted :
      (c : Context) (d : Datagram) → IsCounted n m c → IsCounted n m (send_acknowledgements c d).0
  unfolding send_acknowledgements
  send_acknowledgements-IsCounted c d v = acknowledge_all-IsCounted c.peer.acknowledgements c d v

  module _ (flush : Context → Context) where
    leave_when_done-IsCounted :
        (c : Context) → IsCounted n m c → IsCounted n m (leave_when_done flush c)
    unfolding leave_when_done
    leave_when_done-IsCounted c v =
        ground (arith, leave_later-IsCounted n m n_fits m_fits flush c.peer.event_data c)

    pub remove_sent_unreliable_commands-IsCounted :
        (l : List OutgoingCommand) (c : Context)
        → IsCounted n m c
        → IsCounted n m (remove_sent_unreliable_commands flush l c)
    unfolding remove_sent_unreliable_commands
    remove_sent_unreliable_commands-IsCounted [] c v = v
    remove_sent_unreliable_commands-IsCounted (o ∷ l) c v =
        leave_when_done-IsCounted _ (record { connected = v.connected; limited = v.limited })

    abbrev pub FilledIsCounted : Option Filled → Type 0
    FilledIsCounted none = Unit {0}
    FilledIsCounted (some f) = IsCounted n m f.context

    end_filled-IsCounted :
        (c : Context) (s : Progress) (o : Option Progress)
        → s.peer ≡ c.peer
        → Walks s o
        → IsCounted n m c
        → FilledIsCounted (end_filled flush c o)
    end_filled-IsCounted c s none e w v = tt
    end_filled-IsCounted c s (some t) e w v =
        let d : Context = record c {
          host = record c.host { packets = t.packets };
          peer = t.peer;
        } in
        ground (arith, leave_when_done-IsCounted d)

    pub fill-IsCounted :
        (c : Context) (d : Datagram) → IsCounted n m c → FilledIsCounted (fill flush c d)
    unfolding fill check_outgoing_commands
    fill-IsCounted c d v =
        let l = c.peer.outgoing_commands in
        let r = c.peer.outgoing_send_reliable_commands in
        let s = begin_walk c d in
        let k = length l + length r + 1 in
        ground (
          arith,
          end_filled-IsCounted c s (walk c.host.service_time k l r s) refl
              (walk-Walks c.host.service_time k l r s) v,
        )

    check_again-IsCounted :
        (c : Context) (f : Filled) → IsCounted n m c → FilledIsCounted (check_again flush c f)
    unfolding check_again
    check_again-IsCounted c f v =
        let l = c.peer.outgoing_commands in
        let r = c.peer.outgoing_send_reliable_commands in
        let s : Progress = record (begin_walk c f.datagram) {
          sent_unreliable = f.sent_unreliable;
          dropped = f.dropped;
        } in
        end_filled-IsCounted c s _ refl (walk-Walks _ _ l r s) v

    peer_ping-IsCounted : (c : Context) → IsCounted n m c → IsCounted n m (peer_ping c)
    unfolding peer_ping
    peer_ping-IsCounted c v =
        ground (arith, queue_outgoing_command-SameLink c (control true false ping) none 0 0)

    pub fill_ping-IsCounted :
        (o : Option Filled) → FilledIsCounted o → FilledIsCounted (fill_ping flush o)
    unfolding fill_ping
    fill_ping-IsCounted none v = tt
    fill_ping-IsCounted (some f) v =
        let w = check_again-IsCounted (peer_ping f.context) f (peer_ping-IsCounted f.context v) in
        ground (arith, w)

  pub sent_now-IsCounted :
      (c : Context) → IsCounted n m c → IsCounted n m (sent_now (before_send c))
  unfolding before_send update_packet_loss
  sent_now-IsCounted c v = ground arith
