-- ===== src/Incoming/Taking.antt =====
-- No reliable packet is lost: `enet_peer_queue_incoming_command` of src/c/peer.rs keeps what it takes
-- until it hands it on.
use mathlib.Core.List.{Perm}
use rusty_enet.Base.{
  ℕ, ◌*◌, ◌^◌, ◌<◌, ◌≡◌, ◌≢◌, subst, ap, ◌∙◌, true, false, List, [], ◌∷◌, ◌++◌, Option, none, some,
  arith, append-nil, leb, length, get_elem?,
}
use rusty_enet.Window.{in_window}
use rusty_enet.Peer.{disconnect_later, IncomingCommand, Channel, Context}
use rusty_enet.Connection.{schedule_dispatch}
use rusty_enet.Incoming.{Delivery, place_reliable, insert_incoming, deliver_reliable, hand_over}
use rusty_enet.Incoming.Arriving.{
  Arrival, queued, new_incoming, with_reliable_commands, charge, admit, admit_placed,
  queue_reliable, queue_by_kind, queue_incoming_command,
}
use rusty_enet.Incoming.Placing.{key, keys, Has, Inserted, insert_incoming-Inserted}
use rusty_enet.Incoming.Delivering.{deliver_reliable_lem}
use rusty_enet.Incoming.Singles.{
  AllSingle?, insert_incoming-AllSingle, IsQueue, IsOrderly, no_followers,
}
use rusty_enet.Incoming.Moving.{deliver_reliable-moves}
use rusty_enet.Window.Order.{ahead}
use rusty_enet.Incoming.Stream.{IsPacketFor, hand_over-queues, distance_bounds}
use rusty_enet.Send.Sequence.{get_elem?-set_self}

-- All that waited, and the new command, are handed on or wait, and the channel moves on by less than
-- seven windows.
pub record IsTaken (i : ℕ) (a : Arrival) (ch : Channel) (c d : Context) : Type 0 where
  pub channel : Channel
  pub found : get_elem? d.peer.channels i ≡ some channel
  pub number_fits : channel.incoming_reliable_sequence_number < 2 ^ 16
  pub moves :
      ahead ch.incoming_reliable_sequence_number channel.incoming_reliable_sequence_number
      < 7 * 4096
  pub delivered : List IncomingCommand
  pub handed : d.peer.dispatched_commands ≡ c.peer.dispatched_commands ++ delivered
  pub whole :
      Perm
        (delivered ++ channel.incoming_reliable_commands)
        (new_incoming 0 a ∷ ch.incoming_reliable_commands)

-- The same, and nothing is acknowledged yet.
pub record IsQueued (i : ℕ) (a : Arrival) (ch : Channel) (c d : Context) : Type 0 where
  pub taken : IsTaken i a ch c d
  pub state : d.peer.state ≡ c.peer.state
  pub acknowledgements : d.peer.acknowledgements ≡ c.peer.acknowledgements

hand_over-rest :
    (i : ℕ) (x : Delivery) (c : Context)
    → let d = hand_over i x c in
      (d.peer.state ≡ c.peer.state) × (d.peer.acknowledgements ≡ c.peer.acknowledgements)
unfolding hand_over schedule_dispatch
hand_over-rest i x c = ground arith

deliver_reliable-whole :
    (q : Option ℕ) (ch : Channel)
    → ch.incoming_unreliable_commands ≡ []
    → let d = deliver_reliable q ch in
      ch.incoming_reliable_commands ≡ d.delivered ++ d.channel.incoming_reliable_commands
deliver_reliable-whole q ch e =
    let d = deliver_reliable q ch in
    let (ready, f, s) = deliver_reliable_lem q ch in
    let only : ready ≡ d.delivered = ground (arith, no_followers q ch e, append-nil ready, f) in
    s.whole ∙ ap (λ l. l ++ d.channel.incoming_reliable_commands) only

module _ (i : ℕ) (a : Arrival) (ch : Channel) (c : Context) (p : IsPacketFor i a)
    (e : get_elem? c.peer.channels i ≡ some ch) (v : IsOrderly ch) where
  abbrev after : List IncomingCommand → Context
  after l =
      hand_over i (deliver_reliable (some a.address) (with_reliable_commands l ch))
        (charge (length a.contents) c)

  after-IsTaken :
      (l : List IncomingCommand)
      → IsQueue ch.incoming_reliable_sequence_number l
      → Perm l (new_incoming 0 a ∷ ch.incoming_reliable_commands)
      → IsTaken i a ch c (after l)
  unfolding charge
  after-IsTaken l o w =
      let k = with_reliable_commands l ch in
      let x = deliver_reliable (some a.address) k in
      let (f, g) = hand_over-queues i x (charge (length a.contents) c) in
      let (m, n) =
        deliver_reliable-moves (some a.address) k
          (record { queue = o; no_unreliable = v.no_unreliable }) in
      record {
        number_fits = m;
        moves = n;
        channel = x.channel;
        found = ap (λ y. get_elem? y i) f ∙ get_elem?-set_self c.peer.channels i x.channel ch e;
        delivered = x.delivered;
        handed = g;
        whole =
            subst (λ y. Perm y (new_incoming 0 a ∷ ch.incoming_reliable_commands))
              (deliver_reliable-whole (some a.address) k v.no_unreliable) w;
      }

  after-IsQueued :
      (l : List IncomingCommand) → IsTaken i a ch c (after l) → IsQueued i a ch c (after l)
  unfolding charge
  after-IsQueued l w =
      let x = deliver_reliable (some a.address) (with_reliable_commands l ch) in
      let (f, g) = hand_over-rest i x (charge (length a.contents) c) in
      record { taken = w; state = f; acknowledgements = g }

  module _ (r : leb c.host.maximum_waiting_data c.peer.total_waiting_data ≡ false) where
    admit-queued :
        (l : List IncomingCommand)
        → admit a (deliver_reliable (some a.address) (with_reliable_commands l ch)) c
          ≡ queued (after l)
    unfolding admit
    admit-queued l = let t = p.to_channel in let w = p.whole in ground arith

    module _
        (h : in_window ch.incoming_reliable_sequence_number a.command.reliable_sequence_number
          ≡ true)
        (k : a.command.reliable_sequence_number ≢ ch.incoming_reliable_sequence_number)
        (z : ¬ Has
          (key ch.incoming_reliable_sequence_number (new_incoming 0 a))
          (keys ch.incoming_reliable_sequence_number ch.incoming_reliable_commands)) where
      queue_reliable-IsQueued :
          (d : Context) × (queue_reliable a ch c ≡ queued d) × IsQueued i a ch c d
      unfolding queue_reliable admit_placed new_incoming
      queue_reliable-IsQueued =
          let n = ch.incoming_reliable_sequence_number in
          let x = new_incoming 0 a in
          let place = place_reliable n a.command.reliable_sequence_number in
          let l = ch.incoming_reliable_commands in
          let (lo, hi) = distance_bounds i ch c e v a p h k in
          go (insert_incoming place x l)
            (insert_incoming-Inserted n x l v.queue.current_fits p.number_fits lo hi
              v.queue.in_order)
            (insert_incoming-AllSingle x p.whole place l v.queue.all_single)
        where
          go :
              (o : Option (List IncomingCommand))
              → Inserted ch.incoming_reliable_sequence_number
                  (new_incoming 0 a)
                  ch.incoming_reliable_commands
                  o
              → AllSingle? o
              → (d : Context) × (admit_placed a
                    (λ l. deliver_reliable (some a.address) (with_reliable_commands l ch))
                    o
                    c
                  ≡ queued d)
                × IsQueued i a ch c d
          go none f g = absurd (z f)
          go (some l) f g =
              let q : IsQueue ch.incoming_reliable_sequence_number l = record {
                current_fits = v.queue.current_fits;
                in_order = f.0;
                all_single = g;
              } in
              (after l, admit-queued l, after-IsQueued l (after-IsTaken l q f.1))

      -- A whole reliable packet is not lost, nor what waited before it: where it is in the window,
      -- is not the current one and does not wait already, it is queued, and all commands that
      -- waited and it are, in some order, those that are handed on to the application and those
      -- that wait then; the channel moves on by less than seven windows, and neither the peer's
      -- state nor its acknowledgements change. The channel is in order and only whole reliable
      -- packets wait at it, the peer does not wait to leave, and its waiting data is below the
      -- host's limit.
      pub queue_incoming_command-IsQueued :
          c.peer.state ≢ disconnect_later
          → (d : Context) × (queue_incoming_command a c ≡ queued d) × IsQueued i a ch c d
      unfolding queue_incoming_command queue_by_kind
      queue_incoming_command-IsQueued s =
          let (d, f, g) = queue_reliable-IsQueued in
          let x = p.is_reliable in let t = p.to_channel in (d, ground arith, g)
