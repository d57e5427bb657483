-- ===== src/Incoming/Stream.antt =====
-- What a channel delivers while reliable packets arrive: `enet_peer_queue_incoming_command` of
-- src/c/peer.rs, over and over.
use rusty_enet.Base.{
  ℕ, ◌*◌, ◌^◌, ◌≤◌, ◌<◌, ◌≡◌, ◌≢◌, ◌⊎◌, inl, inr, refl, sym, subst, ap, ◌∙◌, true, false, List, [],
  ◌∷◌, ◌++◌, Option, none, some, arith, append-nil, append_assoc, ltb, leb, length, if◌then◌else◌,
  get_elem?, set,
}
use rusty_enet.Protocol.{send_reliable}
use rusty_enet.Window.{in_window}
use rusty_enet.Window.Order.{in_window_lem}
use rusty_enet.Peer.{IncomingCommand, Channel, Context}
use rusty_enet.Connection.{schedule_dispatch}
use rusty_enet.Incoming.{
  place_reliable, insert_incoming, last_sequence_number, Delivery, deliver_reliable, hand_over,
}
use rusty_enet.Incoming.Arriving.{
  Arrival, Queued, queued, ignored, failed, new_incoming, with_reliable_commands, charge, admit,
  admit_placed, discard, queue_reliable, queue_by_kind, queue_incoming_command,
}
use rusty_enet.Incoming.Placing.{key, Inserted, insert_incoming-Inserted}
use rusty_enet.Incoming.Delivering.{Consecutive}
use rusty_enet.Incoming.Singles.{
  AllSingle?, insert_incoming-AllSingle, IsOrderly, deliver_reliable-IsRun,
  deliver_reliable-IsOrderly,
}
use rusty_enet.Send.Sequence.{get_elem?-set_self}

-- The context after a command was queued, dropped or refused.
abbrev pub after_queueing : Queued → Context → Context
after_queueing (queued d) c = d
after_queueing ignored c = c
after_queueing failed c = c

-- One packet after another.
unfoldable pub stream : List Arrival → Context → Context
stream [] c = c
stream (a ∷ l) c = stream l (after_queueing (queue_incoming_command a c) c)

-- A whole reliable packet for the channel `i`.
pub record IsPacketFor (i : ℕ) (a : Arrival) : Type 0 where
  pub data_length : ℕ
  pub is_reliable : a.command.body ≡ send_reliable data_length
  pub to_channel : a.command.channel_id ≡ i
  pub whole : a.fragment_count ≡ 0
  pub number_fits : a.command.reliable_sequence_number < 2 ^ 16

abbrev pub ArePacketsFor : ℕ → List Arrival → Type 0
ArePacketsFor i [] = Unit {0}
ArePacketsFor i (a ∷ l) = IsPacketFor i a × ArePacketsFor i l

-- From one context with the channel `ch` to another: what is handed to the application in between
-- is a run, and the channel is in order.
pub record Continues (i : ℕ) (ch : Channel) (c d : Context) : Type 0 where
  pub channel : Channel
  pub found : get_elem? d.peer.channels i ≡ some channel
  pub orderly : IsOrderly channel
  pub delivered : List IncomingCommand
  pub run :
      Consecutive ch.incoming_reliable_sequence_number delivered
        channel.incoming_reliable_sequence_number
  pub handed : d.peer.dispatched_commands ≡ c.peer.dispatched_commands ++ delivered

Consecutive-append :
    (a b c : ℕ) (l m : List IncomingCommand)
    → Consecutive a l b
    → Consecutive b m c
    → Consecutive a (l ++ m) c
Consecutive-append a b c [] m h k = subst (λ x. Consecutive x m c) (sym h) k
Consecutive-append a b c (i ∷ l) m h k =
    (h.0, h.1, Consecutive-append (last_sequence_number i) b c l m h.2 k)

module _ (i : ℕ) where
  Continues-trans :
      (ch : Channel) (b c d : Context) (r : Continues i ch b c)
      → Continues i r.channel c d
      → Continues i ch b d
  Continues-trans ch b c d r s = record {
    channel = s.channel;
    found = s.found;
    orderly = s.orderly;
    delivered = r.delivered ++ s.delivered;
    run =
        Consecutive-append ch.incoming_reliable_sequence_number
          r.channel.incoming_reliable_sequence_number s.channel.incoming_reliable_sequence_number
          r.delivered s.delivered r.run s.run;
    handed =
        s.handed
        ∙ ap (λ l. l ++ s.delivered) r.handed
        ∙ append_assoc b.peer.dispatched_commands r.delivered s.delivered;
  }

  pub hand_over-queues :
      (x : Delivery) (c : Context)
      → let d = hand_over i x c in
        (d.peer.channels ≡ set c.peer.channels i x.channel)
        × (d.peer.dispatched_commands ≡ c.peer.dispatched_commands ++ x.delivered)
  unfolding hand_over schedule_dispatch
  hand_over-queues x c = ground arith

  module _ (ch : Channel) (c : Context) (e : get_elem? c.peer.channels i ≡ some ch)
      (v : IsOrderly ch) where
    Continues-same : Continues i ch c c
    Continues-same = record {
      channel = ch;
      found = e;
      orderly = v;
      delivered = [];
      run = refl;
      handed = sym (append-nil c.peer.dispatched_commands);
    }

    admitted-Continues :
        (n : ℕ) (q : Option ℕ) (l : List IncomingCommand)
        → IsOrderly (with_reliable_commands l ch)
        → Continues i ch c
            (hand_over i (deliver_reliable q (with_reliable_commands l ch)) (charge n c))
    unfolding charge
    admitted-Continues n q l w =
        let k = with_reliable_commands l ch in
        let x = deliver_reliable q k in
        let run = deliver_reliable-IsRun q k w.no_unreliable in
        let (f, g) = hand_over-queues x (charge n c) in
        record {
          channel = x.channel;
          found = ap (λ y. get_elem? y i) f ∙ get_elem?-set_self c.peer.channels i x.channel ch e;
          orderly = deliver_reliable-IsOrderly q k w;
          delivered = x.delivered;
          run = run.run;
          handed = g;
        }

    module _ (a : Arrival) (p : IsPacketFor i a) where
      abbrev Goes : Queued → Type 0
      Goes x = Continues i ch c (after_queueing x c)

      admit-Goes :
          (l : List IncomingCommand)
          → IsOrderly (with_reliable_commands l ch)
          → Goes (admit a (deliver_reliable (some a.address) (with_reliable_commands l ch)) c)
      unfolding admit
      admit-Goes l w =
          let x = deliver_reliable (some a.address) (with_reliable_commands l ch) in
          let d = queued (hand_over a.command.channel_id x (charge (length a.contents) c)) in
          elim (leb c.host.maximum_waiting_data c.peer.total_waiting_data)
            as (λ b.
              Goes
                (if b then failed else if ltb (1024 * 1024) a.fragment_count then failed else d)) [
                  | true ↦ Continues-same
                  | false ↦
                      elim (ltb (1024 * 1024) a.fragment_count)
                        as (λ b. Goes (if b then failed else d)) [
                          | true ↦ Continues-same
                          | false ↦
                              subst
                                (λ j.
                                  Continues i ch c (hand_over j x (charge (length a.contents) c)))
                                (sym p.to_channel)
                                (admitted-Continues (length a.contents) (some a.address) l w)
                        ]
                ]

      pub distance_bounds :
          in_window ch.incoming_reliable_sequence_number a.command.reliable_sequence_number ≡ true
          → a.command.reliable_sequence_number ≢ ch.incoming_reliable_sequence_number
          → (1 ≤ key ch.incoming_reliable_sequence_number (new_incoming 0 a))
            × (key ch.incoming_reliable_sequence_number (new_incoming 0 a) < 7 * 4096)
      unfolding new_incoming
      distance_bounds h k =
          let f = v.queue.current_fits in
          let g = p.number_fits in
          ground (
            arith,
            in_window_lem ch.incoming_reliable_sequence_number a.command.reliable_sequence_number f
                g,
          )

      queue_reliable-Goes :
          in_window ch.incoming_reliable_sequence_number a.command.reliable_sequence_number ≡ true
          → a.command.reliable_sequence_number ≢ ch.incoming_reliable_sequence_number
          → Goes (queue_reliable a ch c)
      unfolding queue_reliable admit_placed new_incoming
      queue_reliable-Goes h k =
          let n = ch.incoming_reliable_sequence_number in
          let x = new_incoming 0 a in
          let place = place_reliable n a.command.reliable_sequence_number in
          let l = ch.incoming_reliable_commands in
          let (lo, hi) = distance_bounds h k in
          go (insert_incoming place x l)
            (insert_incoming-Inserted n x l v.queue.current_fits p.number_fits lo hi
              v.queue.in_order)
            (insert_incoming-AllSingle x p.whole place l v.queue.all_single)
        where
          go :
              (o : Option (List IncomingCommand))
              → Inserted ch.incoming_reliable_sequence_number
                  (new_incoming 0 a)
                  ch.incoming_reliable_commands
                  o
              → AllSingle? o
              → Goes (
                  admit_placed a
                    (λ l. deliver_reliable (some a.address) (with_reliable_commands l ch))
                    o
                    c)
          go none f g = subst (λ n. Goes (discard n)) (sym p.whole) Continues-same
          go (some l) f g = admit-Goes l (record {
            queue = record { current_fits = v.queue.current_fits; in_order = f.0; all_single = g };
            no_unreliable = v.no_unreliable;
          })

      -- What becomes of a packet.
      packet_cases :
          (queue_incoming_command a c ≡ ignored)
          ⊎ ((in_window ch.incoming_reliable_sequence_number a.command.reliable_sequence_number
                ≡ true)
              × (a.command.reliable_sequence_number ≢ ch.incoming_reliable_sequence_number)
              × (queue_incoming_command a c ≡ queue_reliable a ch c))
      unfolding queue_incoming_command queue_by_kind
      packet_cases =
          let r = p.is_reliable in let t = p.to_channel in let w = p.whole in ground arith

      pub packet-Goes : Goes (queue_incoming_command a c)
      packet-Goes = elim packet_cases [
        | inl f ↦ subst Goes (sym f) Continues-same
        | inr (h, k, f) ↦ subst Goes (sym f) (queue_reliable-Goes h k)
      ]

  -- Whatever whole reliable packets arrive at a channel, in any order, with any numbers of 16
  -- bits, once or more often, and in whatever state the host and the rest of the peer are, also
  -- where their limits or the window refuse packets: what comes to the end of the peer's queue for
  -- the application over all of them is a run of whole commands with consecutive numbers, modulo 2
  -- ^ 16 and without a gap, from the number that the channel had at the start to the one that it
  -- has at the end. What waits at the end is ordered by how far ahead of the channel's number it
  -- is, by at least 1 and less than seven windows, each number once. The channel was in such an
  -- order at the start, and only whole reliable packets wait at it.
  pub stream-Continues :
      (l : List Arrival) (c : Context) (ch : Channel)
      → ArePacketsFor i l
      → get_elem? c.peer.channels i ≡ some ch
      → IsOrderly ch
      → Continues i ch c (stream l c)
  unfolding stream
  stream-Continues [] c ch p e v = Continues-same ch c e v
  stream-Continues (a ∷ l) c ch p e v =
      let d = after_queueing (queue_incoming_command a c) c in
      let r = packet-Goes ch c e v a p.0 in
      Continues-trans ch c d (stream l d) r (stream-Continues l d r.channel p.1 r.found r.orderly)
