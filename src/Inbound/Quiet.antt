-- ===== src/Inbound/Quiet.antt =====
-- Queueing a packet that has arrived changes neither a peer's state nor what its host counts: the
-- handlers of src/c/protocol.rs for commands that carry packets.
use rusty_enet.Base.{ℕ, List, Option, none, some, arith, length}
use rusty_enet.Protocol.{Command, FragmentBody}
use rusty_enet.Peer.{IncomingCommand, Channel, Context, Outcome, rejected, context}
use rusty_enet.Connection.{schedule_dispatch}
use rusty_enet.Window.{queue_acknowledgement}
use rusty_enet.Incoming.{Delivery, hand_over}
use rusty_enet.Incoming.Arriving.{
  charge, admit_placed, queue_reliable, queue_unreliable, queue_unsequenced, Arrival, Queued,
  queued, ignored, failed, queue_incoming_command, admit, queue_by_kind,
}
use rusty_enet.Receive.{
  handle_send_reliable, handle_send_unreliable, handle_send_unsequenced, whole, enter_window,
  mark_group,
}
use rusty_enet.Receive.Fragment.{
  Start, absent, mismatch, started, finish_queued_unreliable, finish_fragment,
  finish_unreliable_fragment, handle_send_fragment, handle_send_unreliable_fragment, beginning,
}
use rusty_enet.Connection.Counters.{IsQuiet}

abbrev QueuesQuietly : Context → Queued → Type 0
QueuesQuietly c (queued d) = IsQuiet c d
QueuesQuietly c ignored = Unit
QueuesQuietly c failed = Unit

hand_over-IsQuiet : (i : ℕ) (d : Delivery) (c : Context) → IsQuiet c (hand_over i d c)
unfolding hand_over schedule_dispatch
hand_over-IsQuiet i d c = ground arith

admit-QueuesQuietly : (a : Arrival) (d : Delivery) (c : Context) → QueuesQuietly c (admit a d c)
unfolding admit charge
admit-QueuesQuietly a d c =
    ground (arith, hand_over-IsQuiet a.command.channel_id d (charge (length a.contents) c))

admit_placed-QueuesQuietly :
    (a : Arrival) (f : List IncomingCommand → Delivery) (o : Option (List IncomingCommand))
    (c : Context)
    → QueuesQuietly c (admit_placed a f o c)
unfolding admit_placed
admit_placed-QueuesQuietly a f none c = ground arith
admit_placed-QueuesQuietly a f (some l) c = admit-QueuesQuietly a (f l) c

queue_reliable-QueuesQuietly :
    (a : Arrival) (ch : Channel) (c : Context) → QueuesQuietly c (queue_reliable a ch c)
unfolding queue_reliable
queue_reliable-QueuesQuietly a ch c = admit_placed-QueuesQuietly a _ _ c

queue_unreliable-QueuesQuietly :
    (u : ℕ) (a : Arrival) (ch : Channel) (c : Context) → QueuesQuietly c (queue_unreliable u a ch c)
unfolding queue_unreliable
queue_unreliable-QueuesQuietly u a ch c = admit_placed-QueuesQuietly a _ _ c

queue_unsequenced-QueuesQuietly :
    (a : Arrival) (ch : Channel) (c : Context) → QueuesQuietly c (queue_unsequenced a ch c)
unfolding queue_unsequenced
queue_unsequenced-QueuesQuietly a ch c = admit-QueuesQuietly a _ c

queue_by_kind-QueuesQuietly :
    (a : Arrival) (ch : Channel) (c : Context) → QueuesQuietly c (queue_by_kind a ch c)
unfolding queue_by_kind
queue_by_kind-QueuesQuietly a ch c = grind (
  arith,
  queue_reliable-QueuesQuietly a ch c,
  queue_unsequenced-QueuesQuietly a ch c,
  queue_unreliable-QueuesQuietly,
)

queue_incoming_command-QueuesQuietly :
    (a : Arrival) (c : Context) → QueuesQuietly c (queue_incoming_command a c)
unfolding queue_incoming_command
queue_incoming_command-QueuesQuietly a c = grind (arith, queue_by_kind-QueuesQuietly)

pub handle_send_reliable-IsQuiet :
    (a n : ℕ) (k : Command) (rest : List ℕ) (c : Context)
    → IsQuiet c (context (handle_send_reliable a n k rest c))
unfolding handle_send_reliable
handle_send_reliable-IsQuiet a n k rest c =
    ground (arith, queue_incoming_command-QueuesQuietly (whole 1 a n k rest) c)

pub handle_send_unreliable-IsQuiet :
    (a n : ℕ) (k : Command) (rest : List ℕ) (c : Context)
    → IsQuiet c (context (handle_send_unreliable a n k rest c))
unfolding handle_send_unreliable
handle_send_unreliable-IsQuiet a n k rest c =
    ground (arith, queue_incoming_command-QueuesQuietly (whole 0 a n k rest) c)

pub handle_send_unsequenced-IsQuiet :
    (a g n : ℕ) (k : Command) (rest : List ℕ) (c : Context)
    → IsQuiet c (context (handle_send_unsequenced a g n k rest c))
unfolding handle_send_unsequenced enter_window mark_group
handle_send_unsequenced-IsQuiet a g n k rest c =
    let entered : Context = record c { peer = enter_window g c.peer } in
    ground (arith, queue_incoming_command-QueuesQuietly (whole 2 a n k rest) entered)

finish_fragment-IsQuiet :
    (i a : ℕ) (f : FragmentBody) (rest : List ℕ) (c : Context)
    → IsQuiet c (context (finish_fragment i a f rest c))
unfolding finish_fragment
finish_fragment-IsQuiet i a f rest c = grind (arith, hand_over-IsQuiet)

finish_unreliable_fragment-IsQuiet :
    (i a : ℕ) (f : FragmentBody) (rest : List ℕ) (c : Context)
    → IsQuiet c (context (finish_unreliable_fragment i a f rest c))
unfolding finish_unreliable_fragment
finish_unreliable_fragment-IsQuiet i a f rest c = grind (arith, hand_over-IsQuiet)

pub handle_send_fragment-IsQuiet :
    (a : ℕ) (m : List ℕ) (f : FragmentBody) (k : Command) (rest : List ℕ) (c : Context)
    → IsQuiet c (context (handle_send_fragment a m f k rest c))
unfolding handle_send_fragment
handle_send_fragment-IsQuiet a m f k rest c =
    grind (arith, finish_fragment-IsQuiet, queue_incoming_command-QueuesQuietly)

finish_queued_unreliable-IsQuiet :
    (i a : ℕ) (f : FragmentBody) (rest : List ℕ) (c : Context) (q : Queued)
    → QueuesQuietly c q
    → IsQuiet c (context (finish_queued_unreliable i a f rest c q))
finish_queued_unreliable-IsQuiet i a f rest c (queued d) h =
    ground (arith, finish_unreliable_fragment-IsQuiet i a f rest d)
finish_queued_unreliable-IsQuiet i a f rest c ignored h = ground arith
finish_queued_unreliable-IsQuiet i a f rest c failed h = ground arith

-- By what the walk to the command of the fragment finds.
started_unreliable-IsQuiet :
    (a : ℕ) (m : List ℕ) (f : FragmentBody) (k : Command) (rest : List ℕ) (c : Context) (s : Start)
    → IsQuiet c (
        context (elim s as (λ x. Outcome) [
          | mismatch ↦ rejected c
          | started i ↦ finish_unreliable_fragment k.channel_id i.address f rest c
          | absent ↦
              finish_queued_unreliable k.channel_id a f rest c
                (queue_incoming_command (beginning 8 a m f k) c)
        ]))
started_unreliable-IsQuiet a m f k rest c mismatch = ground arith
started_unreliable-IsQuiet a m f k rest c (started i) =
    finish_unreliable_fragment-IsQuiet k.channel_id i.address f rest c
started_unreliable-IsQuiet a m f k rest c absent =
    finish_queued_unreliable-IsQuiet k.channel_id a f rest c
      (queue_incoming_command (beginning 8 a m f k) c)
      (queue_incoming_command-QueuesQuietly (beginning 8 a m f k) c)

pub handle_send_unreliable_fragment-IsQuiet :
    (a : ℕ) (m : List ℕ) (f : FragmentBody) (k : Command) (rest : List ℕ) (c : Context)
    → IsQuiet c (context (handle_send_unreliable_fragment a m f k rest c))
unfolding handle_send_unreliable_fragment
handle_send_unreliable_fragment-IsQuiet a m f k rest c = grind (arith, started_unreliable-IsQuiet)

pub queue_acknowledgement-IsQuiet :
    (k : Command) (t : ℕ) (c : Context)
    → IsQuiet c (record c { peer = queue_acknowledgement k t c.peer })
unfolding queue_acknowledgement
queue_acknowledgement-IsQuiet k t c = ground arith
