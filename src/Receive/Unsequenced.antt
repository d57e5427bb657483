-- ===== src/Receive/Unsequenced.antt =====
-- The window of unsequenced groups of `enet_protocol_handle_send_unsequenced` in src/c/protocol.rs.
use rusty_enet.Base.{
  ℕ, ◌+◌, ◌-◌, zero, suc, ap, ◌<◌, ◌^◌, ◌%◌, ◌≡◌, Option, Bool, true, false, List, none, some,
  arith, length, refl, sym, subst, ◌||◌, leb, ◌*◌, inl, inr, ◌⊎◌, get_or, replicate,
  get_or-set_self,
}
use rusty_enet.Protocol.{Command}
use rusty_enet.Peer.{IncomingCommand, Channel, Peer, Context, Outcome, accepted, rejected}
use rusty_enet.Connection.{schedule_dispatch}
use rusty_enet.Incoming.{Delivery, hand_over}
use rusty_enet.Incoming.Arriving.{
  charge, admit_placed, queue_reliable, queue_unreliable, queue_unsequenced, Arrival, Queued,
  queued, ignored, failed, queue_incoming_command, admit, queue_by_kind,
}
use rusty_enet.Receive.{
  mark_handled, handled, whole, enter_window, handle_send_unsequenced, mark_group,
  unsequenced_ahead,
}

-- What queueing a command leaves of the window.
record SameWindow (p q : Peer) : Type 0 where
  same_window : p.unsequenced_window ≡ q.unsequenced_window
  same_group : p.incoming_unsequenced_group ≡ q.incoming_unsequenced_group

abbrev KeepsWindow : Peer → Queued → Type 0
KeepsWindow p (queued c) = SameWindow c.peer p
KeepsWindow p ignored = Unit
KeepsWindow p failed = Unit

hand_over-SameWindow :
    (i : ℕ) (d : Delivery) (c : Context) → SameWindow (hand_over i d c).peer c.peer
unfolding hand_over schedule_dispatch
hand_over-SameWindow i d c = ground arith

admit-KeepsWindow : (a : Arrival) (d : Delivery) (c : Context) → KeepsWindow c.peer (admit a d c)
unfolding admit charge
admit-KeepsWindow a d c =
    ground (arith, hand_over-SameWindow a.command.channel_id d (charge (length a.contents) c))

admit_placed-KeepsWindow :
    (a : Arrival) (f : List IncomingCommand → Delivery) (o : Option (List IncomingCommand))
    (c : Context)
    → KeepsWindow c.peer (admit_placed a f o c)
unfolding admit_placed
admit_placed-KeepsWindow a f none c = ground arith
admit_placed-KeepsWindow a f (some l) c = admit-KeepsWindow a (f l) c

queue_reliable-KeepsWindow :
    (a : Arrival) (ch : Channel) (c : Context) → KeepsWindow c.peer (queue_reliable a ch c)
unfolding queue_reliable
queue_reliable-KeepsWindow a ch c = admit_placed-KeepsWindow a _ _ c

queue_unreliable-KeepsWindow :
    (u : ℕ) (a : Arrival) (ch : Channel) (c : Context)
    → KeepsWindow c.peer (queue_unreliable u a ch c)
unfolding queue_unreliable
queue_unreliable-KeepsWindow u a ch c = admit_placed-KeepsWindow a _ _ c

queue_unsequenced-KeepsWindow :
    (a : Arrival) (ch : Channel) (c : Context) → KeepsWindow c.peer (queue_unsequenced a ch c)
unfolding queue_unsequenced
queue_unsequenced-KeepsWindow a ch c = admit-KeepsWindow a _ c

queue_by_kind-KeepsWindow :
    (a : Arrival) (ch : Channel) (c : Context) → KeepsWindow c.peer (queue_by_kind a ch c)
unfolding queue_by_kind
queue_by_kind-KeepsWindow a ch c = grind (
  arith,
  queue_reliable-KeepsWindow a ch c,
  queue_unsequenced-KeepsWindow a ch c,
  queue_unreliable-KeepsWindow,
)

queue_incoming_command-KeepsWindow :
    (a : Arrival) (c : Context) → KeepsWindow c.peer (queue_incoming_command a c)
unfolding queue_incoming_command
queue_incoming_command-KeepsWindow a c = grind (arith, queue_by_kind-KeepsWindow)

-- The group is in the window's block, and marked.
record IsMarked (group : ℕ) (p : Peer) : Type 0 where
  block : p.incoming_unsequenced_group ≡ group - group % 1024
  marked : get_or p.unsequenced_window (group % 1024) false ≡ true

length-replicate : (n : ℕ) (b : Bool) → length (replicate n b) ≡ n
length-replicate zero b = refl
length-replicate (suc n) b = ap suc (length-replicate n b)

enter_window-block :
    (g : ℕ) (p : Peer) → g < 2 ^ 16 → (enter_window g p).incoming_unsequenced_group ≡ g - g % 1024
unfolding enter_window
enter_window-block g p h = ground arith

enter_window-length :
    (g : ℕ) (p : Peer)
    → length p.unsequenced_window ≡ 1024
    → length (enter_window g p).unsequenced_window ≡ 1024
unfolding enter_window
enter_window-length g p h = ground (arith, length-replicate 1024 false)

mark_group-IsMarked :
    (g : ℕ) (p q : Peer)
    → SameWindow p q
    → q.incoming_unsequenced_group ≡ g - g % 1024
    → length q.unsequenced_window ≡ 1024
    → IsMarked g (mark_group g p)
unfolding mark_group
mark_group-IsMarked g p q s b l =
    ground (arith, get_or-set_self p.unsequenced_window (g % 1024) true false)

-- A marked group is dropped.
handle_marked :
    (a g n : ℕ) (k : Command) (rest : List ℕ) (c : Context)
    → g < 2 ^ 16
    → IsMarked g c.peer
    → handle_send_unsequenced a g n k rest c ≡ accepted c
      ⊎ handle_send_unsequenced a g n k rest c ≡ rejected c
unfolding handle_send_unsequenced unsequenced_ahead enter_window
handle_marked a g n k rest c h m = ground arith

abbrev MarksAccepted : ℕ → Outcome → Type 0
MarksAccepted g (accepted d) = IsMarked g d.peer
MarksAccepted g (rejected d) = Unit

mark_handled-MarksAccepted :
    (g : ℕ) (c : Context) (q : Queued)
    → KeepsWindow c.peer q
    → c.peer.incoming_unsequenced_group ≡ g - g % 1024
    → length c.peer.unsequenced_window ≡ 1024
    → MarksAccepted g (mark_handled g (handled c q))
mark_handled-MarksAccepted g c (queued d) s b l = mark_group-IsMarked g d.peer c.peer s b l
mark_handled-MarksAccepted g c ignored s b l =
    mark_group-IsMarked g c.peer c.peer (record { same_window = refl; same_group = refl }) b l
mark_handled-MarksAccepted g c failed s b l = tt

-- What makes the source drop a group: it is too far ahead, or its bit is set.
record IsDropped (group : ℕ) (p : Peer) : Type 0 where
  dropped :
      leb
          (p.incoming_unsequenced_group + 32 * 1024)
          (unsequenced_ahead p.incoming_unsequenced_group group)
        || get_or (enter_window group p).unsequenced_window (group % 1024) false
      ≡ true

handle_dropped :
    (a g n : ℕ) (k : Command) (rest : List ℕ) (c : Context)
    → IsDropped g c.peer
    → handle_send_unsequenced a g n k rest c ≡ accepted c
      ⊎ handle_send_unsequenced a g n k rest c ≡ rejected c
unfolding handle_send_unsequenced
handle_dropped a g n k rest c m = ground arith

-- Nothing changes for a group that is dropped, or the group is marked.
handle_send_unsequenced-cases :
    (a g n : ℕ) (k : Command) (rest : List ℕ) (c d : Context)
    → g < 2 ^ 16
    → length c.peer.unsequenced_window ≡ 1024
    → handle_send_unsequenced a g n k rest c ≡ accepted d
    → d ≡ c × IsDropped g c.peer ⊎ IsMarked g d.peer
unfolding handle_send_unsequenced
handle_send_unsequenced-cases a g n k rest c d h l e =
    let p = enter_window g c.peer in
    let entered : Context = record c { peer = p } in
    let q = queue_incoming_command (whole 2 a n k rest) entered in
    let marks =
      mark_handled-MarksAccepted g entered q
        (queue_incoming_command-KeepsWindow (whole 2 a n k rest) entered)
        (enter_window-block g c.peer h) (enter_window-length g c.peer l) in
    ground (arith, marks)

-- A group is taken at most once: a command of an unsequenced group that the handler accepts, with
-- a group number of 16 bits and a window of 1024 bits, leaves a state in which any further command
-- of the same group, whatever it carries, is dropped or rejected and changes nothing.
pub handle_send_unsequenced-once :
    (a b g n m : ℕ) (j k : Command) (rest more : List ℕ) (c d : Context)
    → g < 2 ^ 16
    → length c.peer.unsequenced_window ≡ 1024
    → handle_send_unsequenced a g n j rest c ≡ accepted d
    → handle_send_unsequenced b g m k more d ≡ accepted d
      ⊎ handle_send_unsequenced b g m k more d ≡ rejected d
handle_send_unsequenced-once a b g n m j k rest more c d h l e =
    elim (handle_send_unsequenced-cases a g n j rest c d h l e) [
      | inl (q, m') ↦ handle_dropped b g m k more d (subst (λ x. IsDropped g x.peer) (sym q) m')
      | inr m' ↦ handle_marked b g m k more d h m'
    ]
