-- ===== src/Inbound/Leading.antt =====
-- A command of a datagram is a sequence of the steps of a host: the body of the loop in
-- `enet_protocol_handle_incoming_commands` of src/c/protocol.rs against the step relation.
use rusty_enet.Base.{
  ℕ, zero, suc, ◌≡◌, refl, ap, subst, sym, List, [], ◌∷◌, Option, none, some, arith,
}
use rusty_enet.Protocol.{Command, Body, connect}
use rusty_enet.Peer.{Peer, Context, Event, Outcome, accepted, rejected, context}
use rusty_enet.Connection.Counters.{IsQuiet}
use rusty_enet.Network.{Addresses, Slot, Network, peer_at, find_peer, set_peer, focus, restore}
use rusty_enet.Network.Answering.{Reply, refused, failed, answered, handle_connect}
use rusty_enet.Network.Steps.{
  Step, answers, serves, works, Steps, done, step, command_arrives, serve,
}
use rusty_enet.Wire.Header.{Header}
use rusty_enet.Inbound.Commands.{
  Allocator, Reading, Handled, goes_on, ends, panics, answer_command, with_answer, handle_from_peer,
  finish_command, after_handler, finish_at, after_request, handle_at, handle_request, handle_for,
}
use rusty_enet.Inbound.Quiet.{queue_acknowledgement-IsQuiet}

module _ {A : Type 0} where
  pub peer_at-set_peer :
      (l : List (Slot A)) (i : ℕ) (p q : Peer)
      → peer_at l i ≡ some p
      → peer_at (set_peer l i q) i ≡ some q
  peer_at-set_peer [] i p q e = ground arith
  peer_at-set_peer (s ∷ l) zero p q e = refl
  peer_at-set_peer (s ∷ l) (suc i) p q e = peer_at-set_peer l i p q e

  set_peer-set_peer :
      (l : List (Slot A)) (i : ℕ) (p q : Peer) → set_peer (set_peer l i p) i q ≡ set_peer l i q
  set_peer-set_peer [] i p q = refl
  set_peer-set_peer (s ∷ l) zero p q = refl
  set_peer-set_peer (s ∷ l) (suc i) p q = ap (λ r. s ∷ r) (set_peer-set_peer l i p q)

with_answer-IsQuiet : (t : ℕ) (k : Command) (c : Context) → IsQuiet c (with_answer t k c)
unfolding answer_command
with_answer-IsQuiet t k c = ground (arith, queue_acknowledgement-IsQuiet k t c)

module _ {A : Type 0} (addresses : Addresses A) where
  pub Steps-append :
      (n m k : Network A) → Steps addresses n m → Steps addresses m k → Steps addresses n k
  Steps-append n m k done s = s
  Steps-append n m k (step r q) s = step r (Steps-append _ m k q s)

  abbrev pub Leads : Network A → Handled A → Type 0
  Leads n (goes_on t) = Steps addresses n t.network
  Leads n (ends t) = Steps addresses n t.network
  Leads n panics = Unit {0}

  -- The acknowledgement is one step more.
  answered-Steps :
      (n : Network A) (i : ℕ) (p : Peer) (c : Context) (t : ℕ) (k : Command)
      → find_peer n i ≡ some p
      → Steps addresses n (restore n i c)
      → Steps addresses n (restore n i (with_answer t k c))
  answered-Steps n i p c t k e s =
      let d = with_answer t k c in
      let more : Step addresses (restore n i c) (restore (restore n i c) i d) =
        works i c.peer c.event d (peer_at-set_peer n.slots i p c.peer e)
          (with_answer-IsQuiet t k c) in
      Steps-append n (restore n i c) (restore n i d) s (
        step
          (subst (λ l. Step addresses (restore n i c) (record n { host = d.host; slots = l }))
            (set_peer-set_peer n.slots i c.peer d.peer) more)
          done)

  finish_command-Leads :
      (h : Header) (k : Command) (n : Network A) (i : ℕ) (p : Peer) (c : Context)
      → find_peer n i ≡ some p
      → Steps addresses n (restore n i c)
      → Leads n (finish_command h k n i c)
  unfolding finish_command
  finish_command-Leads h k n i p c e s = ground (arith, answered-Steps n i p c h.sent_time k e s)

  after_handler-Leads :
      (h : Header) (k : Command) (n : Network A) (i : ℕ) (p : Peer) (o : Outcome)
      → find_peer n i ≡ some p
      → Steps addresses n (restore n i (context o))
      → Leads n (after_handler h k n i o)
  after_handler-Leads h k n i p (accepted c) e s = finish_command-Leads h k n i p c e s
  after_handler-Leads h k n i p (rejected c) e s = s

  set_peer_self : (l : List (Slot A)) (i : ℕ) (p : Peer) → peer_at l i ≡ some p → set_peer l i p ≡ l
  set_peer_self [] i p e = refl
  set_peer_self (s ∷ l) zero p e = ground arith
  set_peer_self (s ∷ l) (suc i) p e = ap (λ r. s ∷ r) (set_peer_self l i p e)

  module _ (flush : Context → Context) (allocator : Allocator) where
    handle_at-Leads :
        (h : Header) (k : Command) (rest : List ℕ) (s : Reading A) (i : ℕ) (o : Option Peer)
        → find_peer s.network i ≡ o
        → Leads s.network (handle_at addresses flush allocator h k rest s i o)
    unfolding serve
    handle_at-Leads h k rest s i none e = tt
    handle_at-Leads h k rest s i (some p) e =
        after_handler-Leads h k s.network i p
          (handle_from_peer flush allocator k rest (focus s.network p s.event)) e
          (step (serves (command_arrives flush allocator k rest) i p s.event e) done)

    finish_at-Leads :
        (h : Header) (k : Command) (m n : Network A) (i : ℕ) (e : Option Event) (o : Option Peer)
        → Steps addresses m n
        → find_peer n i ≡ o
        → Leads m (finish_at h k n i e o)
    finish_at-Leads h k m n i e none r g = tt
    finish_at-Leads h k m n i e (some p) r g = go (finish_command h k n i (focus n p e)) (
        finish_command-Leads h k n i p (focus n p e) g (
          subst (λ l. Steps addresses n (record n { slots = l }))
            (sym (set_peer_self n.slots i p g)) done))
      where
        go : (x : Handled A) → Leads n x → Leads m x
        go (goes_on t) s = Steps-append m n t.network r s
        go (ends t) s = Steps-append m n t.network r s
        go panics s = tt

    handle_request-Leads :
        (h : Header) (k : Command) (b : Body) (s : Reading A)
        → Leads s.network (handle_request addresses flush allocator h k s b)
    handle_request-Leads h k (connect b d) s = go (handle_connect addresses b d s.network) refl
      where
        go :
            (r : Reply A)
            → handle_connect addresses b d s.network ≡ r
            → Leads s.network (after_request h k s r)
        go refused e = done
        go failed e = tt
        go (answered i n) e =
            finish_at-Leads h k s.network n i s.event (find_peer n i) (step (answers b d i e) done)
              refl
    handle_request-Leads h k b s = done

    pub handle_for-Leads :
        (h : Header) (k : Command) (rest : List ℕ) (s : Reading A) (o : Option ℕ)
        → Leads s.network (handle_for addresses flush allocator h k rest s o)
    handle_for-Leads h k rest s none = handle_request-Leads h k k.body s
    handle_for-Leads h k rest s (some i) = handle_at-Leads h k rest s i (find_peer s.network i) refl
