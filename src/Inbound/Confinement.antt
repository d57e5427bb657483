-- ===== src/Inbound/Confinement.antt =====
-- A command concerns one peer: the body of the loop in `enet_protocol_handle_incoming_commands` of
-- src/c/protocol.rs leaves all others alone.
use rusty_enet.Base.{
  ℕ, zero, suc, ◌≡◌, ◌≢◌, ◌⊎◌, inl, inr, refl, ap, ◌∙◌, true, false, not, List, [], ◌∷◌, Option,
  none, some, ltb, leb, ◌||◌, if◌then◌else◌, get_elem?, set,
}
use rusty_enet.Protocol.{ConnectBody, Command, Body, connect}
use rusty_enet.Peer.{Peer, Context, Event, Outcome, accepted, rejected}
use rusty_enet.Network.{Addresses, Slot, Network, find_peer, set_peer, focus, restore}
use rusty_enet.Network.Answering.{
  Reply, refused, failed, answered, handle_connect, answer_found, answer_at, start_answer, Scan,
  repeated, panicked, scanned, scan,
}
use rusty_enet.Wire.Header.{Header}
use rusty_enet.Inbound.Commands.{
  Allocator, Reading, Handled, goes_on, ends, panics, with_answer, handle_from_peer, reading,
  finish_command, after_handler, finish_at, after_request, handle_at, handle_request, handle_for,
}

-- A datagram's peer is `i`, if it has one.
abbrev pub Of : Option ℕ → ℕ → Type 0
Of p i = (p ≡ none) ⊎ (p ≡ some i)

module _ {A : Type 0} where
  -- Only the peer `i` differs.
  abbrev pub Touches : ℕ → Network A → Network A → Type 0
  Touches i n m = (j : ℕ) → j ≢ i → get_elem? m.slots j ≡ get_elem? n.slots j

  pub Touches-trans : (i : ℕ) (n m k : Network A) → Touches i n m → Touches i m k → Touches i n k
  Touches-trans i n m k f g j h = g j h ∙ f j h

  set_peer-others :
      (l : List (Slot A)) (i j : ℕ) (p : Peer)
      → j ≢ i
      → get_elem? (set_peer l i p) j ≡ get_elem? l j
  set_peer-others [] i j p h = refl
  set_peer-others (s ∷ l) zero zero p h = absurd (h refl)
  set_peer-others (s ∷ l) zero (suc j) p h = refl
  set_peer-others (s ∷ l) (suc i) zero p h = refl
  set_peer-others (s ∷ l) (suc i) (suc j) p h = set_peer-others l i j p (λ e. h (ap suc e))

  pub set-others :
      (l : List (Slot A)) (i j : ℕ) (t : Slot A) → j ≢ i → get_elem? (set l i t) j ≡ get_elem? l j
  set-others [] i j t h = refl
  set-others (s ∷ l) zero zero t h = absurd (h refl)
  set-others (s ∷ l) zero (suc j) t h = refl
  set-others (s ∷ l) (suc i) zero t h = refl
  set-others (s ∷ l) (suc i) (suc j) t h = set-others l i j t (λ e. h (ap suc e))

  restore-Touches : (n : Network A) (i : ℕ) (c : Context) → Touches i n (restore n i c)
  restore-Touches n i c j h = set_peer-others n.slots i j c.peer h

  -- What one command does where its peer is `i`.
  abbrev pub At : ℕ → Network A → Handled A → Type 0
  At i n (goes_on t) = (t.peer ≡ some i) × Touches i n t.network
  At i n (ends t) = (t.peer ≡ some i) × Touches i n t.network
  At i n panics = Unit {0}

  finish_command-At :
      (h : Header) (k : Command) (n : Network A) (i : ℕ) (c : Context)
      → At i n (finish_command h k n i c)
  unfolding finish_command
  finish_command-At h k n i c =
      elim (k.flag_acknowledge)
        as (λ x. At i n (
          if not x
          then goes_on (reading n i c)
          else if not h.flag_sent_time
          then ends (reading n i c)
          else goes_on (reading n i (with_answer h.sent_time k c)))) [
            | false ↦ (refl, restore-Touches n i c)
            | true ↦
                elim (h.flag_sent_time)
                  as (λ x. At i n (
                    if not x
                    then ends (reading n i c)
                    else goes_on (reading n i (with_answer h.sent_time k c)))) [
                      | false ↦ (refl, restore-Touches n i c)
                      | true ↦ (refl, restore-Touches n i (with_answer h.sent_time k c))
                    ]
          ]

  after_handler-At :
      (h : Header) (k : Command) (n : Network A) (i : ℕ) (o : Outcome)
      → At i n (after_handler h k n i o)
  after_handler-At h k n i (accepted c) = finish_command-At h k n i c
  after_handler-At h k n i (rejected c) = (refl, restore-Touches n i c)

  pub At-trans : (i : ℕ) (n m : Network A) (x : Handled A) → Touches i n m → At i m x → At i n x
  At-trans i n m (goes_on t) f (e, g) = (e, Touches-trans i n m t.network f g)
  At-trans i n m (ends t) f (e, g) = (e, Touches-trans i n m t.network f g)
  At-trans i n m panics f g = tt

  pub finish_at-At :
      (h : Header) (k : Command) (n : Network A) (i : ℕ) (e : Option Event) (o : Option Peer)
      → At i n (finish_at h k n i e o)
  finish_at-At h k n i e none = tt
  finish_at-At h k n i e (some p) = finish_command-At h k n i (focus n p e)

  -- An answered request takes one slot.
  abbrev pub Takes : Network A → Reply A → Type 0
  Takes n (answered i m) = Touches i n m
  Takes n refused = Unit {0}
  Takes n failed = Unit {0}

  answer_found-Takes :
      (x : A) (b : ConnectBody) (d : ℕ) (n : Network A) (i : ℕ) (o : Option Peer)
      → Takes n (answer_found x b d n i o)
  answer_found-Takes x b d n i none = tt
  answer_found-Takes x b d n i (some p) = λ j h.
      set-others n.slots i j (record { peer = (start_answer n.host b d p).peer; address = some x })
        h

  pub answer_at-Takes :
      (b : ConnectBody) (d : ℕ) (n : Network A) (x : Scan) → Takes n (answer_at b d n x)
  answer_at-Takes b d n repeated = tt
  answer_at-Takes b d n panicked = tt
  answer_at-Takes b d n (scanned none k) = tt
  answer_at-Takes b d n (scanned (some i) k) =
      elim (leb n.host.duplicate_peers k)
        as (λ x. Takes n (
          if x then refused else elim n.received_address [
            | none ↦ failed
            | some y ↦ answer_found y b d n i (find_peer n i)
          ])) [
            | true ↦ tt
            | false ↦
                elim (n.received_address)
                  as (λ x.
                    Takes n (elim x [
                      | none ↦ failed
                      | some y ↦ answer_found y b d n i (find_peer n i)
                    ])) [ none ↦ tt | some y ↦ answer_found-Takes y b d n i (find_peer n i) ]
          ]

  -- What a command does by the peer that the datagram had before it, if any.
  abbrev pub Confines : Option ℕ → Network A → Handled A → Type 0
  Confines p n (goes_on t) = (i : ℕ) × Of p i × (t.peer ≡ some i) × Touches i n t.network
  Confines p n (ends t) = (i : ℕ) × Of p i × Touches i n t.network
  Confines p n panics = Unit {0}

  At-Confines :
      (p : Option ℕ) (i : ℕ) (n : Network A) (x : Handled A) → Of p i → At i n x → Confines p n x
  At-Confines p i n (goes_on t) o (e, f) = (i, o, e, f)
  At-Confines p i n (ends t) o (e, f) = (i, o, f)
  At-Confines p i n panics o f = tt

  after_request-Confines :
      (h : Header) (k : Command) (s : Reading A) (r : Reply A)
      → Takes s.network r
      → Confines none s.network (after_request h k s r)
  after_request-Confines h k s refused f = (0, inl refl, λ j g. refl)
  after_request-Confines h k s failed f = tt
  after_request-Confines h k s (answered i n) f =
      At-Confines none i s.network (finish_at h k n i s.event (find_peer n i)) (inl refl) (
        At-trans i s.network n (finish_at h k n i s.event (find_peer n i)) f
          (finish_at-At h k n i s.event (find_peer n i)))

  module _ (addresses : Addresses A) (flush : Context → Context) (allocator : Allocator) where
    handle_request-Confines :
        (h : Header) (k : Command) (s : Reading A) (b : Body)
        → Confines none s.network (handle_request addresses flush allocator h k s b)
    unfolding handle_connect
    handle_request-Confines h k s (connect b d) =
        let x = scan addresses s.network.received_address b.connect_id 0 none 0 s.network.slots in
        elim (ltb b.channel_count 1 || ltb 255 b.channel_count)
          as (λ y.
            Confines none s.network
              (after_request h k s (if y then refused else answer_at b d s.network x))) [
                | true ↦ (0, inl refl, λ j g. refl)
                | false ↦
                    after_request-Confines h k s (answer_at b d s.network x)
                      (answer_at-Takes b d s.network x)
              ]
    handle_request-Confines h k s b = (0, inl refl, λ j g. refl)

    handle_at-Confines :
        (h : Header) (k : Command) (rest : List ℕ) (s : Reading A) (i : ℕ) (o : Option Peer)
        → Confines (some i) s.network (handle_at addresses flush allocator h k rest s i o)
    handle_at-Confines h k rest s i none = tt
    handle_at-Confines h k rest s i (some p) =
        let o = handle_from_peer flush allocator k rest (focus s.network p s.event) in
        At-Confines (some i) i s.network (after_handler h k s.network i o) (inr refl)
          (after_handler-At h k s.network i o)

    pub handle_for-Confines :
        (h : Header) (k : Command) (rest : List ℕ) (s : Reading A) (p : Option ℕ)
        → Confines p s.network (handle_for addresses flush allocator h k rest s p)
    handle_for-Confines h k rest s none = handle_request-Confines h k s k.body
    handle_for-Confines h k rest s (some i) =
        handle_at-Confines h k rest s i (find_peer s.network i)
