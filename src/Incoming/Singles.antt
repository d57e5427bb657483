-- ===== src/Incoming/Singles.antt =====
-- A channel whose waiting reliable commands are in order and take a number each: src/c/peer.rs.
use mathlib.Core.List.{reverse, reverse-cons}
use rusty_enet.Base.{
  ℕ, suc, ◌*◌, ◌^◌, ◌<◌, ◌≡◌, refl, subst, sym, ap, Bool, true, false, not, List, [], ◌∷◌, ◌++◌,
  Option, none, some, arith, append-nil, add16, if◌then◌else◌, ◌==◌, ◌&&◌,
}
use rusty_enet.Peer.{IncomingCommand, Channel}
use rusty_enet.Incoming.{
  Placement, skip, stop, duplicate, cons?, reverse?, insert_from_end, insert_incoming, Ready,
  take_ready, last_sequence_number, is_complete, is_cons, Delivery, deliver_reliable,
  deliver_unreliable, after_ready,
}
use rusty_enet.Incoming.Placing.{key, keys, Ascends, AllNumbers, InOrder}
use rusty_enet.Incoming.Delivering.{Consecutive, deliver_reliable_lem, followers}

-- A whole packet, no fragment of one.
abbrev pub IsSingle : IncomingCommand → Type 0
IsSingle i = i.fragment_count ≡ 0

abbrev pub AllSingle : List IncomingCommand → Type 0
AllSingle [] = Unit {0}
AllSingle (i ∷ l) = IsSingle i × AllSingle l

abbrev pub AllSingle? : Option (List IncomingCommand) → Type 0
AllSingle? none = Unit {0}
AllSingle? (some l) = AllSingle l

AllSingle-append : (l m : List IncomingCommand) → AllSingle l → AllSingle m → AllSingle (l ++ m)
AllSingle-append [] m a b = b
AllSingle-append (i ∷ l) m a b = (a.0, AllSingle-append l m a.1 b)

AllSingle-reverse : (l : List IncomingCommand) → AllSingle l → AllSingle (reverse l)
AllSingle-reverse [] a = a
AllSingle-reverse (i ∷ l) a =
    rw (reverse-cons i l)
      (AllSingle-append (reverse l) (i ∷ []) (AllSingle-reverse l a.1) (a.0, tt))

module _ (x : IncomingCommand) (hx : IsSingle x) (place : IncomingCommand → Placement) where
  insert_step :
      (i : IncomingCommand) (r : List IncomingCommand) (p : Placement)
      (rest : Option (List IncomingCommand))
      → IsSingle i
      → AllSingle r
      → AllSingle? rest
      → AllSingle? (elim p [ stop ↦ some (x ∷ i ∷ r) | duplicate ↦ none | skip ↦ cons? i rest ])
  insert_step i r stop rest e a h = (hx, (e, a))
  insert_step i r duplicate rest e a h = tt
  insert_step i r skip none e a h = tt
  insert_step i r skip (some s) e a h = (e, h)

  insert_from_end-AllSingle :
      (r : List IncomingCommand) → AllSingle r → AllSingle? (insert_from_end place x r)
  unfolding insert_from_end
  insert_from_end-AllSingle [] a = (hx, tt)
  insert_from_end-AllSingle (i ∷ r) a =
      insert_step i r (place i) (insert_from_end place x r) a.0 a.1
        (insert_from_end-AllSingle r a.1)

  pub insert_incoming-AllSingle :
      (l : List IncomingCommand) → AllSingle l → AllSingle? (insert_incoming place x l)
  unfolding insert_incoming
  insert_incoming-AllSingle l a =
      go (insert_from_end place x (reverse l))
        (insert_from_end-AllSingle (reverse l) (AllSingle-reverse l a))
    where
      go : (o : Option (List IncomingCommand)) → AllSingle? o → AllSingle? (reverse? o)
      go none h = tt
      go (some s) h = AllSingle-reverse s h

-- The current number goes up by one.
keys-advance :
    (current lo hi : ℕ) (l : List IncomingCommand)
    → current < 2 ^ 16
    → AllNumbers l
    → Ascends (suc (suc lo)) hi (keys current l)
    → Ascends (suc lo) hi (keys (add16 current 1) l)
keys-advance current lo hi [] h a v = omega (arith, v)
keys-advance current lo hi (i ∷ l) h a v =
    let k : key current i ≡ suc (key (add16 current 1) i) = ground (arith, v.0, a.0) in
    (
      omega (arith, k, v.0),
      keys-advance current (key (add16 current 1) i) hi l h a.1
          (subst (λ y. Ascends (suc y) hi (keys current l)) k v.1),
    )

-- Each waiting command once, in the order of their numbers, ahead of the current one by less than
-- seven windows.
pub record IsQueue (current : ℕ) (l : List IncomingCommand) : Type 0 where
  pub current_fits : current < 2 ^ 16
  pub in_order : InOrder current l
  pub all_single : AllSingle l

pub next_number :
    (current : ℕ) (i : IncomingCommand)
    → IsSingle i
    → (is_complete i && i.reliable_sequence_number == add16 current 1) ≡ true
    → last_sequence_number i ≡ add16 current 1
unfolding last_sequence_number
next_number current i e h = ground arith

pub first_key :
    (current : ℕ) (i : IncomingCommand)
    → current < 2 ^ 16
    → (is_complete i && i.reliable_sequence_number == add16 current 1) ≡ true
    → key current i ≡ 1
first_key current i e h = ground arith

tail-IsQueue :
    (current : ℕ) (i : IncomingCommand) (l : List IncomingCommand)
    → IsQueue current (i ∷ l)
    → (is_complete i && i.reliable_sequence_number == add16 current 1) ≡ true
    → IsQueue (last_sequence_number i) l
tail-IsQueue current i l v h =
    let e = next_number current i v.all_single.0 h in
    let k = first_key current i v.current_fits h in
    subst (λ c. IsQueue c l) (sym e)
      (record {
        current_fits = omega arith;
        in_order = record {
          numbers = v.in_order.numbers.1;
          ordered =
              keys-advance current 0 (7 * 4096) l v.current_fits v.in_order.numbers.1
                (subst (λ y. Ascends (suc y) (7 * 4096) (keys current l)) k v.in_order.ordered.1);
        };
        all_single = v.all_single.1;
      })

take_ready-IsQueue :
    (current : ℕ) (l : List IncomingCommand)
    → IsQueue current l
    → let r = take_ready current l in IsQueue r.current r.rest
unfolding take_ready
take_ready-IsQueue current [] v = v
take_ready-IsQueue current (i ∷ l) v =
    go (is_complete i && i.reliable_sequence_number == add16 current 1) refl
      (take_ready-IsQueue (last_sequence_number i) l)
  where
    go :
        (b : Bool)
        → (is_complete i && i.reliable_sequence_number == add16 current 1) ≡ b
        → (IsQueue (last_sequence_number i) l
            → let r = take_ready (last_sequence_number i) l in IsQueue r.current r.rest)
        → let q = take_ready (last_sequence_number i) l in
          let r : Ready =
            if b
            then record { ready = i ∷ q.ready; rest = q.rest; current = q.current }
            else record { ready = []; rest = i ∷ l; current = current } in
          IsQueue r.current r.rest
    go true h f = f (tail-IsQueue current i l v h)
    go false h f = v

-- A channel that waits for whole reliable packets only.
pub record IsOrderly (ch : Channel) : Type 0 where
  pub queue : IsQueue ch.incoming_reliable_sequence_number ch.incoming_reliable_commands
  pub no_unreliable : ch.incoming_unreliable_commands ≡ []

-- A delivery of a run, from a channel without unreliable commands.
pub record IsRun (ch : Channel) (d : Delivery) : Type 0 where
  pub run :
      Consecutive ch.incoming_reliable_sequence_number d.delivered
        d.channel.incoming_reliable_sequence_number
  pub no_unreliable : d.channel.incoming_unreliable_commands ≡ []

pub no_followers :
    (q : Option ℕ) (ch : Channel) → ch.incoming_unreliable_commands ≡ [] → followers q ch ≡ []
no_followers q ch e = ground arith

deliver_reliable-unreliable :
    (q : Option ℕ) (ch : Channel)
    → ch.incoming_unreliable_commands ≡ []
    → (deliver_reliable q ch).channel.incoming_unreliable_commands ≡ []
unfolding deliver_reliable
deliver_reliable-unreliable q ch e = ground arith

pub deliver_reliable-IsRun :
    (q : Option ℕ) (ch : Channel)
    → ch.incoming_unreliable_commands ≡ []
    → IsRun ch (deliver_reliable q ch)
deliver_reliable-IsRun q ch e =
    let (ready, d, s) = deliver_reliable_lem q ch in
    let only : ready ≡ (deliver_reliable q ch).delivered =
      ground (arith, no_followers q ch e, append-nil ready, d) in
    record {
      run =
          subst
            (λ l.
              Consecutive ch.incoming_reliable_sequence_number l
                (deliver_reliable q ch).channel.incoming_reliable_sequence_number)
            only s.consecutive;
      no_unreliable = deliver_reliable-unreliable q ch e;
    }

pub deliver_reliable-IsOrderly :
    (q : Option ℕ) (ch : Channel) → IsOrderly ch → IsOrderly (deliver_reliable q ch).channel
unfolding deliver_reliable
deliver_reliable-IsOrderly q ch v =
    let r = take_ready ch.incoming_reliable_sequence_number ch.incoming_reliable_commands in
    let d = deliver_unreliable q (after_ready r ch) in
    let outcome : Bool → Delivery = λ b.
      if not b
      then record { channel = ch; delivered = [] }
      else if is_cons ch.incoming_unreliable_commands
      then record { channel = d.channel; delivered = r.ready ++ d.delivered }
      else record { channel = after_ready r ch; delivered = r.ready } in
    let ready_queue =
      take_ready-IsQueue ch.incoming_reliable_sequence_number ch.incoming_reliable_commands
        v.queue in
    let none_waits : is_cons ch.incoming_unreliable_commands ≡ false = ap is_cons v.no_unreliable in
    elim (is_cons r.ready) as (λ b. IsOrderly (outcome b).channel) [
      | true ↦
          subst
            (λ (b : Bool).
              let x : Delivery =
                if b
                then record { channel = d.channel; delivered = r.ready ++ d.delivered }
                else record { channel = after_ready r ch; delivered = r.ready } in
              IsOrderly x.channel)
            (sym none_waits) (record { queue = ready_queue; no_unreliable = v.no_unreliable })
      | false ↦ v
    ]
