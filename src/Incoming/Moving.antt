-- ===== src/Incoming/Moving.antt =====
-- How far a channel of src/c/peer.rs moves when it hands on what is ready.
use rusty_enet.Base.{
  ℕ, zero, suc, ◌*◌, ◌^◌, ◌<◌, ◌≡◌, refl, sym, subst, Bool, true, false, List, [], ◌∷◌, Option,
  arith, add16, ◌==◌, ◌&&◌, if◌then◌else◌,
}
use rusty_enet.Window.Order.{ahead}
use rusty_enet.Peer.{IncomingCommand, Channel}
use rusty_enet.Incoming.{Ready, take_ready, deliver_reliable, last_sequence_number, is_complete}
use rusty_enet.Incoming.Placing.{key, keys, Ascends, Ascends-le, AllNumbers}
use rusty_enet.Incoming.Singles.{IsOrderly, AllSingle, next_number, first_key}

-- The current number goes up by one, and so comes closer to all that wait.
keys-closer :
    (current lo hi : ℕ) (l : List IncomingCommand)
    → current < 2 ^ 16
    → AllNumbers l
    → Ascends (suc (suc lo)) (suc hi) (keys current l)
    → Ascends (suc lo) hi (keys (add16 current 1) l)
keys-closer current lo hi [] h a v = omega (arith, v)
keys-closer current lo hi (i ∷ l) h a v =
    let k : key current i ≡ suc (key (add16 current 1) i) = ground (arith, v.0, a.0) in
    (
      omega (arith, k, v.0),
      keys-closer current (key (add16 current 1) i) hi l h a.1
          (subst (λ y. Ascends (suc y) (suc hi) (keys current l)) k v.1),
    )

ahead_next :
    (current r hi : ℕ)
    → current < 2 ^ 16
    → r < 2 ^ 16
    → hi < 2 ^ 15
    → ahead (add16 current 1) r < hi
    → ahead current r < suc hi
ahead_next current r hi h k g f = ground arith

-- What is taken moves the current number on by less than the seven windows.
take_ready-bounds :
    (current hi : ℕ) (l : List IncomingCommand)
    → current < 2 ^ 16
    → hi < 2 ^ 15
    → AllNumbers l
    → AllSingle l
    → Ascends 1 hi (keys current l)
    → let r = (take_ready current l).current in (r < 2 ^ 16) × (ahead current r < hi)
unfolding take_ready
take_ready-bounds current hi [] h g a s v = (h, ground arith)
take_ready-bounds current zero (i ∷ l) h g a s v =
    absurd (omega (arith, Ascends-le (suc (key current i)) zero (keys current l) v.1))
take_ready-bounds current (suc hi) (i ∷ l) h g a s v =
    go (is_complete i && i.reliable_sequence_number == add16 current 1) refl
      (take_ready-bounds (last_sequence_number i) hi l)
  where
    go :
        (b : Bool)
        → (is_complete i && i.reliable_sequence_number == add16 current 1) ≡ b
        → (last_sequence_number i < 2 ^ 16
            → hi < 2 ^ 15
            → AllNumbers l
            → AllSingle l
            → Ascends 1 hi (keys (last_sequence_number i) l)
            → let r = (take_ready (last_sequence_number i) l).current in
              (r < 2 ^ 16) × (ahead (last_sequence_number i) r < hi))
        → let q = take_ready (last_sequence_number i) l in
          let r : Ready =
            if b
            then record { ready = i ∷ q.ready; rest = q.rest; current = q.current }
            else record { ready = []; rest = i ∷ l; current = current } in
          (r.current < 2 ^ 16) × (ahead current r.current < suc hi)
    go false e f = (h, ground arith)
    go true e f =
        let n = next_number current i s.0 e in
        let k = first_key current i h e in
        let c : Ascends 1 hi (keys (add16 current 1) l) =
          keys-closer current 0 hi l h a.1
            (subst (λ y. Ascends (suc y) (suc hi) (keys current l)) k v.1) in
        let r = (take_ready (last_sequence_number i) l).current in
        let (x, y) =
          f (omega (arith, n)) (omega arith) a.1 s.1
            (subst (λ m. Ascends 1 hi (keys m l)) (sym n) c) in
        (x, ahead_next current r hi h x (omega arith) (subst (λ m. ahead m r < hi) n y))

pub deliver_reliable-moves :
    (q : Option ℕ) (ch : Channel)
    → IsOrderly ch
    → let m = (deliver_reliable q ch).channel.incoming_reliable_sequence_number in
      (m < 2 ^ 16) × (ahead ch.incoming_reliable_sequence_number m < 7 * 4096)
unfolding deliver_reliable
deliver_reliable-moves q ch v =
    let b =
      take_ready-bounds ch.incoming_reliable_sequence_number (7 * 4096)
        ch.incoming_reliable_commands v.queue.current_fits (omega arith) v.queue.in_order.numbers
        v.queue.all_single v.queue.in_order.ordered in
    let w = v.queue.current_fits in let e = v.no_unreliable in ground (arith, b)
