-- ===== src/Incoming/Placing.antt =====
-- The order of the queue of reliable commands: by how far each lies ahead of the current number.
use mathlib.Core.List.Perm
use mathlib.Core.List.{Perm, reverse_perm, reverse, map-append, reverse-cons}
use rusty_enet.Base.{
  ℕ, ◌*◌, ◌^◌, ◌≤◌, ◌<◌, suc, ◌≡◌, refl, ◌⊎◌, inl, inr, List, [], ◌∷◌, ◌++◌, map, Option, none,
  some, arith, ltb, ◌==◌, if◌then◌else◌,
}
use rusty_enet.Peer.{IncomingCommand}
use rusty_enet.Window.Order.{ahead}
use rusty_enet.Incoming.{
  reverse?, cons?, Placement, skip, stop, duplicate, place_reliable, insert_from_end,
  insert_incoming,
}

abbrev pub key : (current : ℕ) → IncomingCommand → ℕ
key current i = ahead current i.reliable_sequence_number

-- The placement that a queue ordered by `key` asks for.
abbrev pub place_by_key : (queued new : ℕ) → Placement
place_by_key queued new = if ltb queued new then stop else if queued == new then duplicate else skip

-- The comparisons of sequence numbers in `enet_peer_queue_incoming_command`, on either side of the
-- current number, order the reliable commands by their distance ahead of it, for numbers of 16
-- bits.
pub place_reliable_lem :
    (current sequence : ℕ) (i : IncomingCommand)
    → current < 2 ^ 16
    → sequence < 2 ^ 16
    → i.reliable_sequence_number < 2 ^ 16
    → place_reliable current sequence i ≡ place_by_key (key current i) (ahead current sequence)
unfolding place_reliable
place_reliable_lem current sequence i hc hs hi = ground arith

-- Numbers from `lo` to below `hi` that rise, and that fall.
abbrev pub Ascends : (lo hi : ℕ) → List ℕ → Type 0
Ascends lo hi [] = lo ≤ hi
Ascends lo hi (x ∷ xs) = (lo ≤ x) × Ascends (suc x) hi xs

abbrev pub Descends : (hi lo : ℕ) → List ℕ → Type 0
Descends hi lo [] = lo ≤ hi
Descends hi lo (x ∷ xs) = (x < hi) × Descends x lo xs

Ascends-append :
    (lo m hi : ℕ) (xs ys : List ℕ) → Ascends lo m xs → Ascends m hi ys → Ascends lo hi (xs ++ ys)
Ascends-append lo m hi [] [] h k = omega arith
Ascends-append lo m hi [] (y ∷ ys) h k = (omega arith, k.1)
Ascends-append lo m hi (x ∷ xs) ys h k = (h.0, Ascends-append (suc x) m hi xs ys h.1 k)

Descends-append :
    (hi m lo : ℕ) (xs ys : List ℕ) → Descends hi m xs → Descends m lo ys → Descends hi lo (xs ++ ys)
Descends-append hi m lo [] [] h k = omega arith
Descends-append hi m lo [] (y ∷ ys) h k = (omega arith, k.1)
Descends-append hi m lo (x ∷ xs) ys h k = (h.0, Descends-append x m lo xs ys h.1 k)

Descends-le : (hi lo : ℕ) (xs : List ℕ) → Descends hi lo xs → lo ≤ hi
Descends-le hi lo [] h = h
Descends-le hi lo (x ∷ xs) h = omega (arith, Descends-le x lo xs h.1)

pub Ascends-le : (lo hi : ℕ) (xs : List ℕ) → Ascends lo hi xs → lo ≤ hi
Ascends-le lo hi [] h = h
Ascends-le lo hi (x ∷ xs) h = omega (arith, Ascends-le (suc x) hi xs h.1)

Ascends-reverse : (lo hi : ℕ) (xs : List ℕ) → Descends hi lo xs → Ascends lo hi (reverse xs)
Ascends-reverse lo hi [] h = h
Ascends-reverse lo hi (x ∷ xs) h = rw (reverse-cons x xs) (
    Ascends-append lo x hi (reverse xs) (x ∷ []) (Ascends-reverse lo x xs h.1)
      (omega arith, omega arith))

Descends-reverse : (lo hi : ℕ) (xs : List ℕ) → Ascends lo hi xs → Descends hi lo (reverse xs)
Descends-reverse lo hi [] h = h
Descends-reverse lo hi (x ∷ xs) h = rw (reverse-cons x xs) (
    Descends-append hi (suc x) lo (reverse xs) (x ∷ []) (Descends-reverse (suc x) hi xs h.1)
      (omega arith, omega arith))

-- Every number of the list is a sequence number.
abbrev pub AllNumbers : List IncomingCommand → Type 0
AllNumbers [] = Unit {0}
AllNumbers (i ∷ l) = (i.reliable_sequence_number < 2 ^ 16) × AllNumbers l

abbrev pub keys : (current : ℕ) → List IncomingCommand → List ℕ
keys current = map (key current)

abbrev pub Has : ℕ → List ℕ → Type 0
Has k [] = ⊥
Has k (x ∷ xs) = (x ≡ k) ⊎ Has k xs

Has-append : (k : ℕ) (xs ys : List ℕ) → Has k (xs ++ ys) → Has k xs ⊎ Has k ys
Has-append k [] ys h = inr h
Has-append k (x ∷ xs) ys (inl e) = inl (inl e)
Has-append k (x ∷ xs) ys (inr h) = elim (Has-append k xs ys h) [
  | inl a ↦ inl (inr a)
  | inr b ↦ inr b
]

append-Has : (k : ℕ) (xs ys : List ℕ) → Has k xs ⊎ Has k ys → Has k (xs ++ ys)
append-Has k [] ys (inl h) = absurd h
append-Has k [] ys (inr h) = h
append-Has k (x ∷ xs) ys (inl (inl e)) = inl e
append-Has k (x ∷ xs) ys (inl (inr h)) = inr (append-Has k xs ys (inl h))
append-Has k (x ∷ xs) ys (inr h) = inr (append-Has k xs ys (inr h))

Has-reverse : (k : ℕ) (xs : List ℕ) → Has k (reverse xs) → Has k xs
Has-reverse k [] h = h
Has-reverse k (x ∷ xs) h = elim (Has-append k (reverse xs) (x ∷ []) (rw (← reverse-cons x xs) h)) [
  | inl a ↦ inr (Has-reverse k xs a)
  | inr (inl e) ↦ inl e
  | inr (inr f) ↦ absurd f
]

reverse-Has : (k : ℕ) (xs : List ℕ) → Has k xs → Has k (reverse xs)
reverse-Has k [] h = absurd h
reverse-Has k (x ∷ xs) (inl e) =
    rw (reverse-cons x xs) (append-Has k (reverse xs) (x ∷ []) (inr (inl e)))
reverse-Has k (x ∷ xs) (inr h) =
    rw (reverse-cons x xs) (append-Has k (reverse xs) (x ∷ []) (inl (reverse-Has k xs h)))

Has-lt : (k hi lo : ℕ) (xs : List ℕ) → Descends hi lo xs → Has k xs → k < hi
Has-lt k hi lo [] d h = absurd h
Has-lt k hi lo (x ∷ xs) d (inl e) = omega arith
Has-lt k hi lo (x ∷ xs) d (inr h) = omega (arith, Has-lt k x lo xs d.1 h)

keys-reverse :
    (current : ℕ) (l : List IncomingCommand) → keys current (reverse l) ≡ reverse (keys current l)
keys-reverse current [] = refl
keys-reverse current (i ∷ l) =
    rw (reverse-cons i l, map-append, keys-reverse current l, reverse-cons (key current i))

AllNumbers-append : (l m : List IncomingCommand) → AllNumbers l → AllNumbers m → AllNumbers (l ++ m)
AllNumbers-append [] m a b = b
AllNumbers-append (i ∷ l) m a b = (a.0, AllNumbers-append l m a.1 b)

AllNumbers-reverse : (l : List IncomingCommand) → AllNumbers l → AllNumbers (reverse l)
AllNumbers-reverse [] a = a
AllNumbers-reverse (i ∷ l) a =
    rw (reverse-cons i l)
      (AllNumbers-append (reverse l) (i ∷ []) (AllNumbers-reverse l a.1) (a.0, tt))

module _ (current : ℕ) (hc : current < 2 ^ 16) (x : IncomingCommand)
    (hx : x.reliable_sequence_number < 2 ^ 16) where
  -- What the walk owes: an ordered queue with the new number, or that the number was there.
  abbrev Placed : (hi lo : ℕ) → List IncomingCommand → Option (List IncomingCommand) → Type 0
  Placed hi lo r none = Has (key current x) (keys current r)
  Placed hi lo r (some s) =
      Descends hi lo (keys current s) × AllNumbers s × (¬ Has (key current x) (keys current r))

  insert_from_end-Placed :
      (hi lo : ℕ) (r : List IncomingCommand)
      → AllNumbers r
      → key current x < hi
      → lo ≤ key current x
      → Descends hi lo (keys current r)
      → Placed hi lo r (insert_from_end (place_reliable current x.reliable_sequence_number) x r)
  unfolding insert_from_end
  insert_from_end-Placed hi lo [] a kx lx d = ((kx, lx), (hx, tt), λ h. h)
  insert_from_end-Placed hi lo (i ∷ r) a kx lx d = ground (
    arith,
    place_reliable_lem current x.reliable_sequence_number i hc hx a.0,
    insert_from_end-Placed (key current i) lo r a.1,
    Has-lt (key current x) (key current i) lo (keys current r) d.1,
  )

  abbrev Extends : List IncomingCommand → Option (List IncomingCommand) → Type 0
  Extends r none = Unit {0}
  Extends r (some s) = Perm s (x ∷ r)

  extend_step :
      (i : IncomingCommand) (r : List IncomingCommand) (p : Placement)
      (rest : Option (List IncomingCommand))
      → Extends r rest
      → Extends
          (i ∷ r)
          (elim p [ stop ↦ some (x ∷ i ∷ r) | duplicate ↦ none | skip ↦ cons? i rest ])
  extend_step i r stop rest h = Perm.refl _
  extend_step i r duplicate rest h = tt
  extend_step i r skip none h = tt
  extend_step i r skip (some s) h = Perm.trans (Perm.cons i h) (Perm.swap x i r)

  insert_from_end-Extends :
      (place : IncomingCommand → Placement) (r : List IncomingCommand)
      → Extends r (insert_from_end place x r)
  unfolding insert_from_end
  insert_from_end-Extends place [] = Perm.refl _
  insert_from_end-Extends place (i ∷ r) =
      extend_step i r (place i) (insert_from_end place x r) (insert_from_end-Extends place r)

-- The queue of reliable commands of a channel: ordered by how far ahead of the current number they
-- are, each number once, none of them the current one, all within the seven windows.
pub record InOrder (current : ℕ) (l : List IncomingCommand) : Type 0 where
  pub numbers : AllNumbers l
  pub ordered : Ascends 1 (7 * 4096) (keys current l)

-- What `insert_incoming` owes for a reliable command.
abbrev pub Inserted :
    (current : ℕ) → IncomingCommand → List IncomingCommand → Option (List IncomingCommand) → Type 0
Inserted current x l none = Has (key current x) (keys current l)
Inserted current x l (some s) =
    InOrder current s × Perm s (x ∷ l) × (¬ Has (key current x) (keys current l))

-- A reliable command that arrives either has its number in the queue already, and is refused, or
-- has not: then the queue stays ordered by the distance ahead of the current number and holds
-- exactly the commands that it had and the new one. The numbers have 16 bits, and the new one is
-- not the current one and within the seven windows ahead of it.
pub insert_incoming-Inserted :
    (current : ℕ) (x : IncomingCommand) (l : List IncomingCommand)
    → current < 2 ^ 16
    → x.reliable_sequence_number < 2 ^ 16
    → 1 ≤ key current x
    → key current x < 7 * 4096
    → InOrder current l
    → Inserted current x l (insert_incoming (place_reliable current x.reliable_sequence_number) x l)
unfolding insert_incoming
insert_incoming-Inserted current x l hc hx lo hi v =
    go (insert_from_end (place_reliable current x.reliable_sequence_number) x (reverse l))
      (insert_from_end-Placed current hc x hx (7 * 4096) 1 (reverse l)
        (AllNumbers-reverse l v.numbers) hi lo
        (rw (keys-reverse current l) (Descends-reverse 1 (7 * 4096) (keys current l) v.ordered)))
      (insert_from_end-Extends current hc x hx (place_reliable current x.reliable_sequence_number)
        (reverse l))
  where
    go :
        (o : Option (List IncomingCommand))
        → Placed current hc x hx (7 * 4096) 1 (reverse l) o
        → Extends current hc x hx (reverse l) o
        → Inserted current x l (reverse? o)
    go none h p = Has-reverse _ (keys current l) (rw (← keys-reverse current l) h)
    go (some s) h p = (
      record {
        numbers = AllNumbers-reverse s h.1;
        ordered = rw (keys-reverse current s) (Ascends-reverse 1 (7 * 4096) (keys current s) h.0);
      },
      Perm.trans (reverse_perm s) (Perm.trans p (Perm.cons x (reverse_perm l))),
      λ k. h.2 (rw (keys-reverse current l) (reverse-Has _ (keys current l) k)),
    )
