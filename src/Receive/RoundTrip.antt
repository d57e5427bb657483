-- ===== src/Receive/RoundTrip.antt =====
-- From `enet_peer_send` of src/c/peer.rs to `enet_protocol_handle_send_fragment` of
-- src/c/protocol.rs: the fragments that one end cuts are put together by the other.
use rusty_enet.Base.{
  ℕ, zero, suc, ◌+◌, ◌*◌, ◌^◌, ◌≤◌, ◌<◌, ◌≡◌, refl, sym, ap, subst, ◌∙◌, ◌⊎◌, inl, inr, List, [],
  ◌∷◌, ◌++◌, arith, some, length, get_or, take, drop, length-take, length-drop, length-append,
}
use rusty_enet.Protocol.{Body, FragmentBody, send_fragment, send_unreliable_fragment}
use rusty_enet.Peer.{OutgoingCommand, IncomingCommand}
use rusty_enet.Outgoing.{Among}
use rusty_enet.Incoming.Arriving.{Arrival, new_incoming}
use rusty_enet.Send.{Cut, fragment, fragment_body, fragment_count, cut_from}
use rusty_enet.Send.Fragments.{Covers, Covers-length, cut_from_lem}
use rusty_enet.Receive.Assembly.{IsFragment}
use rusty_enet.Receive.Reassembly.{
  Piece, add_all, AllFragments, Arrives, add_all-whole, add_all_complete,
}

get_or-append : (xs ys : List ℕ) (k : ℕ) → k < length xs → get_or (xs ++ ys) k 0 ≡ get_or xs k 0
get_or-append [] ys k p = absurd (omega arith)
get_or-append (x ∷ xs) ys zero p = refl
get_or-append (x ∷ xs) ys (suc k) p = get_or-append xs ys k (omega arith)

get_or-take-drop :
    (n o : ℕ) (l : List ℕ) (j k : ℕ)
    → k < n
    → j ≡ o + k
    → get_or (take n (drop o l)) k 0 ≡ get_or l j 0
get_or-take-drop zero o l j k p e = absurd (omega arith)
get_or-take-drop (suc n) zero [] j k p e = refl
get_or-take-drop (suc n) zero (x ∷ l) zero zero p e = refl
get_or-take-drop (suc n) zero (x ∷ l) zero (suc k) p e = absurd (omega arith)
get_or-take-drop (suc n) zero (x ∷ l) (suc j) zero p e = absurd (omega arith)
get_or-take-drop (suc n) zero (x ∷ l) (suc j) (suc k) p e =
    get_or-take-drop n zero l j k (omega arith) (omega arith)
get_or-take-drop (suc n) (suc o) [] j k p e = refl
get_or-take-drop (suc n) (suc o) (x ∷ l) zero k p e = absurd (omega arith)
get_or-take-drop (suc n) (suc o) (x ∷ l) (suc j) k p e =
    get_or-take-drop (suc n) o l j k p (omega arith)

-- The fields that a fragment carries.
abbrev pub fields : Body → FragmentBody → FragmentBody
fields (send_fragment f) d = f
fields (send_unreliable_fragment f) d = f
fields _ d = d

-- A fragment as it arrives: its fields, its bytes of the packet, and what else the datagram holds.
abbrev pub arrival : (whole : List ℕ) → FragmentBody → OutgoingCommand → (more : List ℕ) → Piece
arrival whole d o more =
    (fields o.command.body d, take o.fragment_length (drop o.fragment_offset whole) ++ more)

cut_bytes :
    (whole more : List ℕ) (o n : ℕ)
    → o + n ≤ length whole
    → (n ≤ length (take n (drop o whole) ++ more))
      × ((k : ℕ) → k < n → get_or (take n (drop o whole) ++ more) k 0 ≡ get_or whole (o + k) 0)
cut_bytes whole more o n h =
    let l : length (take n (drop o whole)) ≡ n =
      omega (arith, length-take n (drop o whole), length-drop o whole) in
    (
      omega (arith, l, length-append (take n (drop o whole)) more),
      λ k p.
          get_or-append (take n (drop o whole)) more k (omega arith)
          ∙ get_or-take-drop n o whole (o + k) k p refl,
    )

fields-fragment :
    (c : Cut) (d : FragmentBody) (number offset size : ℕ)
    → fields (fragment c number offset size).command.body d ≡ fragment_body c number offset size
unfolding fragment
fields-fragment c d number offset size = ground arith

body-IsFragment :
    (c : Cut) (whole rest : List ℕ) (full number offset size : ℕ)
    → c.total ≡ length whole
    → size < 2 ^ 16
    → number < c.count
    → offset ≡ number * full
    → 0 < size
    → size ≤ full
    → offset + size ≤ c.total
    → (size ≡ full) ⊎ (offset + size ≡ c.total)
    → size ≤ length rest
    → ((k : ℕ) → k < size → get_or rest k 0 ≡ get_or whole (offset + k) 0)
    → IsFragment whole full c.count (fragment_body c number offset size) rest
unfolding fragment_body
body-IsFragment c whole rest full number offset size ht hf hn ho hp hs hle hlast hr hg = record {
  number = hn;
  offset = ho;
  inside = omega arith;
  bytes = ground arith;
  present = omega arith;
  same = λ k p. hg k (omega arith);
}

fragment-IsFragment :
    (c : Cut) (whole more : List ℕ) (d : FragmentBody) (full number offset size : ℕ)
    → c.total ≡ length whole
    → size < 2 ^ 16
    → number < c.count
    → offset ≡ number * full
    → 0 < size
    → size ≤ full
    → offset + size ≤ c.total
    → (size ≡ full) ⊎ (offset + size ≡ c.total)
    → IsFragment whole full c.count
        (fields (fragment c number offset size).command.body d)
        (take size (drop offset whole) ++ more)
fragment-IsFragment c whole more d full number offset size ht hf hn ho hp hs hle hlast =
    let b = cut_bytes whole more offset size (omega arith) in
    rw (fields-fragment c d number offset size)
      (body-IsFragment c whole _ full number offset size ht hf hn ho hp hs hle hlast b.0 b.1)

Covers-le_total :
    (c : Cut) (full number offset : ℕ) (l : List OutgoingCommand)
    → Covers c full number offset l
    → offset ≤ c.total
Covers-le_total c full number offset [] h = omega arith
Covers-le_total c full number offset (o ∷ l) h =
    omega (arith, Covers-le_total c full (number + 1) (offset + o.fragment_length) l h.4)

-- Behind the end of the packet there is no fragment.
Covers-ended :
    (c : Cut) (full number offset : ℕ) (x : OutgoingCommand) (l : List OutgoingCommand)
    → offset ≡ c.total
    → Covers c full number offset (x ∷ l)
    → ⊥
Covers-ended c full number offset x l e h =
    absurd
      (omega (arith, h.1, Covers-le_total c full (number + 1) (offset + x.fragment_length) l h.4))

first-IsFragment :
    (c : Cut) (whole more : List ℕ) (d : FragmentBody) (full number offset : ℕ)
    (l : List OutgoingCommand) (x : OutgoingCommand)
    → c.total ≡ length whole
    → full < 2 ^ 16
    → number < c.count
    → offset ≡ number * full
    → Covers c full number offset (x ∷ l)
    → IsFragment whole full c.count (arrival whole d x more).0 (arrival whole d x more).1
first-IsFragment c whole more d full number offset l x ht hf hn ho h =
    let le = Covers-le_total c full (number + 1) (offset + x.fragment_length) l h.4 in
    rw h.0.1 (
      subst
        (λ f. IsFragment whole full c.count f (take x.fragment_length (drop offset whole) ++ more))
        (sym (ap (λ z. fields z.command.body d) h.0.0))
        (fragment-IsFragment c whole more d full number offset x.fragment_length ht
          (omega (arith, h.2)) hn ho h.1 h.2 le h.3))

next_offset :
    (c : Cut) (full number offset : ℕ) (x y : OutgoingCommand) (l : List OutgoingCommand)
    → offset ≡ number * full
    → Covers c full number offset (x ∷ y ∷ l)
    → offset + x.fragment_length ≡ (number + 1) * full
next_offset c full number offset x y l ho h = elim h.3 [
  | inl e ↦ omega arith
  | inr e ↦ absurd (Covers-ended c full (number + 1) (offset + x.fragment_length) y l e h.4)
]

Covers-IsFragment :
    (c : Cut) (whole more : List ℕ) (d : FragmentBody) (full number offset : ℕ)
    (l : List OutgoingCommand) (o : OutgoingCommand)
    → c.total ≡ length whole
    → full < 2 ^ 16
    → number + length l ≤ c.count
    → offset ≡ number * full
    → Covers c full number offset l
    → Among o l
    → IsFragment whole full c.count (arrival whole d o more).0 (arrival whole d o more).1
Covers-IsFragment c whole more d full number offset [] o ht hf hn ho h m = absurd m
Covers-IsFragment c whole more d full number offset (x ∷ l) o ht hf hn ho h (inl e) =
    subst (λ z. IsFragment whole full c.count (arrival whole d z more).0 (arrival whole d z more).1)
      e (first-IsFragment c whole more d full number offset l x ht hf (omega arith) ho h)
Covers-IsFragment c whole more d full number offset (x ∷ []) o ht hf hn ho h (inr m) = absurd m
Covers-IsFragment c whole more d full number offset (x ∷ y ∷ l) o ht hf hn ho h (inr m) =
    Covers-IsFragment c whole more d full (number + 1) (offset + x.fragment_length) (y ∷ l) o ht hf
      (omega arith) (next_offset c full number offset x y l ho h) h.4 m

-- The fragments that arrive, each one that was sent, with whatever comes behind it.
abbrev pub Arrivals : Type 0
Arrivals = List (OutgoingCommand × List ℕ)

abbrev pub AllAmong : List OutgoingCommand → Arrivals → Type 0
AllAmong l [] = Unit
AllAmong l ((o, more) ∷ a) = Among o l × AllAmong l a

abbrev pub Reaches : OutgoingCommand → Arrivals → Type 0
Reaches o [] = ⊥
Reaches o ((x, more) ∷ a) = (x ≡ o) ⊎ Reaches o a

abbrev pub pieces : (whole : List ℕ) → FragmentBody → Arrivals → List Piece
pieces whole d [] = []
pieces whole d ((o, more) ∷ a) = arrival whole d o more ∷ pieces whole d a

module _ (c : Cut) (whole : List ℕ) (d : FragmentBody) (full : ℕ) (l : List OutgoingCommand)
    (same_length : c.total ≡ length whole) (full_fits : full < 2 ^ 16)
    (covers : Covers c full 0 0 l) (counted : length l ≡ c.count) where
  pub pieces-AllFragments :
      (a : Arrivals) → AllAmong l a → AllFragments whole full c.count (pieces whole d a)
  pieces-AllFragments [] m = tt
  pieces-AllFragments ((o, more) ∷ a) (m, ms) = (
    Covers-IsFragment c whole more d full 0 0 l o same_length full_fits (omega (arith, counted))
        (omega arith) covers m,
    pieces-AllFragments a ms,
  )

first-number :
    (c : Cut) (full number offset : ℕ) (x : OutgoingCommand) (l : List OutgoingCommand)
    (d : FragmentBody)
    → Covers c full number offset (x ∷ l)
    → (fields x.command.body d).fragment_number ≡ number
unfolding fragment_body
first-number c full number offset x l d h =
    ap (λ z. (fields z.command.body d).fragment_number) h.0.0
    ∙ ap (λ f. f.fragment_number) (fields-fragment c d number offset x.fragment_length)

-- The command with a number.
numbered :
    (c : Cut) (full number offset n : ℕ) (l : List OutgoingCommand) (d : FragmentBody)
    → Covers c full number offset l
    → number ≤ n
    → n < number + length l
    → (o : OutgoingCommand) × Among o l × ((fields o.command.body d).fragment_number ≡ n)
numbered c full number offset n [] d h p q = absurd (omega arith)
numbered c full number offset n (x ∷ l) d h p q =
    let here : (n ≡ number) ⊎ (number + 1 ≤ n) = ground arith in
    elim here [
      | inl e ↦ (x, inl refl, first-number c full number offset x l d h ∙ sym e)
      | inr g ↦
          let (o, m, k) =
            numbered c full (number + 1) (offset + x.fragment_length) n l d h.4 g (omega arith) in
          (o, inr m, k)
    ]

Reaches-Arrives :
    (whole : List ℕ) (d : FragmentBody) (n : ℕ) (o : OutgoingCommand) (a : Arrivals)
    → (fields o.command.body d).fragment_number ≡ n
    → Reaches o a
    → Arrives n (pieces whole d a)
Reaches-Arrives whole d n o [] e r = absurd r
Reaches-Arrives whole d n o ((x, more) ∷ a) e (inl q) =
    inl (ap (λ z. (fields z.command.body d).fragment_number) q ∙ e)
Reaches-Arrives whole d n o ((x, more) ∷ a) e (inr r) = inr (Reaches-Arrives whole d n o a e r)

abbrev pub received : (whole : List ℕ) → FragmentBody → Arrivals → Arrival → IncomingCommand
received whole d a r = add_all (pieces whole d a) (new_incoming 0 r)

covered-whole :
    (c : Cut) (whole : List ℕ) (d : FragmentBody) (full : ℕ) (l : List OutgoingCommand)
    (a : Arrivals) (r : Arrival)
    → c.total ≡ length whole
    → c.total < 2 ^ 32
    → 0 < full
    → full < 2 ^ 16
    → c.count < 2 ^ 32
    → Covers c full 0 0 l
    → length l ≡ c.count
    → AllAmong l a
    → ((o : OutgoingCommand) → Among o l → Reaches o a)
    → length r.contents ≡ length whole
    → r.fragment_count ≡ c.count
    → ((received whole d a r).fragments_remaining ≡ 0)
      × ((received whole d a r).packet.contents ≡ whole)
covered-whole c whole d full l a r ht hc hp hf hk v e m f room same =
    let fits : length whole < 2 ^ 32 = omega arith in
    let all = pieces-AllFragments c whole d full l ht hf v e a m in
    let arrive : (n : ℕ) → n < c.count → Arrives n (pieces whole d a) = λ n p.
      let (o, q, k) = numbered c full 0 0 n l d v (omega arith) (omega (arith, e)) in
      Reaches-Arrives whole d n o a k (f o q) in
    let cover : length whole ≤ c.count * full =
      let b = Covers-length c full 0 0 l hp v in rw (← ht, ← e) (omega (arith, b)) in
    let zero_left = add_all_complete whole full c.count fits hk r room same _ all arrive in
    (zero_left, add_all-whole whole full c.count fits hk r room same _ all cover zero_left)

-- A packet that is cut into fragments of any size is whole again at the other end once each of
-- them has arrived, in whatever order, however often, and with whatever bytes behind it in its
-- datagram: then no fragment is missing and the bytes are those of the packet. The packet's length
-- fits 32 bits, the size of a fragment is not 0 and fits 16 bits, the count is the one that the
-- source computes and at most 1024 * 1024, and the receiver has begun a command with that count
-- and room for the packet.
pub cut_from-received :
    (c : Cut) (whole : List ℕ) (d : FragmentBody) (full : ℕ) (l : List OutgoingCommand)
    (a : Arrivals) (r : Arrival)
    → c.total ≡ length whole
    → c.total < 2 ^ 32
    → 0 < full
    → full < 2 ^ 16
    → c.count ≡ fragment_count c.total full
    → c.count ≤ 1024 * 1024
    → cut_from (c.total + 1) c full 0 0 ≡ some l
    → AllAmong l a
    → ((o : OutgoingCommand) → Among o l → Reaches o a)
    → length r.contents ≡ length whole
    → r.fragment_count ≡ c.count
    → ((received whole d a r).fragments_remaining ≡ 0)
      × ((received whole d a r).packet.contents ≡ whole)
cut_from-received c whole d full l a r ht hc hp hf hk hm e m f room same =
    let (l', e', v, n) = cut_from_lem c full hk hc hp hf in
    let q : l' ≡ l = ground (arith, e', e) in
    covered-whole c whole d full l a r ht hc hp hf (omega arith)
      (subst (λ x. Covers c full 0 0 x) q v) (subst (λ x. length x ≡ c.count) q n) m f room same
