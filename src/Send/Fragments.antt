-- ===== src/Send/Fragments.antt =====
-- The loop of `enet_peer_send` in src/c/peer.rs that cuts a packet, and what a covering of a packet
-- by fragments is.
use rusty_enet.Base.{
  ℕ, zero, suc, ◌+◌, ◌-◌, ◌*◌, ◌/◌, ◌^◌, ◌≤◌, ◌<◌, ◌≡◌, refl, sym, ap, ◌∙◌, List, [], ◌∷◌, Option,
  some, none, arith, length, ltb, ◌≢◌, Option-cases, get_elem?, if◌then◌else◌, u16, u32, add32,
  add_size, sub_size, ◌⊎◌, inl, inr, Bool-cases,
}
use mathlib.Core.Path.{subst, subst₂}
use native.Mathlib.Nat.{div-eq_of_lt-le, div-lt_iff_lt-mul}
use rusty_enet.Packet.{Packet, data_length}
use rusty_enet.Peer.{OutgoingCommand, Channel, Context}
use rusty_enet.Send.{
  Cut, fragment, cut_from, fragment_count, max_fragment_length, cut, send_fragments, send,
  out_of_fuel,
}

-- One fragment as the other end is to see it.
abbrev pub IsFragment : Cut → (number offset size : ℕ) → OutgoingCommand → Type 0
IsFragment c number offset size o =
    (o ≡ fragment c number offset size) × (o.fragment_offset ≡ offset)

-- Fragments numbered from `number` that cover the bytes from `offset` to the end, each of them
-- not empty and, but for the last, of the full size.
abbrev pub Covers : Cut → (full number offset : ℕ) → List OutgoingCommand → Type 0
Covers c full number offset [] = offset ≡ c.total
Covers c full number offset (o ∷ l) =
    IsFragment c number offset o.fragment_length o
    × (0 < o.fragment_length)
    × (o.fragment_length ≤ full)
    × ((o.fragment_length ≡ full) ⊎ (offset + o.fragment_length ≡ c.total))
    × Covers c full (number + 1) (offset + o.fragment_length) l

abbrev pub CoversAll : Cut → (full number offset : ℕ) → Option (List OutgoingCommand) → Type 0
CoversAll c full number offset none = ⊥
CoversAll c full number offset (some l) = Covers c full number offset l

cover_step :
    (c : Cut) (full number offset size number' offset' : ℕ) (rest : Option (List OutgoingCommand))
    → 0 < size
    → size ≤ full
    → full < 2 ^ 16
    → (size ≡ full) ⊎ (offset + size ≡ c.total)
    → number' ≡ number + 1
    → offset' ≡ offset + size
    → CoversAll c full number' offset' rest
    → CoversAll c full number offset
        (elim rest [ none ↦ none | some l ↦ some (fragment c number offset size ∷ l) ])
unfolding fragment
cover_step c full number offset size number' offset' none p q f d e k h = h
cover_step c full number offset size number' offset' (some l) p q f d e k h =
    let small : u16 size ≡ size = omega arith in
    (
      (ground (arith, small), refl),
      ground arith,
      ground arith,
      ground arith,
      subst₂ (λ n o. Covers c full n o l) e (k ∙ ap (λ s. offset + s) (sym small)) h,
    )

-- `size` is the full size until the last fragment has been cut.
cut_from-CoversAll :
    (fuel : ℕ) (c : Cut) (full size number offset : ℕ)
    → c.total < 2 ^ 32
    → 0 < full
    → full < 2 ^ 16
    → (size ≡ full) ⊎ (offset ≡ c.total)
    → offset ≤ c.total
    → number ≤ offset
    → c.total - offset < fuel
    → CoversAll c full number offset (cut_from fuel c size number offset)
unfolding cut_from
cut_from-CoversAll zero c full size number offset ht hf hs st ho hn hfuel = absurd (omega arith)
cut_from-CoversAll (suc fuel) c full size number offset ht hf hs st ho hn hfuel =
    let left = sub_size c.total offset in
    let size' = if ltb left size then left else size in
    let number' = add32 number 1 in
    let offset' = u32 (add_size offset size') in
    elim (Bool-cases (ltb offset c.total)) [
      | inl more ↦ rw more (
          cover_step c full number offset size' number' offset'
            (cut_from fuel c size' number' offset') (ground arith) (ground arith) hs (ground arith)
            (ground arith) (ground arith)
            (cut_from-CoversAll fuel c full size' number' offset' ht hf hs (ground arith)
              (ground arith) (ground arith) (ground arith)))
      | inr done ↦ rw done (ground arith)
    ]

Covers-le :
    (c : Cut) (full number offset : ℕ) (l : List OutgoingCommand)
    → Covers c full number offset l
    → offset ≤ c.total
Covers-le c full number offset [] h = omega arith
Covers-le c full number offset (o ∷ l) h =
    omega (arith, Covers-le c full (number + 1) (offset + o.fragment_length) l h.4)

Covers-end :
    (c : Cut) (full number : ℕ) (l : List OutgoingCommand)
    → Covers c full number c.total l
    → length l ≡ 0
Covers-end c full number [] h = refl
Covers-end c full number (o ∷ l) h =
    absurd (omega (arith, Covers-le c full (number + 1) (c.total + o.fragment_length) l h.4))

-- The number of fragments, between the bounds that make it a rounded up quotient.
pub Covers-length :
    (c : Cut) (full number offset : ℕ) (l : List OutgoingCommand)
    → 0 < full
    → Covers c full number offset l
    → (c.total ≤ offset + length l * full) × (offset + length l * full < c.total + full)
Covers-length c full number offset [] hf h = omega arith
Covers-length c full number offset (o ∷ l) hf h = elim h.3 [
  | inl e ↦ omega (arith, Covers-length c full (number + 1) (offset + o.fragment_length) l hf h.4)
  | inr e ↦
      let z : length l ≡ 0 =
        Covers-end c full (number + 1) l (subst (λ t. Covers c full (number + 1) t l) e h.4) in
      omega (arith, ap (λ (k : ℕ). k * full) z)
]

fragment_count_unique :
    (n f k : ℕ)
    → 0 < f
    → n < 2 ^ 32
    → f < 2 ^ 16
    → n ≤ k * f
    → k * f < n + f
    → fragment_count n f ≡ k
unfolding fragment_count
fragment_count_unique n f k hf hn hs lo hi =
    let q : (n + f - 1) / f ≡ k = div-eq_of_lt-le f {m = n + f - 1} (omega arith) (omega arith) in
    let b : (n + f - 1) / f < 2 ^ 32 = (div-lt_iff_lt-mul hf).1 (omega arith) in
    let w : sub_size (add_size n f) 1 ≡ n + f - 1 = omega arith in rw w (omega arith)

-- A packet that needs fragments is cut into as many as each of them announces. They are numbered
-- from 0, cover the packet's bytes in order without gap or overlap, none is empty or longer than
-- fits, and all but the last have the full size. One more round than the packet has bytes is
-- enough. The packet's length fits 32 bits, and the full size is not 0 and fits 16 bits.
pub cut_from_lem :
    (c : Cut) (full : ℕ)
    → c.count ≡ fragment_count c.total full
    → c.total < 2 ^ 32
    → 0 < full
    → full < 2 ^ 16
    → (l : List OutgoingCommand) × (cut_from (c.total + 1) c full 0 0 ≡ some l)
      × Covers c full 0 0 l
      × (length l ≡ c.count)
cut_from_lem c full hc ht hf hs = go (cut_from (c.total + 1) c full 0 0) (
    cut_from-CoversAll (c.total + 1) c full full 0 0 ht hf hs (inl refl) (omega arith) (omega arith)
      (omega arith))
  where
    go :
        (o : Option (List OutgoingCommand))
        → CoversAll c full 0 0 o
        → (l : List OutgoingCommand) × (o ≡ some l) × Covers c full 0 0 l × (length l ≡ c.count)
    go none h = absurd h
    go (some l) h =
        let b = Covers-length c full 0 0 l hf h in
        (
          l,
          refl,
          h,
          sym (
              hc
              ∙ fragment_count_unique c.total full (length l) hf ht hs (omega (arith, b))
                  (omega (arith, b))),
        )

send_fragments-ends :
    (channel_id address : ℕ) (pkt : Packet) (ch : Channel) (size : ℕ) (c : Context)
    → data_length pkt < 2 ^ 32
    → 0 < size
    → size < 2 ^ 16
    → send_fragments channel_id address pkt ch size c ≢ out_of_fuel
unfolding send_fragments cut
send_fragments-ends channel_id address pkt ch size c ht hf hs =
    let k = cut channel_id address pkt ch (fragment_count (data_length pkt) size) in
    ground (arith, cut_from_lem k size refl ht hf hs)

-- Sending a packet never runs out of rounds, for a packet whose length fits 32 bits and an mtu
-- between 576 and 4096.
pub send-ends :
    (channel_id address : ℕ) (pkt : Packet) (c : Context)
    → data_length pkt < 2 ^ 32
    → 576 ≤ c.peer.mtu
    → c.peer.mtu ≤ 4096
    → send channel_id address pkt c ≢ out_of_fuel
unfolding send max_fragment_length
send-ends channel_id address pkt c ht lo hi =
    elim (Option-cases (get_elem? c.peer.channels channel_id)) [
      | inl e ↦ rw (e, send) (ground arith)
      | inr (ch, e) ↦
          rw (e, send)
            (ground (
              arith,
              send_fragments-ends channel_id address pkt ch (max_fragment_length c.host c.peer) c
                  ht,
            ))
    ]
