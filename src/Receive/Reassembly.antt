-- ===== src/Receive/Reassembly.antt =====
-- A packet whose fragments arrive in any order, some of them more than once, at
-- `enet_protocol_handle_send_fragment` of src/c/protocol.rs.
use rusty_enet.Base.{
  ℕ, zero, suc, ◌+◌, ◌*◌, ◌/◌, ◌^◌, ◌≤◌, ◌<◌, ◌≡◌, ◌≢◌, refl, sym, ap, ◌∙◌, ◌⊎◌, inl, inr, Bool,
  true, false, List, [], ◌∷◌, arith, length, get_or, set, replicate, get_or-set_self,
}
use rusty_enet.Protocol.{FragmentBody}
use rusty_enet.Peer.{IncomingCommand}
use rusty_enet.Incoming.Arriving.{Arrival, new_incoming}
use rusty_enet.Receive.Fragment.{copy_fragment, add_fragment}
use rusty_enet.Receive.Assembly.{
  same_bytes, missing-none, missing-all, missing-replicate, IsFragment, IsPartOf,
  add_fragment-IsPartOf,
}

-- The fragments in the order in which they arrive, each with the bytes behind it.
abbrev pub Piece : Type 0
Piece = FragmentBody × List ℕ

unfoldable pub add_all : List Piece → IncomingCommand → IncomingCommand
add_all [] i = i
add_all ((f, rest) ∷ l) i = add_all l (add_fragment f rest i)

abbrev pub AllFragments : (whole : List ℕ) (size count : ℕ) → List Piece → Type 0
AllFragments whole size count [] = Unit
AllFragments whole size count ((f, rest) ∷ l) =
    IsFragment whole size count f rest × AllFragments whole size count l

abbrev pub Arrives : (number : ℕ) → List Piece → Type 0
Arrives n [] = ⊥
Arrives n ((f, rest) ∷ l) = f.fragment_number ≡ n ⊎ Arrives n l

-- The place of a byte among the fragments.
slot :
    (size count j : ℕ) → j < count * size → (n : ℕ) × n < count × n * size ≤ j × j < n * size + size
slot size zero j p = absurd (omega arith)
slot size (suc c) j p =
    let q : j < c * size ⊎ c * size ≤ j = ground arith in
    elim q [
      | inl r ↦ let (n, a, b, d) = slot size c j r in (n, omega arith, b, d)
      | inr r ↦ (c, omega arith, r, omega arith)
    ]

keeps_mark :
    (l : List Bool) (k n : ℕ) → get_or l n false ≡ true → get_or (set l k true) n false ≡ true
keeps_mark [] k n e = e
keeps_mark (b ∷ l) zero zero e = refl
keeps_mark (b ∷ l) zero (suc n) e = e
keeps_mark (b ∷ l) (suc k) zero e = e
keeps_mark (b ∷ l) (suc k) (suc n) e = keeps_mark l k n e

add_fragment-keeps_mark :
    (f : FragmentBody) (rest : List ℕ) (i : IncomingCommand) (n : ℕ)
    → get_or i.fragments n false ≡ true
    → get_or (add_fragment f rest i).fragments n false ≡ true
unfolding add_fragment copy_fragment
add_fragment-keeps_mark f rest i n e = ground (arith, keeps_mark i.fragments f.fragment_number n e)

add_fragment-marks :
    (f : FragmentBody) (rest : List ℕ) (i : IncomingCommand)
    → f.fragment_number < length i.fragments
    → get_or (add_fragment f rest i).fragments f.fragment_number false ≡ true
unfolding add_fragment copy_fragment
add_fragment-marks f rest i p =
    ground (arith, get_or-set_self i.fragments f.fragment_number true false p)

add_all-keeps_mark :
    (l : List Piece) (i : IncomingCommand) (n : ℕ)
    → get_or i.fragments n false ≡ true
    → get_or (add_all l i).fragments n false ≡ true
unfolding add_all
add_all-keeps_mark [] i n e = e
add_all-keeps_mark ((f, rest) ∷ l) i n e =
    add_all-keeps_mark l (add_fragment f rest i) n (add_fragment-keeps_mark f rest i n e)

length-replicate : (n : ℕ) → length (replicate n false) ≡ n
length-replicate zero = refl
length-replicate (suc n) = ap suc (length-replicate n)

unmarked : (n k : ℕ) → get_or (replicate n false) k false ≢ true
unmarked zero k e = absurd (ground arith)
unmarked (suc n) zero e = absurd (ground arith)
unmarked (suc n) (suc k) e = unmarked n k e

module _ (whole : List ℕ) (size count : ℕ) (whole_fits : length whole < 2 ^ 32)
    (count_fits : count < 2 ^ 32) where
  add_all-IsPartOf :
      (l : List Piece) (i : IncomingCommand)
      → AllFragments whole size count l
      → IsPartOf whole size count i
      → IsPartOf whole size count (add_all l i)
  unfolding add_all
  add_all-IsPartOf [] i v w = w
  add_all-IsPartOf ((f, rest) ∷ l) i (v, vs) w =
      add_all-IsPartOf l (add_fragment f rest i) vs
        (add_fragment-IsPartOf whole size count whole_fits count_fits f rest i v w)

  add_all-marks :
      (l : List Piece) (i : IncomingCommand)
      → AllFragments whole size count l
      → IsPartOf whole size count i
      → (n : ℕ) → Arrives n l
      → get_or (add_all l i).fragments n false ≡ true
  unfolding add_all
  add_all-marks [] i v w n a = absurd a
  add_all-marks ((f, rest) ∷ l) i (v, vs) w n (inl e) =
      add_all-keeps_mark l (add_fragment f rest i) n
        (rw (← e) (add_fragment-marks f rest i (omega (arith, v.number, w.bits))))
  add_all-marks ((f, rest) ∷ l) i (v, vs) w n (inr a) =
      add_all-marks l (add_fragment f rest i) vs
        (add_fragment-IsPartOf whole size count whole_fits count_fits f rest i v w) n a

  -- With nothing missing the contents are those of the packet.
  none_missing :
      (i : IncomingCommand)
      → IsPartOf whole size count i
      → length whole ≤ count * size
      → i.fragments_remaining ≡ 0
      → i.packet.contents ≡ whole
  none_missing i w c e = same_bytes i.packet.contents whole w.room (λ j p.
      let (n, a, b, d) = slot size count j (omega arith) in
      w.agrees n j (missing-none count i.fragments (sym w.remaining ∙ e) n a) b d p)

  module _ (a : Arrival) (room : length a.contents ≡ length whole)
      (same_count : a.fragment_count ≡ count) where
    new_incoming-IsPartOf : IsPartOf whole size count (new_incoming 0 a)
    unfolding new_incoming
    new_incoming-IsPartOf = record {
      room = room;
      bits = omega (arith, length-replicate (32 * ((a.fragment_count + 31) / 32)), same_count);
      remaining = same_count ∙ sym (missing-replicate count _);
      agrees = λ n j e. absurd (unmarked _ n e);
    }

    -- A packet that is handed on is the one that was sent: for a command that was begun with room
    -- for the packet, and any fragments of it in any order and any number of times, once the count
    -- of those that remain is down to 0 the packet's bytes are those that were cut up. The
    -- packet's length and the count of fragments fit 32 bits, and the fragments cover the packet.
    pub add_all-whole :
        (l : List Piece)
        → AllFragments whole size count l
        → length whole ≤ count * size
        → (add_all l (new_incoming 0 a)).fragments_remaining ≡ 0
        → (add_all l (new_incoming 0 a)).packet.contents ≡ whole
    add_all-whole l v c e =
        none_missing (add_all l (new_incoming 0 a))
          (add_all-IsPartOf l (new_incoming 0 a) v new_incoming-IsPartOf) c e

    -- Once every fragment of a packet has arrived, in any order and any number of times, at a
    -- command that was begun with room for the packet and with its count of fragments, the count
    -- of those that remain is 0. The packet's length and the count fit 32 bits.
    pub add_all_complete :
        (l : List Piece)
        → AllFragments whole size count l
        → ((n : ℕ) → n < count → Arrives n l)
        → (add_all l (new_incoming 0 a)).fragments_remaining ≡ 0
    add_all_complete l v f =
        let w = add_all-IsPartOf l (new_incoming 0 a) v new_incoming-IsPartOf in
        w.remaining
        ∙ missing-all count _
            (λ n p. add_all-marks l (new_incoming 0 a) v new_incoming-IsPartOf n (f n p))
