-- ===== src/Receive/Assembly.antt =====
-- Putting a packet together from its fragments, as `enet_protocol_handle_send_fragment` of
-- src/c/protocol.rs does it for each that arrives.
use rusty_enet.Base.{
  ℕ, zero, suc, ◌+◌, ◌-◌, ◌*◌, ◌^◌, ◌≤◌, ◌<◌, min, ◌≡◌, refl, sym, ap, ◌∙◌, ◌≢◌, ◌⊎◌, inl, inr,
  Bool, true, false, List, [], ◌∷◌, arith, length, get_or, set, take, replicate, length-set,
  get_or-set_ne, length-take,
}
use rusty_enet.Protocol.{FragmentBody}
use rusty_enet.Peer.{IncomingCommand}
use rusty_enet.Receive.Fragment.{write_at, fragment_size, copy_fragment, add_fragment}

-- Bytes written at an offset.
length-write_at : (o : ℕ) (bs l : List ℕ) → length (write_at o bs l) ≡ length l
unfolding write_at
length-write_at zero [] l = refl
length-write_at zero (b ∷ bs) [] = refl
length-write_at zero (b ∷ bs) (x ∷ l) = ap suc (length-write_at zero bs l)
length-write_at (suc o) bs [] = refl
length-write_at (suc o) bs (x ∷ l) = ap suc (length-write_at o bs l)

get_or-write_at_in :
    (o : ℕ) (bs l : List ℕ) (j k : ℕ)
    → j ≡ o + k
    → k < length bs
    → j < length l
    → get_or (write_at o bs l) j 0 ≡ get_or bs k 0
unfolding write_at
get_or-write_at_in zero [] l j k p q r = absurd (omega arith)
get_or-write_at_in zero (b ∷ bs) [] j k p q r = absurd (omega arith)
get_or-write_at_in zero (b ∷ bs) (x ∷ l) zero zero p q r = refl
get_or-write_at_in zero (b ∷ bs) (x ∷ l) zero (suc k) p q r = absurd (omega arith)
get_or-write_at_in zero (b ∷ bs) (x ∷ l) (suc j) zero p q r = absurd (omega arith)
get_or-write_at_in zero (b ∷ bs) (x ∷ l) (suc j) (suc k) p q r =
    get_or-write_at_in zero bs l j k (omega arith) (omega arith) (omega arith)
get_or-write_at_in (suc o) bs [] j k p q r = absurd (omega arith)
get_or-write_at_in (suc o) bs (x ∷ l) zero k p q r = absurd (omega arith)
get_or-write_at_in (suc o) bs (x ∷ l) (suc j) k p q r =
    get_or-write_at_in o bs l j k (omega arith) (omega arith) (omega arith)

get_or-write_at_before :
    (o : ℕ) (bs l : List ℕ) (j : ℕ) → j < o → get_or (write_at o bs l) j 0 ≡ get_or l j 0
unfolding write_at
get_or-write_at_before zero bs l j p = absurd (omega arith)
get_or-write_at_before (suc o) bs [] j p = refl
get_or-write_at_before (suc o) bs (x ∷ l) zero p = refl
get_or-write_at_before (suc o) bs (x ∷ l) (suc j) p = get_or-write_at_before o bs l j (omega arith)

get_or-write_at_after :
    (o : ℕ) (bs l : List ℕ) (j : ℕ)
    → o + length bs ≤ j
    → get_or (write_at o bs l) j 0 ≡ get_or l j 0
unfolding write_at
get_or-write_at_after zero [] l j p = refl
get_or-write_at_after zero (b ∷ bs) [] j p = refl
get_or-write_at_after zero (b ∷ bs) (x ∷ l) zero p = absurd (omega arith)
get_or-write_at_after zero (b ∷ bs) (x ∷ l) (suc j) p =
    get_or-write_at_after zero bs l j (omega arith)
get_or-write_at_after (suc o) bs [] j p = refl
get_or-write_at_after (suc o) bs (x ∷ l) zero p = absurd (omega arith)
get_or-write_at_after (suc o) bs (x ∷ l) (suc j) p = get_or-write_at_after o bs l j (omega arith)

get_or-take : (n : ℕ) (l : List ℕ) (j : ℕ) → j < n → get_or (take n l) j 0 ≡ get_or l j 0
get_or-take zero l j p = absurd (omega arith)
get_or-take (suc n) [] j p = refl
get_or-take (suc n) (x ∷ l) zero p = refl
get_or-take (suc n) (x ∷ l) (suc j) p = get_or-take n l j (omega arith)

-- Lists with the same bytes are the same.
pub same_bytes :
    (l m : List ℕ)
    → length l ≡ length m
    → ((j : ℕ) → j < length m → get_or l j 0 ≡ get_or m j 0)
    → l ≡ m
same_bytes [] [] e f = refl
same_bytes [] (y ∷ m) e f = absurd (omega arith)
same_bytes (x ∷ l) [] e f = absurd (omega arith)
same_bytes (x ∷ l) (y ∷ m) e f =
    let head = f 0 (omega arith) in
    let tail = same_bytes l m (omega arith) (λ j p. f (suc j) (omega arith)) in cc

-- The fragments that are still missing among the first `n`.
abbrev pub missing : (n : ℕ) → List Bool → ℕ
missing zero l = 0
missing (suc n) [] = suc (missing n [])
missing (suc n) (true ∷ l) = missing n l
missing (suc n) (false ∷ l) = suc (missing n l)

missing-set :
    (n : ℕ) (l : List Bool) (k : ℕ)
    → k < n
    → k < length l
    → get_or l k false ≡ false
    → suc (missing n (set l k true)) ≡ missing n l
missing-set zero l k p q e = absurd (omega arith)
missing-set (suc n) [] k p q e = absurd (omega arith)
missing-set (suc n) (true ∷ l) zero p q e = ground arith
missing-set (suc n) (false ∷ l) zero p q e = refl
missing-set (suc n) (true ∷ l) (suc k) p q e = missing-set n l k (omega arith) (omega arith) e
missing-set (suc n) (false ∷ l) (suc k) p q e =
    ap suc (missing-set n l k (omega arith) (omega arith) e)

missing_le : (n : ℕ) (l : List Bool) → missing n l ≤ n
missing_le zero l = omega arith
missing_le (suc n) [] = omega (arith, missing_le n [])
missing_le (suc n) (true ∷ l) = omega (arith, missing_le n l)
missing_le (suc n) (false ∷ l) = omega (arith, missing_le n l)

pub missing-none :
    (n : ℕ) (l : List Bool) → missing n l ≡ 0 → (k : ℕ) → k < n → get_or l k false ≡ true
missing-none zero l e k p = absurd (omega arith)
missing-none (suc n) [] e k p = absurd (omega arith)
missing-none (suc n) (true ∷ l) e zero p = refl
missing-none (suc n) (true ∷ l) e (suc k) p = missing-none n l e k (omega arith)
missing-none (suc n) (false ∷ l) e k p = absurd (omega arith)

pub missing-all :
    (n : ℕ) (l : List Bool) → ((k : ℕ) → k < n → get_or l k false ≡ true) → missing n l ≡ 0
missing-all zero l f = refl
missing-all (suc n) [] f = absurd (let z = f 0 (omega arith) in ground arith)
missing-all (suc n) (true ∷ l) f = missing-all n l (λ k p. f (suc k) (omega arith))
missing-all (suc n) (false ∷ l) f = absurd (let z = f 0 (omega arith) in ground arith)

pub missing-replicate : (n m : ℕ) → missing n (replicate m false) ≡ n
missing-replicate zero m = refl
missing-replicate (suc n) zero = ap suc (missing-replicate n zero)
missing-replicate (suc n) (suc m) = ap suc (missing-replicate n m)

-- A fragment of the packet `whole`, cut every `size` bytes, with the bytes that follow it in its
-- datagram.
pub record IsFragment (whole : List ℕ) (size count : ℕ) (f : FragmentBody) (rest : List ℕ)
    : Type 0 where
  pub number : f.fragment_number < count
  pub offset : f.fragment_offset ≡ f.fragment_number * size
  pub inside : f.fragment_offset < length whole
  pub bytes : f.data_length ≡ min size (length whole - f.fragment_offset)
  pub present : f.data_length ≤ length rest
  pub same : (k : ℕ) → k < f.data_length → get_or rest k 0 ≡ get_or whole (f.fragment_offset + k) 0

-- What holds of the command of a packet that is being put together.
pub record IsPartOf (whole : List ℕ) (size count : ℕ) (i : IncomingCommand) : Type 0 where
  pub room : length i.packet.contents ≡ length whole
  pub bits : count ≤ length i.fragments
  pub remaining : i.fragments_remaining ≡ missing count i.fragments
  pub agrees :
      (n j : ℕ)
      → get_or i.fragments n false ≡ true
      → n * size ≤ j
      → j < n * size + size
      → j < length whole
      → get_or i.packet.contents j 0 ≡ get_or whole j 0

module _ (whole : List ℕ) (size count : ℕ) (whole_fits : length whole < 2 ^ 32)
    (count_fits : count < 2 ^ 32) where
  fragment_size_lem :
      (f : FragmentBody) (rest : List ℕ) (i : IncomingCommand)
      → IsFragment whole size count f rest
      → IsPartOf whole size count i
      → fragment_size f i ≡ f.data_length
  unfolding fragment_size
  fragment_size_lem f rest i v w = ground (arith, v.inside, v.bytes, w.room)

  -- The bytes of a fragment end up in its place, and those around it stay.
  copied_bytes :
      (f : FragmentBody) (rest : List ℕ) (i : IncomingCommand)
      → IsFragment whole size count f rest
      → IsPartOf whole size count i
      → (j : ℕ) → j < length whole
      → f.fragment_offset ≤ j
      → j < f.fragment_offset + f.data_length
      → get_or (write_at f.fragment_offset (take f.data_length rest) i.packet.contents) j 0
        ≡ get_or whole j 0
  copied_bytes f rest i v w j r p q =
      let k = j - f.fragment_offset in
      let e : j ≡ f.fragment_offset + k = omega arith in
      let l : length (take f.data_length rest) ≡ f.data_length =
        omega (arith, length-take f.data_length rest, v.present) in
      get_or-write_at_in f.fragment_offset (take f.data_length rest) i.packet.contents j k e
        (omega arith) (omega (arith, w.room))
      ∙ get_or-take f.data_length rest k (omega arith)
      ∙ v.same k (omega arith)
      ∙ ap (λ x. get_or whole x 0) (sym e)

  kept_bytes :
      (f : FragmentBody) (rest : List ℕ) (i : IncomingCommand)
      → IsFragment whole size count f rest
      → (j : ℕ) → j < f.fragment_offset ⊎ f.fragment_offset + f.data_length ≤ j
      → get_or (write_at f.fragment_offset (take f.data_length rest) i.packet.contents) j 0
        ≡ get_or i.packet.contents j 0
  kept_bytes f rest i v j (inl p) = get_or-write_at_before f.fragment_offset _ _ j p
  kept_bytes f rest i v j (inr p) =
      get_or-write_at_after f.fragment_offset (take f.data_length rest) _ j
        (omega (arith, length-take f.data_length rest, v.present))

  -- Outside of the fragment's place the number is another one.
  kept_number :
      (f : FragmentBody) (rest : List ℕ)
      → IsFragment whole size count f rest
      → (n j : ℕ) → n * size ≤ j
      → j < n * size + size
      → j < length whole
      → j < f.fragment_offset ⊎ f.fragment_offset + f.data_length ≤ j
      → f.fragment_number ≢ n
  kept_number f rest v n j p q r o e =
      let e' = ap (λ x. x * size) e in ground (arith, e', v.offset, v.bytes, v.inside)

  copy_fragment-agrees :
      (f : FragmentBody) (rest : List ℕ) (i : IncomingCommand)
      → IsFragment whole size count f rest
      → IsPartOf whole size count i
      → (n j : ℕ) → get_or (set i.fragments f.fragment_number true) n false ≡ true
      → n * size ≤ j
      → j < n * size + size
      → j < length whole
      → get_or (write_at f.fragment_offset (take f.data_length rest) i.packet.contents) j 0
        ≡ get_or whole j 0
  copy_fragment-agrees f rest i v w n j e p q r =
      let place : (f.fragment_offset ≤ j × j < f.fragment_offset + f.data_length)
          ⊎ (j < f.fragment_offset ⊎ f.fragment_offset + f.data_length ≤ j) =
        ground arith in
      elim place [
        | inl (x, y) ↦ copied_bytes f rest i v w j r x y
        | inr o ↦
            let ne = kept_number f rest v n j p q r o in
            kept_bytes f rest i v j o
            ∙ w.agrees n j (sym (get_or-set_ne i.fragments f.fragment_number n true false ne) ∙ e) p
                q r
      ]

  copy_fragment-IsPartOf :
      (f : FragmentBody) (rest : List ℕ) (i : IncomingCommand)
      → IsFragment whole size count f rest
      → IsPartOf whole size count i
      → get_or i.fragments f.fragment_number false ≡ false
      → IsPartOf whole size count (copy_fragment f rest i)
  unfolding copy_fragment
  copy_fragment-IsPartOf f rest i v w e = record {
    room =
        length-write_at f.fragment_offset (take (fragment_size f i) rest) i.packet.contents
        ∙ w.room;
    bits = omega (arith, length-set i.fragments f.fragment_number true, w.bits);
    remaining = ground (
      arith,
      w.remaining,
      missing_le count i.fragments,
      missing-set count i.fragments f.fragment_number v.number (omega (arith, v.number, w.bits)) e,
    );
    agrees = λ n j m p q r.
        rw (fragment_size_lem f rest i v w) (copy_fragment-agrees f rest i v w n j m p q r);
  }

  pub add_fragment-IsPartOf :
      (f : FragmentBody) (rest : List ℕ) (i : IncomingCommand)
      → IsFragment whole size count f rest
      → IsPartOf whole size count i
      → IsPartOf whole size count (add_fragment f rest i)
  unfolding add_fragment
  add_fragment-IsPartOf f rest i v w = ground (arith, copy_fragment-IsPartOf f rest i v w)
