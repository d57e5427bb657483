-- ===== src/Connected/Generations.antt =====
-- The generations of addresses: which connection of src/connected.rs a packet is for.
use rusty_enet.Base.{
  ℕ, zero, suc, ◌<◌, ◌≡◌, ◌≢◌, List, [], ◌∷◌, Option, none, some, arith, get_elem?, set,
}
use rusty_enet.Connected.{Address, PeerState, Host, state_address}

module _ {C A : Type 0} where
  abbrev pub address_of : Option (PeerState C A) → Option (Address A)
  address_of none = none
  address_of (some s) = state_address s

  -- The address of the connection at an index, if there is one.
  abbrev pub address_at : List (PeerState C A) → ℕ → Option (Address A)
  address_at l i = address_of (get_elem? l i)

  -- Nothing but what was there: each connection keeps its address or is gone.
  abbrev pub Remains : List (PeerState C A) → List (PeerState C A) → Type 0
  Remains l m = (i : ℕ) (a : Address A) → address_at m i ≡ some a → address_at l i ≡ some a

  pub Remains-trans : (k l m : List (PeerState C A)) → Remains k l → Remains l m → Remains k m
  Remains-trans k l m f g i a e = f i a (g i a e)

  -- A state whose address is that of another, or none.
  abbrev pub Within : PeerState C A → PeerState C A → Type 0
  Within s t = (a : Address A) → state_address t ≡ some a → state_address s ≡ some a

  pub Remains-set :
      (l : List (PeerState C A)) (i : ℕ) (s t : PeerState C A)
      → get_elem? l i ≡ some s
      → Within s t
      → Remains l (set l i t)
  Remains-set [] i s t e w j a f = f
  Remains-set (x ∷ l) zero s t e w zero a f = ground (arith, w a f)
  Remains-set (x ∷ l) zero s t e w (suc j) a f = f
  Remains-set (x ∷ l) (suc i) s t e w zero a f = f
  Remains-set (x ∷ l) (suc i) s t e w (suc j) a f = Remains-set l i s t e w j a f

  pub Remains-cons :
      (s t : PeerState C A) (l m : List (PeerState C A))
      → Within s t
      → Remains l m
      → Remains (s ∷ l) (t ∷ m)
  Remains-cons s t l m w r zero a f = w a f
  Remains-cons s t l m w r (suc j) a f = r j a f

-- Each address names its own peer, and has a generation that is used up and is that of no other.
pub record IsWellFormed {S C A : Type 0} (h : Host S C A) : Type 0 where
  pub own_index : (i : ℕ) (a : Address A) → address_at h.peers i ≡ some a → a.id ≡ i
  pub used :
      (i : ℕ) (a : Address A) → address_at h.peers i ≡ some a → a.generation < h.next_generation
  pub distinct :
      (i j : ℕ) (a b : Address A)
      → address_at h.peers i ≡ some a
      → address_at h.peers j ≡ some b
      → a.generation ≡ b.generation
      → i ≡ j

-- A generation that was used and whose connection is gone.
pub record IsRetired {S C A : Type 0} (g : ℕ) (h : Host S C A) : Type 0 where
  pub was_used : g < h.next_generation
  pub is_gone : (i : ℕ) (a : Address A) → address_at h.peers i ≡ some a → a.generation ≢ g

module _ {S C A : Type 0} where
  -- One host after another: no address is new.
  pub record Shrinks (h k : Host S C A) : Type 0 where
    pub same_generation : k.next_generation ≡ h.next_generation
    pub peers_remain : Remains h.peers k.peers

  pub Shrinks-IsWellFormed : (h k : Host S C A) → Shrinks h k → IsWellFormed h → IsWellFormed k
  Shrinks-IsWellFormed h k s w = record {
    own_index = λ i a e. w.own_index i a (s.peers_remain i a e);
    used = λ i a e. omega (arith, w.used i a (s.peers_remain i a e), s.same_generation);
    distinct = λ i j a b e f g. w.distinct i j a b (s.peers_remain i a e) (s.peers_remain j b f) g;
  }

  pub Shrinks-IsRetired : (g : ℕ) (h k : Host S C A) → Shrinks h k → IsRetired g h → IsRetired g k
  Shrinks-IsRetired g h k s r = record {
    was_used = omega (arith, r.was_used, s.same_generation);
    is_gone = λ i a e. r.is_gone i a (s.peers_remain i a e);
  }
