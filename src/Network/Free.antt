-- ===== src/Network/Free.antt =====
-- The free peer that a request takes: the searches of `enet_host_connect` and
-- `enet_protocol_handle_connect`.
use rusty_enet.Base.{
  ℕ, add_size, suc, ◌+◌, ◌≡◌, refl, subst, ◌⊎◌, inl, inr, List, [], ◌∷◌, Option, some, arith,
}
use rusty_enet.Peer.{disconnected, Peer}
use rusty_enet.Network.{Addresses, Slot, peer_at, find_free}
use rusty_enet.Network.Answering.{unused, classify, scanned, scan, first}

module _ {A : Type 0} where
  -- The index `i`, counted from `k`, is that of a disconnected peer.
  abbrev pub FreeFrom : (k : ℕ) → List (Slot A) → (i : ℕ) → Type 0
  FreeFrom k [] i = ⊥
  FreeFrom k (s ∷ l) i = ((k ≡ i) × (s.peer.state ≡ disconnected)) ⊎ FreeFrom (k + 1) l i

  pub record IsFree (l : List (Slot A)) (i : ℕ) : Type 0 where
    pub free : Peer
    pub found : peer_at l i ≡ some free
    pub is_disconnected : free.state ≡ disconnected

  FreeFrom-IsFree :
      (k : ℕ) (l : List (Slot A)) (i : ℕ) → FreeFrom k l i → (j : ℕ) × (i ≡ k + j) × IsFree l j
  FreeFrom-IsFree k [] i f = absurd f
  FreeFrom-IsFree k (s ∷ l) i (inl (e, d)) =
      (0, omega arith, record { free = s.peer; found = refl; is_disconnected = d })
  FreeFrom-IsFree k (s ∷ l) i (inr f) =
      let (j, e, r) = FreeFrom-IsFree (k + 1) l i f in
      (
        suc j,
        omega arith,
        record { free = r.free; found = r.found; is_disconnected = r.is_disconnected },
      )

  pub first_unused : (l : List (Slot A)) (i : ℕ) → FreeFrom 0 l i → IsFree l i
  first_unused l i f = let (j, e, r) = FreeFrom-IsFree 0 l i f in subst (IsFree l) (omega arith) r

  pub find_free-FreeFrom :
      (k : ℕ) (l : List (Slot A)) (i : ℕ) → find_free k l ≡ some i → FreeFrom k l i
  unfolding find_free
  find_free-FreeFrom k [] i e = ground arith
  find_free-FreeFrom k (s ∷ l) i e = ground (arith, find_free-FreeFrom (k + 1) l i)

  classify-unused :
      (addresses : Addresses A) (x : Option A) (c : ℕ) (s : Slot A)
      → classify addresses x c s ≡ unused
      → s.peer.state ≡ disconnected
  unfolding classify
  classify-unused addresses x c s e = ground arith

  pub scan-FreeFrom :
      (addresses : Addresses A) (x : Option A) (c k : ℕ) (o : Option ℕ) (n : ℕ) (l : List (Slot A))
      (i m : ℕ)
      → scan addresses x c k o n l ≡ scanned (some i) m
      → (o ≡ some i) ⊎ FreeFrom k l i
  unfolding scan
  scan-FreeFrom addresses x c k o n [] i m e = ground arith
  scan-FreeFrom addresses x c k o n (s ∷ l) i m e = ground (
    arith,
    classify-unused addresses x c s,
    scan-FreeFrom addresses x c (k + 1) (first k o) n l i m,
    scan-FreeFrom addresses x c (k + 1) o n l i m,
    scan-FreeFrom addresses x c (k + 1) o (add_size n 1) l i m,
  )
