-- ===== src/Connected/Renewing.antt =====
-- `Host::add_connection` of src/connected.rs and the generation that it takes.
use rusty_enet.Base.{
  ℕ, zero, suc, ◌+◌, ◌≡◌, ◌⊎◌, inl, inr, refl, sym, ap, subst, List, [], ◌∷◌, Option, none, some,
  arith, set,
}
use rusty_enet.Connected.{
  Address, PeerState, awaiting_peer, has_peer, Connection, Inner, Host, state_address, no_settings,
}
use rusty_enet.Connected.Adding.{
  ConnectionKind, initiator, receiver, Addition, no_available_peers, failed_to_initialize, added,
  find_disconnected, set_state, take_generation, after_connect, initiate, await, add_at,
  add_connection,
}
use rusty_enet.Connected.Generations.{address_at, IsWellFormed, IsRetired}

module _ {C A : Type 0} where
  -- What is in a list of peers where one of them was set.
  address_at-set :
      (l : List (PeerState C A)) (i j : ℕ) (s : PeerState C A) (a b : Address A)
      → state_address s ≡ some a
      → address_at (set l i s) j ≡ some b
      → ((j ≡ i) × (b ≡ a)) ⊎ (address_at l j ≡ some b)
  address_at-set [] i j s a b e f = inr f
  address_at-set (x ∷ l) zero zero s a b e f = inl (refl, ground (arith, e, f))
  address_at-set (x ∷ l) zero (suc j) s a b e f = inr f
  address_at-set (x ∷ l) (suc i) zero s a b e f = inr f
  address_at-set (x ∷ l) (suc i) (suc j) s a b e f = elim (address_at-set l i j s a b e f) [
    | inl (g, h) ↦ inl (ap suc g, h)
    | inr g ↦ inr g
  ]

-- One host after another: a generation is taken, and at most one address is new and has it.
pub record Renews {S C A : Type 0} (h k : Host S C A) : Type 0 where
  pub next : k.next_generation ≡ h.next_generation + 1
  pub new_index : ℕ
  pub old_or_new :
      (j : ℕ) (b : Address A)
      → address_at k.peers j ≡ some b
      → ((j ≡ new_index) × ((b.id ≡ new_index) × (b.generation ≡ h.next_generation)))
        ⊎ (address_at h.peers j ≡ some b)

module _ {S C A : Type 0} where
  pub Renews-IsRetired : (g : ℕ) (h k : Host S C A) → Renews h k → IsRetired g h → IsRetired g k
  Renews-IsRetired g h k r t = record {
    was_used = omega (arith, t.was_used, r.next);
    is_gone = λ i a e. elim (r.old_or_new i a e) [
      | inl (x, (y, z)) ↦ λ q. absurd (omega (arith, t.was_used, z, q))
      | inr f ↦ t.is_gone i a f
    ];
  }

  pub Renews-IsWellFormed : (h k : Host S C A) → Renews h k → IsWellFormed h → IsWellFormed k
  Renews-IsWellFormed h k r w = record {
    own_index = λ i a e. elim (r.old_or_new i a e) [
      | inl (x, (y, z)) ↦ omega (arith, x, y)
      | inr f ↦ w.own_index i a f
    ];
    used = λ i a e. elim (r.old_or_new i a e) [
      | inl (x, (y, z)) ↦ omega (arith, z, r.next)
      | inr f ↦ omega (arith, w.used i a f, r.next)
    ];
    distinct = λ i j a b e f g. elim (r.old_or_new i a e) [
      | inl (x, (y, z)) ↦ elim (r.old_or_new j b f) [
        | inl (x1, (y1, z1)) ↦ omega (arith, x, x1)
        | inr f1 ↦ absurd (omega (arith, w.used j b f1, z, g))
      ]
      | inr e1 ↦ elim (r.old_or_new j b f) [
        | inl (x1, (y1, z1)) ↦ absurd (omega (arith, w.used i a e1, z1, g))
        | inr f1 ↦ w.distinct i j a b e1 f1 g
      ]
    ];
  }

  take_generation-Renews : (h : Host S C A) → Renews h (take_generation h)
  take_generation-Renews h = record { next = refl; new_index = 0; old_or_new = λ j b e. inr e }

  added-Renews :
      (h : Host S C A) (g : S) (i : ℕ) (x : A) (s : PeerState C A)
      → state_address s ≡ some (record { address = x; id = i; generation = h.next_generation })
      → Renews h (set_state i s (record (take_generation h) { inner = g }))
  added-Renews h g i x s e = record {
    next = refl;
    new_index = i;
    old_or_new = λ j b f.
        let a : Address A = record { address = x; id = i; generation = h.next_generation } in
        elim (address_at-set h.peers i j s a b e f) [
          | inl (p, q) ↦ inl (p, (ap (λ y. y.id) q, ap (λ y. y.generation) q))
          | inr q ↦ inr q
        ];
  }

  -- The host that an addition leaves.
  abbrev pub host_after : Addition S C A → Host S C A
  host_after (no_available_peers h) = h
  host_after (failed_to_initialize h) = h
  host_after (added i h) = h

module _ {S C A D : Type 0} (operations : Inner S A D) (connections : Connection C A) where
  after_connect-Renews :
      (h : Host S C A) (i : ℕ) (c : C) (x : A) (o : Option (ℕ × S))
      → Renews h (
          host_after (
            after_connect operations connections i c
              (record { address = x; id = i; generation = h.next_generation })
              (take_generation h)
              o))
  after_connect-Renews h i c x none = take_generation-Renews h
  after_connect-Renews h i c x (some (p, s)) =
      added-Renews h s i x
        (has_peer c (record { address = x; id = i; generation = h.next_generation }) p) refl

  initiate-Renews :
      (h : Host S C A) (i n d : ℕ) (r : C × Option A)
      → Renews h (host_after (initiate operations connections i n d h r))
  initiate-Renews h i n d (c, none) = take_generation-Renews h
  initiate-Renews h i n d (c, some x) = after_connect-Renews h i c x (
      operations.connect (record { address = x; id = i; generation = h.next_generation }) n d
        h.inner)

  await-Renews :
      (h : Host S C A) (i t : ℕ) (r : C × Option A)
      → Renews h (host_after (await operations connections i t h r))
  await-Renews h i t (c, none) = take_generation-Renews h
  await-Renews h i t (c, some x) =
      added-Renews h h.inner i x
        (awaiting_peer c (record { address = x; id = i; generation = h.next_generation })
          (operations.now h.inner) t no_settings)
        refl

  -- A host is the same where it has no peer left, or a generation is taken.
  add_connection-Renews :
      (k : ConnectionKind C) (h : Host S C A)
      → (host_after (add_connection operations connections k h) ≡ h)
        ⊎ Renews h (host_after (add_connection operations connections k h))
  unfolding add_connection
  add_connection-Renews k h = go k (find_disconnected 0 h.peers)
    where
      go :
          (k : ConnectionKind C) (o : Option ℕ)
          → (host_after (add_at operations connections k h o) ≡ h)
            ⊎ Renews h (host_after (add_at operations connections k h o))
      go k none = inl refl
      go (initiator c n d) (some i) = inr (initiate-Renews h i n d (connections.init c))
      go (receiver c t) (some i) = inr (await-Renews h i t (connections.init c))

  pub add_connection-IsWellFormed :
      (k : ConnectionKind C) (h : Host S C A)
      → IsWellFormed h
      → IsWellFormed (host_after (add_connection operations connections k h))
  add_connection-IsWellFormed k h w = elim (add_connection-Renews k h) [
    | inl e ↦ subst IsWellFormed (sym e) w
    | inr r ↦ Renews-IsWellFormed h (host_after (add_connection operations connections k h)) r w
  ]

  pub add_connection-IsRetired :
      (g : ℕ) (k : ConnectionKind C) (h : Host S C A)
      → IsRetired g h
      → IsRetired g (host_after (add_connection operations connections k h))
  add_connection-IsRetired g k h w = elim (add_connection-Renews k h) [
    | inl e ↦ subst (IsRetired g) (sym e) w
    | inr r ↦ Renews-IsRetired g h (host_after (add_connection operations connections k h)) r w
  ]
