-- ===== src/Connected/Lasting.antt =====
-- The steps of a host of src/connected.rs: connections that are added, service, events that are taken,
-- and what the application does with its peers.
use rusty_enet.Base.{
  ℕ, zero, suc, ◌≡◌, ◌≢◌, refl, ap, subst, ◌∙◌, List, [], ◌∷◌, Option, none, some, arith, get_elem?,
  set, replicate,
}
use rusty_enet.Connected.{
  Address, PeerState, disconnected, awaiting_peer, has_peer, disconnecting, Connection,
  state_address, Event, Inner, Host,
}
use rusty_enet.Connected.Adding.{ConnectionKind, set_state, new_connected, add_connection}
use rusty_enet.Connected.Telling.{told, check_events}
use rusty_enet.Connected.Shuttling.{send_to, deliver_to, deliver_at, write_back, deliver, service}
use rusty_enet.Connected.Generations.{
  address_at, address_of, IsWellFormed, IsRetired, Shrinks, Shrinks-IsWellFormed, Shrinks-IsRetired,
}
use rusty_enet.Connected.Keeping.{set_state-Shrinks, with_inner-Shrinks}
use rusty_enet.Connected.Renewing.{
  host_after, add_connection-IsWellFormed, add_connection-IsRetired,
}
use rusty_enet.Connected.Living.{check_events-ToldShrinks, service-ToldShrinks, ToldShrinks}
use rusty_enet.Connected.Handling.{Handles, Handles-Within}

module _ {S C A D : Type 0} (operations : Inner S A D) (connections : Connection C A) where
  -- A step of the application. The host below may change in its own ways between them.
  pub data Step (h : Host S C A) : Host S C A → Type 0 where
    adds : (k : ConnectionKind C) → Step h (host_after (add_connection operations connections k h))
    serves :
        (fuel : ℕ) (e : Option (Event D)) (m : Host S C A)
        → service operations connections fuel h ≡ told e m
        → Step h m
    checks :
        (e : Option (Event D)) (m : Host S C A) → check_events operations h ≡ told e m → Step h m
    handles :
        (i : ℕ) (s t : PeerState C A) (g : S)
        → get_elem? h.peers i ≡ some s
        → Handles operations s h.inner t g
        → Step h (set_state i t (record h { inner = g }))
    works : (g : S) → Step h (record h { inner = g })

  pub data Steps : Host S C A → Host S C A → Type 0 where
    done : (h : Host S C A) → Steps h h
    step : (h k m : Host S C A) → Step h k → Steps k m → Steps h m

  service-Shrinks :
      (n : ℕ) (e : Option (Event D)) (h m : Host S C A)
      → service operations connections n h ≡ told e m
      → Shrinks h m
  service-Shrinks n e h m f =
      subst (ToldShrinks operations h) f (service-ToldShrinks operations connections n h)

  check_events-Shrinks :
      (e : Option (Event D)) (h m : Host S C A) → check_events operations h ≡ told e m → Shrinks h m
  check_events-Shrinks e h m f =
      subst (ToldShrinks operations h) f (check_events-ToldShrinks operations h)

  Step-IsWellFormed : (h k : Host S C A) → Step h k → IsWellFormed h → IsWellFormed k
  Step-IsWellFormed h _ (adds k) w = add_connection-IsWellFormed operations connections k h w
  Step-IsWellFormed h _ (serves n e m f) w = Shrinks-IsWellFormed h m (service-Shrinks n e h m f) w
  Step-IsWellFormed h _ (checks e m f) w = Shrinks-IsWellFormed h m (check_events-Shrinks e h m f) w
  Step-IsWellFormed h k (handles i s t g e x) w =
      Shrinks-IsWellFormed h k
        (set_state-Shrinks h g i s t e (Handles-Within operations s h.inner t g x)) w
  Step-IsWellFormed h k (works g) w = Shrinks-IsWellFormed h k (with_inner-Shrinks h g) w

  Step-IsRetired : (g : ℕ) (h k : Host S C A) → Step h k → IsRetired g h → IsRetired g k
  Step-IsRetired x h _ (adds k) w = add_connection-IsRetired operations connections x k h w
  Step-IsRetired x h _ (serves n e m f) w = Shrinks-IsRetired x h m (service-Shrinks n e h m f) w
  Step-IsRetired x h _ (checks e m f) w = Shrinks-IsRetired x h m (check_events-Shrinks e h m f) w
  Step-IsRetired x h k (handles i s t g e y) w =
      Shrinks-IsRetired x h k
        (set_state-Shrinks h g i s t e (Handles-Within operations s h.inner t g y)) w
  Step-IsRetired x h k (works g) w = Shrinks-IsRetired x h k (with_inner-Shrinks h g) w

  pub Steps-IsWellFormed : (h k : Host S C A) → Steps h k → IsWellFormed h → IsWellFormed k
  Steps-IsWellFormed h _ (done _) w = w
  Steps-IsWellFormed h m (step _ k _ s r) w = Steps-IsWellFormed k m r (Step-IsWellFormed h k s w)

  pub Steps-IsRetired : (g : ℕ) (h k : Host S C A) → Steps h k → IsRetired g h → IsRetired g k
  Steps-IsRetired g h _ (done _) w = w
  Steps-IsRetired g h m (step _ k _ s r) w = Steps-IsRetired g k m r (Step-IsRetired g h k s w)

module _ {C A : Type 0} where
  set-same :
      (l : List (PeerState C A)) (i : ℕ) (s : PeerState C A)
      → get_elem? l i ≡ some s
      → set l i s ≡ l
  set-same [] i s e = refl
  set-same (x ∷ l) zero s e = ground arith
  set-same (x ∷ l) (suc i) s e = ap (λ m. x ∷ m) (set-same l i s e)

address_at-new :
    {A : Type 0} (C : Type 0) (n i : ℕ) (a : Address A)
    → address_at {C = C} (replicate n (disconnected none)) i ≢ some a
address_at-new C zero i a e = ground arith
address_at-new C (suc n) zero a e = ground arith
address_at-new C (suc n) (suc i) a e = address_at-new C n i a e

module _ {S C A : Type 0} where
  pub new_connected-IsWellFormed :
      (s : S) (n : ℕ) → IsWellFormed (new_connected {S = S} {C = C} {A = A} s n)
  unfolding new_connected
  new_connected-IsWellFormed s n = record {
    own_index = λ i a e. absurd (address_at-new C n i a e);
    used = λ i a e. absurd (address_at-new C n i a e);
    distinct = λ i j a b e f g. absurd (address_at-new C n i a e);
  }

module _ {S C A D : Type 0} (operations : Inner S A D) (connections : Connection C A) where
  -- After any steps of the application from a new host (connections added, service, events taken,
  -- peers disconnected, reset or set, and changes of the host below), each connection's address
  -- names the connection's own peer, its generation is below the one to be taken next, and no two
  -- connections have the same generation.
  pub Steps-new-IsWellFormed :
      (s : S) (n : ℕ) (k : Host S C A)
      → Steps operations connections (new_connected s n) k
      → IsWellFormed k
  Steps-new-IsWellFormed s n k r =
      Steps-IsWellFormed operations connections (new_connected s n) k r
        (new_connected-IsWellFormed s n)

  send_to-other :
      (now : ℕ) (x : Address A) (l : List ℕ) (s : PeerState C A) (h : S) (c : C) (b : Address A)
      → b.generation ≢ x.generation
      → send_to operations connections now x l s h c b ≡ (s, h)
  send_to-other now x l s h c b e = ground arith

  deliver_to-other :
      (now : ℕ) (x : Address A) (l : List ℕ) (s : PeerState C A) (h : S)
      → ((b : Address A) → state_address s ≡ some b → b.generation ≢ x.generation)
      → deliver_to operations connections now x l s h ≡ (s, h)
  unfolding deliver_to
  deliver_to-other now x l (disconnected p) h f = refl
  deliver_to-other now x l (awaiting_peer c b since timeout s) h f =
      send_to-other now x l (awaiting_peer c b since timeout s) h c b (f b refl)
  deliver_to-other now x l (has_peer c b p) h f =
      send_to-other now x l (has_peer c b p) h c b (f b refl)
  deliver_to-other now x l (disconnecting c b p t) h f =
      send_to-other now x l (disconnecting c b p t) h c b (f b refl)

  deliver-IsRetired :
      (now : ℕ) (x : Address A) (l : List ℕ) (h : Host S C A)
      → IsRetired x.generation h
      → deliver operations connections now x l h ≡ h
  unfolding deliver
  deliver-IsRetired now x l h r = go (get_elem? h.peers x.id) refl
    where
      go :
          (o : Option (PeerState C A))
          → get_elem? h.peers x.id ≡ o
          → deliver_at operations connections now x l h o ≡ h
      go none e = refl
      go (some s) e =
          ap (write_back operations connections x.id h)
            (deliver_to-other now x l s h.inner (λ b f. r.is_gone x.id b (ap address_of e ∙ f)))
          ∙ ap (λ y. record h { peers = y }) (set-same h.peers x.id s e)

  -- Once the connection of an address is gone, a packet that the host below still has for the
  -- address reaches no one: after any further steps, among them other connections that take the
  -- same peer, its delivery leaves every connection, every state and the host below as they are.
  pub deliver-Steps-IsRetired :
      (now : ℕ) (x : Address A) (l : List ℕ) (h k : Host S C A)
      → IsRetired x.generation h
      → Steps operations connections h k
      → deliver operations connections now x l k ≡ k
  deliver-Steps-IsRetired now x l h k r t =
      deliver-IsRetired now x l k (Steps-IsRetired operations connections x.generation h k t r)
