-- ===== src/Connected/Living.antt =====
-- The life of a host of src/connected.rs: connections that are added, service, events that are taken,
-- and what the application does with its peers.
use rusty_enet.Base.{ℕ, ◌≡◌, refl, Option, none, some, get_elem?}
use rusty_enet.Connected.{
  Address, PeerState, disconnected, awaiting_peer, has_peer, disconnecting, Connection, InnerEvent,
  connects, disconnects, receives, Inner, Host, apply_settings,
}
use rusty_enet.Connected.Telling.{
  Told, told, panics, tell_connect, tell_disconnect, tell_receive, tell_at, handle_event,
  event_peer, after_inner, check_events,
}
use rusty_enet.Connected.Shuttling.{
  Sweep, swept, interrupted, deliver_all, sweep, after_sweep, service,
}
use rusty_enet.Connected.Generations.{Shrinks}
use rusty_enet.Connected.Keeping.{
  Shrinks-self, Shrinks-trans, set_state-Shrinks, with_inner-Shrinks, SweepRemains,
  sweep-SweepRemains,
}
use rusty_enet.Connected.Forwarding.{deliver_all-Shrinks}

module _ {S C A D : Type 0} (operations : Inner S A D) where
  -- Where it does not panic.
  abbrev pub ToldShrinks : Host S C A → Told S C A D → Type 0
  ToldShrinks h (told e k) = Shrinks h k
  ToldShrinks h panics = Unit {0}

  ToldShrinks-trans :
      (h k : Host S C A) (t : Told S C A D) → Shrinks h k → ToldShrinks k t → ToldShrinks h t
  ToldShrinks-trans h k (told e m) s t = Shrinks-trans h k m s t
  ToldShrinks-trans h k panics s t = t

  tell_connect-ToldShrinks :
      (i p d : ℕ) (h : Host S C A) (o : Option (PeerState C A))
      → get_elem? h.peers i ≡ o
      → ToldShrinks h (tell_connect operations i p d h o)
  tell_connect-ToldShrinks i p d h none e = tt
  tell_connect-ToldShrinks i p d h (some (disconnected q)) e = tt
  tell_connect-ToldShrinks i p d h (some (awaiting_peer c a since timeout s)) e =
      set_state-Shrinks h (apply_settings operations s p h.inner) i
        (awaiting_peer c a since timeout s) (has_peer c a p) e (λ x f. f)
  tell_connect-ToldShrinks i p d h (some (has_peer c a q)) e =
      set_state-Shrinks h h.inner i (has_peer c a q) (has_peer c a q) e (λ x f. f)
  tell_connect-ToldShrinks i p d h (some (disconnecting c a q t)) e = tt

  tell_disconnect-ToldShrinks :
      (i d : ℕ) (h : Host S C A) (o : Option (PeerState C A))
      → get_elem? h.peers i ≡ o
      → ToldShrinks h (tell_disconnect operations i d h o)
  tell_disconnect-ToldShrinks i d h none e = tt
  tell_disconnect-ToldShrinks i d h (some (disconnected q)) e = tt
  tell_disconnect-ToldShrinks i d h (some (awaiting_peer c a since timeout s)) e =
      set_state-Shrinks h h.inner i (awaiting_peer c a since timeout s)
        (disconnecting c a none (operations.now h.inner)) e (λ x f. f)
  tell_disconnect-ToldShrinks i d h (some (has_peer c a q)) e =
      set_state-Shrinks h h.inner i (has_peer c a q)
        (disconnecting c a (some q) (operations.now h.inner)) e (λ x f. f)
  tell_disconnect-ToldShrinks i d h (some (disconnecting c a q t)) e = tt

  tell_receive-ToldShrinks :
      (i n : ℕ) (x : D) (h : Host S C A) (o : Option (PeerState C A))
      → ToldShrinks h (tell_receive operations i n x h o)
  tell_receive-ToldShrinks i n x h none = tt
  tell_receive-ToldShrinks i n x h (some s) = Shrinks-self h

  tell_at-ToldShrinks :
      (e : InnerEvent D) (h : Host S C A) (o : Option (Address A))
      → ToldShrinks h (tell_at operations e h o)
  tell_at-ToldShrinks (connects p d) h none = tt
  tell_at-ToldShrinks (disconnects p d) h none = tt
  tell_at-ToldShrinks (receives p n x) h none = tt
  tell_at-ToldShrinks (connects p d) h (some a) =
      tell_connect-ToldShrinks a.id p d h (get_elem? h.peers a.id) refl
  tell_at-ToldShrinks (disconnects p d) h (some a) =
      tell_disconnect-ToldShrinks a.id d h (get_elem? h.peers a.id) refl
  tell_at-ToldShrinks (receives p n x) h (some a) =
      tell_receive-ToldShrinks a.id n x h (get_elem? h.peers a.id)

  after_inner-ToldShrinks :
      (h : Host S C A) (r : Option (InnerEvent D) × S) → ToldShrinks h (after_inner operations h r)
  unfolding handle_event
  after_inner-ToldShrinks h (none, s) = with_inner-Shrinks h s
  after_inner-ToldShrinks h (some e, s) =
      let k : Host S C A = record h { inner = s } in
      ToldShrinks-trans h k (handle_event operations e k) (with_inner-Shrinks h s)
        (tell_at-ToldShrinks e k (operations.peer_address s (event_peer e)))

  pub check_events-ToldShrinks : (h : Host S C A) → ToldShrinks h (check_events operations h)
  unfolding check_events
  check_events-ToldShrinks h = after_inner-ToldShrinks h (operations.check_events h.inner)

  module _ (connections : Connection C A) where
    after_sweep-ToldShrinks :
        (n now : ℕ) (h : Host S C A) (x : Sweep S C A)
        → SweepRemains h.peers x
        → ToldShrinks h (after_sweep operations connections n now h x)
    after_sweep-ToldShrinks n now h (interrupted i l g) r = record {
      same_generation = refl;
      peers_remain = r;
    }
    after_sweep-ToldShrinks n now h (swept l g) r =
        let k : Host S C A = record h { inner = g; peers = l } in
        let m = deliver_all operations connections n now k in
        ToldShrinks-trans h m (after_inner operations m (operations.service m.inner))
          (Shrinks-trans h k m (record { same_generation = refl; peers_remain = r })
            (deliver_all-Shrinks operations connections n now k))
          (after_inner-ToldShrinks m (operations.service m.inner))

    pub service-ToldShrinks :
        (n : ℕ) (h : Host S C A) → ToldShrinks h (service operations connections n h)
    unfolding service
    service-ToldShrinks n h =
        let now = operations.now h.inner in
        after_sweep-ToldShrinks n now h (sweep operations connections now 0 h.peers h.inner)
          (sweep-SweepRemains operations connections now 0 h.peers h.inner)
