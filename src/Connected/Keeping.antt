-- ===== src/Connected/Keeping.antt =====
-- What a host of src/connected.rs does keeps the addresses of its connections: only a connection that
-- is added brings a new one.
use rusty_enet.Base.{
  ℕ, ◌+◌, ◌≡◌, refl, true, false, List, [], ◌∷◌, Option, none, some, arith, get_elem?,
  if◌then◌else◌,
}
use rusty_enet.Connected.{
  Address, PeerSettings, update_settings, PeerState, disconnected, awaiting_peer, has_peer,
  disconnecting, Reception, packet, no_packet, receive_error, Connection, Inner, Host,
  peer_disconnect, peer_reset,
}
use rusty_enet.Connected.Adding.{set_state}
use rusty_enet.Connected.Shuttling.{
  with_connection, expire, is_overdue, Round, stays, leaves, Sweep, swept, interrupted, and_before,
  after_receive, receive_from, visit_peer, sweep,
}
use rusty_enet.Connected.Generations.{
  Remains, Remains-trans, Within, Remains-set, Remains-cons, Shrinks,
}

module _ {S C A : Type 0} where
  pub Shrinks-self : (h : Host S C A) → Shrinks h h
  Shrinks-self h = record { same_generation = refl; peers_remain = λ i a e. e }

  pub Shrinks-trans : (h k m : Host S C A) → Shrinks h k → Shrinks k m → Shrinks h m
  Shrinks-trans h k m s t = record {
    same_generation = omega (arith, s.same_generation, t.same_generation);
    peers_remain = Remains-trans h.peers k.peers m.peers s.peers_remain t.peers_remain;
  }

  -- One state is changed, and the host below.
  pub set_state-Shrinks :
      (h : Host S C A) (g : S) (i : ℕ) (s t : PeerState C A)
      → get_elem? h.peers i ≡ some s
      → Within s t
      → Shrinks h (set_state i t (record h { inner = g }))
  set_state-Shrinks h g i s t e w = record {
    same_generation = refl;
    peers_remain = Remains-set h.peers i s t e w;
  }

  pub with_inner-Shrinks : (h : Host S C A) (g : S) → Shrinks h (record h { inner = g })
  with_inner-Shrinks h g = record { same_generation = refl; peers_remain = λ i a e. e }

  abbrev pub SweepRemains : List (PeerState C A) → Sweep S C A → Type 0
  SweepRemains l (swept m g) = Remains l m
  SweepRemains l (interrupted i m g) = Remains l m

module _ {C A : Type 0} where
  pub with_connection-Within : (c : C) (s : PeerState C A) → Within s (with_connection c s)
  with_connection-Within c (disconnected p) a e = e
  with_connection-Within c (awaiting_peer d b since timeout s) a e = e
  with_connection-Within c (has_peer d b p) a e = e
  with_connection-Within c (disconnecting d b p t) a e = e

  expire-Within : (now : ℕ) (s : PeerState C A) → Within s (expire now s)
  unfolding expire
  expire-Within now (disconnected p) a e = e
  expire-Within now (awaiting_peer d b since timeout s) a e = e
  expire-Within now (has_peer d b p) a e = e
  expire-Within now (disconnecting d b p t) a e = ground arith

  pub update_settings-Within :
      (f : PeerSettings → PeerSettings) (s : PeerState C A) → Within s (update_settings f s)
  update_settings-Within f (disconnected p) a e = e
  update_settings-Within f (awaiting_peer d b since timeout s) a e = e
  update_settings-Within f (has_peer d b p) a e = e
  update_settings-Within f (disconnecting d b p t) a e = e

  gone-Within : (s : PeerState C A) (p : Option ℕ) → Within s (disconnected p)
  gone-Within s p a e = ground arith

  Within-trans : (s t u : PeerState C A) → Within s t → Within t u → Within s u
  Within-trans s t u v w a e = v a (w a e)

module _ {S C A D : Type 0} (operations : Inner S A D) where
  pub peer_disconnect-Within :
      (d : ℕ) (s : PeerState C A) (h : S) → Within s (peer_disconnect operations d (s, h)).0
  unfolding peer_disconnect
  peer_disconnect-Within d (disconnected p) h a e = ground arith
  peer_disconnect-Within d (awaiting_peer c b since timeout s) h a e = ground arith
  peer_disconnect-Within d (has_peer c b p) h a e = e
  peer_disconnect-Within d (disconnecting c b p t) h a e = ground arith

  pub peer_reset-Within : (s : PeerState C A) (h : S) → Within s (peer_reset operations (s, h)).0
  unfolding peer_reset
  peer_reset-Within (disconnected p) h a e = ground arith
  peer_reset-Within (awaiting_peer c b since timeout s) h a e = ground arith
  peer_reset-Within (has_peer c b p) h a e = ground arith
  peer_reset-Within (disconnecting c b p t) h a e = ground arith

  module _ (connections : Connection C A) where
    abbrev RoundWithin : PeerState C A → Round S C A → Type 0
    RoundWithin s (stays t g) = Within s t
    RoundWithin s (leaves t g) = Within s t

    after_receive-RoundWithin :
        (b : Address A) (s : PeerState C A) (h : S) (r : C × Reception)
        → RoundWithin s (after_receive operations connections b s h r)
    after_receive-RoundWithin b s h (c, packet l) = with_connection-Within c s
    after_receive-RoundWithin b s h (c, no_packet) = with_connection-Within c s
    after_receive-RoundWithin b s h (c, receive_error) =
        Within-trans s (with_connection c s) (peer_reset operations (with_connection c s, h)).0
          (with_connection-Within c s) (peer_reset-Within (with_connection c s) h)

    receive_from-RoundWithin :
        (s : PeerState C A) (h : S) → RoundWithin s (receive_from operations connections s h)
    receive_from-RoundWithin (disconnected p) h = λ a e. e
    receive_from-RoundWithin (awaiting_peer c b since timeout s) h =
        after_receive-RoundWithin b (awaiting_peer c b since timeout s) h (connections.receive c)
    receive_from-RoundWithin (has_peer c b p) h =
        after_receive-RoundWithin b (has_peer c b p) h (connections.receive c)
    receive_from-RoundWithin (disconnecting c b p t) h =
        after_receive-RoundWithin b (disconnecting c b p t) h (connections.receive c)

    RoundWithin-trans :
        (s t : PeerState C A) (r : Round S C A) → Within s t → RoundWithin t r → RoundWithin s r
    RoundWithin-trans s t (stays u g) v w = Within-trans s t u v w
    RoundWithin-trans s t (leaves u g) v w = Within-trans s t u v w

    visit_peer-RoundWithin :
        (now : ℕ) (s : PeerState C A) (h : S)
        → RoundWithin s (visit_peer operations connections now s h)
    unfolding visit_peer
    visit_peer-RoundWithin now s h =
        elim (is_overdue now s)
          as (λ b. RoundWithin s (
            if b
            then leaves (disconnected none) h
            else receive_from operations connections (expire now s) h)) [
              | true ↦ gone-Within s none
              | false ↦
                  RoundWithin-trans s (expire now s)
                    (receive_from operations connections (expire now s) h) (expire-Within now s)
                    (receive_from-RoundWithin (expire now s) h)
            ]

    and_before-SweepRemains :
        (s t : PeerState C A) (l : List (PeerState C A)) (x : Sweep S C A)
        → Within s t
        → SweepRemains l x
        → SweepRemains (s ∷ l) (and_before t x)
    and_before-SweepRemains s t l (swept m g) w r = Remains-cons s t l m w r
    and_before-SweepRemains s t l (interrupted i m g) w r = Remains-cons s t l m w r

    pub sweep-SweepRemains :
        (now i : ℕ) (l : List (PeerState C A)) (h : S)
        → SweepRemains l (sweep operations connections now i l h)
    unfolding sweep
    sweep-SweepRemains now i [] h = λ j a e. e
    sweep-SweepRemains now i (s ∷ l) h =
        go (visit_peer operations connections now s h) (visit_peer-RoundWithin now s h)
          (sweep-SweepRemains now (i + 1) l)
      where
        go :
            (x : Round S C A)
            → RoundWithin s x
            → ((g : S) → SweepRemains l (sweep operations connections now (i + 1) l g))
            → SweepRemains (s ∷ l) (elim x as (λ y. Sweep S C A) [
              | stays t g ↦ and_before t (sweep operations connections now (i + 1) l g)
              | leaves t g ↦ interrupted i (t ∷ l) g
            ])
        go (stays t g) w f =
            and_before-SweepRemains s t l (sweep operations connections now (i + 1) l g) w (f g)
        go (leaves t g) w f = Remains-cons s t l l w (λ j a e. e)
