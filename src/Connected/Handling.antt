-- ===== src/Connected/Handling.antt =====
-- What the application does with one peer of src/connected.rs, and that the peer's address remains.
use rusty_enet.Base.{ℕ, ◌≡◌, some, arith}
use rusty_enet.Connected.{
  PeerState, disconnected, awaiting_peer, has_peer, disconnecting, Inner, peer_disconnect,
  peer_disconnect_now, peer_disconnect_later, peer_reset, set_timeout, set_ping_interval,
  set_throttle, set_mtu,
}
use rusty_enet.Connected.Generations.{Within}
use rusty_enet.Connected.Keeping.{peer_disconnect-Within, peer_reset-Within}

-- What the application does with one peer, on its state and the host below.
module _ {S C A D : Type 0} (operations : Inner S A D) where
  pub data Handles : PeerState C A → S → PeerState C A → S → Type 0 where
    handles_disconnect :
        (d : ℕ) (s : PeerState C A) (h : S)
        → Handles s h
            (peer_disconnect operations d (s, h)).0
            (peer_disconnect operations d (s, h)).1
    handles_disconnect_now :
        (d : ℕ) (s : PeerState C A) (h : S)
        → Handles s h
            (peer_disconnect_now operations d (s, h)).0
            (peer_disconnect_now operations d (s, h)).1
    handles_disconnect_later :
        (d : ℕ) (s : PeerState C A) (h : S)
        → Handles s h
            (peer_disconnect_later operations d (s, h)).0
            (peer_disconnect_later operations d (s, h)).1
    handles_reset :
        (s : PeerState C A) (h : S)
        → Handles s h (peer_reset operations (s, h)).0 (peer_reset operations (s, h)).1
    handles_timeout :
        (l m n : ℕ) (s : PeerState C A) (h : S)
        → Handles s h
            (set_timeout operations l m n (s, h)).0
            (set_timeout operations l m n (s, h)).1
    handles_ping_interval :
        (n : ℕ) (s : PeerState C A) (h : S)
        → Handles s h
            (set_ping_interval operations n (s, h)).0
            (set_ping_interval operations n (s, h)).1
    handles_throttle :
        (i a d : ℕ) (s : PeerState C A) (h : S)
        → Handles s h
            (set_throttle operations i a d (s, h)).0
            (set_throttle operations i a d (s, h)).1
    handles_mtu :
        (n : ℕ) (s t : PeerState C A) (h g : S)
        → set_mtu operations n (s, h) ≡ some (t, g)
        → Handles s h t g

  peer_disconnect_now-Within :
      (d : ℕ) (s : PeerState C A) (h : S) → Within s (peer_disconnect_now operations d (s, h)).0
  unfolding peer_disconnect_now
  peer_disconnect_now-Within d (disconnected p) h a e = ground arith
  peer_disconnect_now-Within d (awaiting_peer c b since timeout s) h a e = ground arith
  peer_disconnect_now-Within d (has_peer c b p) h a e = e
  peer_disconnect_now-Within d (disconnecting c b p t) h a e = ground arith

  peer_disconnect_later-Within :
      (d : ℕ) (s : PeerState C A) (h : S) → Within s (peer_disconnect_later operations d (s, h)).0
  unfolding peer_disconnect_later
  peer_disconnect_later-Within d (disconnected p) h a e = ground arith
  peer_disconnect_later-Within d (awaiting_peer c b since timeout s) h a e = ground arith
  peer_disconnect_later-Within d (has_peer c b p) h a e = e
  peer_disconnect_later-Within d (disconnecting c b p t) h a e = ground arith

  set_timeout-Within :
      (l m n : ℕ) (s : PeerState C A) (h : S) → Within s (set_timeout operations l m n (s, h)).0
  unfolding set_timeout
  set_timeout-Within l m n (disconnected p) h x e = e
  set_timeout-Within l m n (awaiting_peer c b since timeout s) h x e = e
  set_timeout-Within l m n (has_peer c b p) h x e = e
  set_timeout-Within l m n (disconnecting c b p t) h x e = e

  set_ping_interval-Within :
      (n : ℕ) (s : PeerState C A) (h : S) → Within s (set_ping_interval operations n (s, h)).0
  unfolding set_ping_interval
  set_ping_interval-Within n (disconnected p) h x e = e
  set_ping_interval-Within n (awaiting_peer c b since timeout s) h x e = e
  set_ping_interval-Within n (has_peer c b p) h x e = e
  set_ping_interval-Within n (disconnecting c b p t) h x e = e

  set_throttle-Within :
      (i a d : ℕ) (s : PeerState C A) (h : S) → Within s (set_throttle operations i a d (s, h)).0
  unfolding set_throttle
  set_throttle-Within i a d (disconnected p) h x e = e
  set_throttle-Within i a d (awaiting_peer c b since timeout s) h x e = e
  set_throttle-Within i a d (has_peer c b p) h x e = e
  set_throttle-Within i a d (disconnecting c b p t) h x e = e

  set_mtu-Within :
      (n : ℕ) (s t : PeerState C A) (h g : S)
      → set_mtu operations n (s, h) ≡ some (t, g)
      → Within s t
  unfolding set_mtu
  set_mtu-Within n (disconnected p) t h g f x e = ground arith
  set_mtu-Within n (awaiting_peer c b since timeout s) t h g f x e = ground arith
  set_mtu-Within n (has_peer c b p) t h g f x e = ground arith
  set_mtu-Within n (disconnecting c b p u) t h g f x e = ground arith

  pub Handles-Within :
      (s : PeerState C A) (h : S) (t : PeerState C A) (g : S) → Handles s h t g → Within s t
  Handles-Within _ _ _ _ (handles_disconnect d s h) = peer_disconnect-Within operations d s h
  Handles-Within _ _ _ _ (handles_disconnect_now d s h) = peer_disconnect_now-Within d s h
  Handles-Within _ _ _ _ (handles_disconnect_later d s h) = peer_disconnect_later-Within d s h
  Handles-Within _ _ _ _ (handles_reset s h) = peer_reset-Within operations s h
  Handles-Within _ _ _ _ (handles_timeout l m n s h) = set_timeout-Within l m n s h
  Handles-Within _ _ _ _ (handles_ping_interval n s h) = set_ping_interval-Within n s h
  Handles-Within _ _ _ _ (handles_throttle i a d s h) = set_throttle-Within i a d s h
  Handles-Within _ _ _ _ (handles_mtu n s t h g e) = set_mtu-Within n s t h g e
