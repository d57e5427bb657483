-- ===== src/Connected/Forwarding.antt =====
-- What goes from the host below to the connections of src/connected.rs keeps their addresses.
use rusty_enet.Base.{
  ℕ, zero, suc, ◌≡◌, refl, Bool, true, false, List, Option, none, some, get_elem?, ◌==◌,
  if◌then◌else◌,
}
use rusty_enet.Connected.{
  Address, PeerState, disconnected, awaiting_peer, has_peer, disconnecting, Connection, Inner, Host,
}
use rusty_enet.Connected.Shuttling.{
  after_send, send_to, deliver_to, deliver_at, deliver, deliver_all,
}
use rusty_enet.Connected.Generations.{Within, Shrinks}
use rusty_enet.Connected.Keeping.{
  peer_disconnect-Within, Shrinks-self, Shrinks-trans, set_state-Shrinks, with_inner-Shrinks,
}

module _ {S C A D : Type 0} (operations : Inner S A D) (connections : Connection C A) where
  after_send-Within :
      (now : ℕ) (s : PeerState C A) (h : S) (r : C × Bool)
      → Within s (after_send operations connections now s h r).0
  after_send-Within now (disconnecting d b p t) h (c, true) a e = e
  after_send-Within now (disconnecting d b p t) h (c, false) a e = e
  after_send-Within now (disconnected p) h (c, true) a e = e
  after_send-Within now (awaiting_peer d b since timeout s) h (c, true) a e = e
  after_send-Within now (has_peer d b p) h (c, true) a e = e
  after_send-Within now (disconnected p) h (c, false) a e =
      peer_disconnect-Within operations 0 (disconnected p) h a e
  after_send-Within now (awaiting_peer d b since timeout s) h (c, false) a e =
      peer_disconnect-Within operations 0 (awaiting_peer c b since timeout s) h a e
  after_send-Within now (has_peer d b p) h (c, false) a e =
      peer_disconnect-Within operations 0 (has_peer c b p) h a e

  send_to-Within :
      (now : ℕ) (x : Address A) (l : List ℕ) (s : PeerState C A) (h : S) (c : C) (b : Address A)
      → Within s (send_to operations connections now x l s h c b).0
  send_to-Within now x l s h c b =
      elim (x.generation == b.generation)
        as (λ k.
          Within s
            (if k
              then after_send operations connections now s h (connections.send l c)
              else (s, h)).0) [
                | true ↦ after_send-Within now s h (connections.send l c)
                | false ↦ λ a e. e
              ]

  deliver_to-Within :
      (now : ℕ) (x : Address A) (l : List ℕ) (s : PeerState C A) (h : S)
      → Within s (deliver_to operations connections now x l s h).0
  unfolding deliver_to
  deliver_to-Within now x l (disconnected p) h = λ a e. e
  deliver_to-Within now x l (awaiting_peer c b since timeout s) h =
      send_to-Within now x l (awaiting_peer c b since timeout s) h c b
  deliver_to-Within now x l (has_peer c b p) h = send_to-Within now x l (has_peer c b p) h c b
  deliver_to-Within now x l (disconnecting c b p t) h =
      send_to-Within now x l (disconnecting c b p t) h c b

  deliver-Shrinks :
      (now : ℕ) (x : Address A) (l : List ℕ) (h : Host S C A)
      → Shrinks h (deliver operations connections now x l h)
  unfolding deliver
  deliver-Shrinks now x l h = go (get_elem? h.peers x.id) refl
    where
      go :
          (o : Option (PeerState C A))
          → get_elem? h.peers x.id ≡ o
          → Shrinks h (deliver_at operations connections now x l h o)
      go none e = Shrinks-self h
      go (some s) e =
          let r = deliver_to operations connections now x l s h.inner in
          set_state-Shrinks h r.1 x.id s r.0 e (deliver_to-Within now x l s h.inner)

  pub deliver_all-Shrinks :
      (n now : ℕ) (h : Host S C A) → Shrinks h (deliver_all operations connections n now h)
  unfolding deliver_all
  deliver_all-Shrinks zero now h = Shrinks-self h
  deliver_all-Shrinks (suc n) now h = go (operations.read h.inner) (deliver_all-Shrinks n now)
    where
      go :
          (o : Option ((Address A × List ℕ) × S))
          → ((k : Host S C A) → Shrinks k (deliver_all operations connections n now k))
          → Shrinks h (elim o as (λ x. Host S C A) [
            | none ↦ h
            | some r ↦
                deliver_all operations connections n now
                  (deliver operations connections now r.0.0 r.0.1 (record h { inner = r.1 }))
          ])
      go none f = Shrinks-self h
      go (some ((a, l), g)) f =
          let k : Host S C A = record h { inner = g } in
          let m = deliver operations connections now a l k in
          Shrinks-trans h k (deliver_all operations connections n now m) (with_inner-Shrinks h g) (
            Shrinks-trans k m (deliver_all operations connections n now m)
              (deliver-Shrinks now a l k) (f m))
