-- ===== src/Inbound/Sparing.antt =====
-- What a datagram from elsewhere cannot reach: `enet_protocol_handle_incoming_commands` of
-- src/c/protocol.rs and the peers that are in use.
use rusty_enet.Base.{
  ℕ, zero, suc, ◌≡◌, ◌≢◌, ◌⊎◌, inl, inr, refl, sym, ap, ◌∙◌, subst, true, false, List, [], ◌∷◌,
  Option, none, some, arith, length, drop, ltb, ◌||◌, if◌then◌else◌, get_elem?,
}
use rusty_enet.Protocol.{ConnectBody, Command, Body, connect}
use rusty_enet.Peer.{disconnected, Peer, Context, Event}
use rusty_enet.Network.{Addresses, Slot, Network, peer_at, find_peer}
use rusty_enet.Network.Answering.{
  Reply, refused, failed, answered, handle_connect, answer_at, Scan, repeated, panicked, scan,
  scanned,
}
use rusty_enet.Network.Free.{IsFree, first_unused, scan-FreeFrom}
use rusty_enet.Wire.Decoding.{decode_command}
use rusty_enet.Wire.Header.{Header, decode_header, header_size}
use rusty_enet.Inbound.{
  ReceivedData, payload, nobody_yet, find_sender, Unpacking, not_unpacked, undefined, unpacked,
  unpack, verify_checksum,
}
use rusty_enet.Inbound.Commands.{
  Allocator, carried_length, Reading, Handled, goes_on, ends, panics, after_request, finish_at,
  handle_request, handle_command, handle_commands, Receipt, stuck, received, Surroundings, receipt,
  handle_verified, handle_unpacked, handle_from, handle_sender, handle_incoming_commands,
}
use rusty_enet.Inbound.Confinement.{Touches, At, At-trans, finish_at-At, Takes, answer_at-Takes}
use rusty_enet.Inbound.Isolation.{
  Kept, same_peer, handle_commands-Kept, handle_incoming_commands-Touches,
}
use rusty_enet.Inbound.Refusing.{IsForeign, handle_incoming_commands_foreign}

module _ {A : Type 0} where
  -- The peer at an index is in use.
  pub record IsInUse (j : ℕ) (t : Slot A) (n : Network A) : Type 0 where
    pub found : get_elem? n.slots j ≡ some t
    pub in_use : t.peer.state ≢ disconnected

  peer_at_found :
      (l : List (Slot A)) (i : ℕ) (p : Peer) (t : Slot A)
      → peer_at l i ≡ some p
      → get_elem? l i ≡ some t
      → p ≡ t.peer
  peer_at_found [] i p t e f = ground arith
  peer_at_found (s ∷ l) zero p t e f = ground arith
  peer_at_found (s ∷ l) (suc i) p t e f = peer_at_found l i p t e f

  free_other : (i j : ℕ) (t : Slot A) (n : Network A) → IsInUse j t n → IsFree n.slots i → j ≢ i
  free_other i j t n u f e =
      let g = subst (λ k. peer_at n.slots k ≡ some f.free) (sym e) f.found in
      u.in_use
        (ap (λ p. p.state) (sym (peer_at_found n.slots j f.free t g u.found)) ∙ f.is_disconnected)

module _ {A : Type 0} (addresses : Addresses A) (j : ℕ) (t : Slot A) where
  handle_connect-Takes :
      (b : ConnectBody) (d : ℕ) (n : Network A) → Takes n (handle_connect addresses b d n)
  unfolding handle_connect
  handle_connect-Takes b d n =
      let x = scan addresses n.received_address b.connect_id 0 none 0 n.slots in
      elim (ltb b.channel_count 1 || ltb 255 b.channel_count)
        as (λ y. Takes n (if y then refused else answer_at b d n x)) [
          | true ↦ tt
          | false ↦ answer_at-Takes b d n x
        ]

  scan_first :
      (x : Option A) (c i k : ℕ) (l : List (Slot A))
      → scan addresses x c 0 none 0 l ≡ scanned (some i) k
      → IsFree l i
  scan_first x c i k l e =
      first_unused l i (ground (arith, scan-FreeFrom addresses x c 0 none 0 l i k))

  answer_at-index :
      (b : ConnectBody) (d i : ℕ) (n m : Network A) (x : Scan)
      → answer_at b d n x ≡ answered i m
      → (k : ℕ) × (x ≡ scanned (some i) k)
  answer_at-index b d i n m repeated e = ground arith
  answer_at-index b d i n m panicked e = ground arith
  answer_at-index b d i n m (scanned none k) e = ground arith
  answer_at-index b d i n m (scanned (some q) k) e = (k, ground arith)

  handle_connect-IsFree :
      (b : ConnectBody) (d i : ℕ) (n m : Network A)
      → handle_connect addresses b d n ≡ answered i m
      → IsFree n.slots i
  unfolding handle_connect
  handle_connect-IsFree b d i n m e =
      let x = scan addresses n.received_address b.connect_id 0 none 0 n.slots in
      let (k, f) = answer_at-index b d i n m x (ground arith) in
      scan_first n.received_address b.connect_id i k n.slots f

  -- A command of a datagram without a peer leaves the peer `j` alone, and what follows is of another.
  abbrev Spares : Network A → Handled A → Type 0
  Spares n (goes_on r) = (i : ℕ) × (j ≢ i) × (r.peer ≡ some i) × Touches i n r.network
  Spares n (ends r) = get_elem? r.network.slots j ≡ get_elem? n.slots j
  Spares n panics = Unit {0}

  At-Spares : (i : ℕ) (n : Network A) (x : Handled A) → j ≢ i → At i n x → Spares n x
  At-Spares i n (goes_on r) h (e, f) = (i, h, e, f)
  At-Spares i n (ends r) h (e, f) = f j h
  At-Spares i n panics h f = tt

  module _ (flush : Context → Context) (allocator : Allocator) where
    handle_request-Spares :
        (h : Header) (k : Command) (s : Reading A) (b : Body)
        → IsInUse j t s.network
        → Spares s.network (handle_request addresses flush allocator h k s b)
    handle_request-Spares h k s (connect b d) u =
        go (handle_connect addresses b d s.network) refl (handle_connect-Takes b d s.network)
      where
        go :
            (r : Reply A)
            → handle_connect addresses b d s.network ≡ r
            → Takes s.network r
            → Spares s.network (after_request h k s r)
        go refused e f = refl
        go failed e f = tt
        go (answered i n) e f =
            let x = finish_at h k n i s.event (find_peer n i) in
            At-Spares i s.network x
              (free_other i j t s.network u (handle_connect-IsFree b d i s.network n e))
              (At-trans i s.network n x f (finish_at-At h k n i s.event (find_peer n i)))
    handle_request-Spares h k s b u = refl

    abbrev SparesAll : Network A → Option (Reading A) → Type 0
    SparesAll n none = Unit {0}
    SparesAll n (some r) = get_elem? r.network.slots j ≡ get_elem? n.slots j

    Kept-SparesAll :
        (i : ℕ) (p : Option ℕ) (n m : Network A) (o : Option (Reading A))
        → j ≢ i
        → p ≡ some i
        → Touches i n m
        → Kept p m o
        → SparesAll n o
    Kept-SparesAll i p n m none h e f k = tt
    Kept-SparesAll i p n m (some r) h e f (l, u, g) =
        g j (λ x. h (x ∙ sym (same_peer p i l e u))) ∙ f j h

    next-SparesAll :
        (fuel : ℕ) (h : Header) (n : Network A) (l : List ℕ) (x : Handled A)
        → Spares n x
        → SparesAll n (elim x as (λ y. Option (Reading A)) [
          | panics ↦ none
          | ends r ↦ some r
          | goes_on r ↦ handle_commands addresses flush allocator fuel h l r
        ])
    next-SparesAll fuel h n l (goes_on r) (i, g, e, f) =
        Kept-SparesAll i r.peer n r.network (handle_commands addresses flush allocator fuel h l r) g
          e f (handle_commands-Kept addresses flush allocator fuel h l r)
    next-SparesAll fuel h n l (ends r) f = f
    next-SparesAll fuel h n l panics f = tt

    handle_commands-SparesAll :
        (fuel : ℕ) (h : Header) (l : List ℕ) (e : Option Event) (n : Network A)
        → IsInUse j t n
        → SparesAll n (
            handle_commands addresses flush allocator fuel h l
              (record { network = n; event = e; peer = none }))
    unfolding handle_commands handle_command
    handle_commands-SparesAll zero h l e n u = refl
    handle_commands-SparesAll (suc fuel) h l e n u = go (decode_command l)
      where
        go :
            (o : Option (Command × List ℕ))
            → let s : Reading A = record { network = n; event = e; peer = none } in
              SparesAll n (elim o as (λ x. Option (Reading A)) [
                | none ↦ some s
                | some r ↦ elim (handle_command addresses flush allocator h r.0 r.1 s) [
                  | panics ↦ none
                  | ends t ↦ some t
                  | goes_on t ↦
                      handle_commands addresses flush allocator fuel h
                        (drop (carried_length r.0.body) r.1)
                        t
                ]
              ])
        go none = refl
        go (some r) =
            let s : Reading A = record { network = n; event = e; peer = none } in
            next-SparesAll fuel h n (drop (carried_length r.0.body) r.1)
              (handle_request addresses flush allocator h r.0 s r.0.body)
              (handle_request-Spares h r.0 s r.0.body u)

  find_nobody :
      (h : Header) (n : Network A) → h.peer_id ≡ 4095 → find_sender addresses h n ≡ nobody_yet
  unfolding find_sender
  find_nobody h n e = ground arith

  abbrev SparesBy : Network A → Receipt A → Type 0
  SparesBy n stuck = Unit {0}
  SparesBy n (received e m) = get_elem? m.slots j ≡ get_elem? n.slots j

  module _ (s : Surroundings) where
    receipt-SparesBy :
        (n : Network A) (o : Option (Reading A))
        → SparesAll s.flush s.allocator n o
        → SparesBy n (receipt o)
    receipt-SparesBy n none f = tt
    receipt-SparesBy n (some r) f = f

    verified-SparesBy :
        (h : Header) (e : Option Event) (n : Network A) (o : Option ReceivedData)
        → IsInUse j t n
        → SparesBy n (handle_verified addresses s h none e n o)
    verified-SparesBy h e n none u = refl
    verified-SparesBy h e n (some d) u =
        let l = payload (header_size n.host.has_checksum h) d in
        receipt-SparesBy n
          (handle_commands addresses s.flush s.allocator (length l) h l
            (record { network = n; event = e; peer = none }))
          (handle_commands-SparesAll s.flush s.allocator (length l) h l e n u)

    unpacked-SparesBy :
        (h : Header) (e : Option Event) (n : Network A) (x : Unpacking)
        → IsInUse j t n
        → SparesBy n (handle_unpacked addresses s h none e n x)
    unpacked-SparesBy h e n not_unpacked u = refl
    unpacked-SparesBy h e n undefined u = tt
    unpacked-SparesBy h e n (unpacked d) u =
        verified-SparesBy h e n
          (verify_checksum s.checksum n.host.has_checksum (header_size n.host.has_checksum h) 0 d) u

    nobody-SparesBy :
        (d : ReceivedData) (e : Option Event) (n : Network A)
        → (decode_header d.buffer).peer_id ≡ 4095
        → IsInUse j t n
        → SparesBy n (handle_incoming_commands addresses s d e n)
    unfolding handle_incoming_commands handle_from
    nobody-SparesBy d e n g u =
        let h = decode_header d.buffer in
        let x = find_sender addresses h n in
        let k : find_sender addresses h n ≡ nobody_yet = find_nobody h n g in
        elim (ltb d.received_data_length 2)
          as (λ y. SparesBy n (if y then received e n else handle_sender addresses s h d e n x)) [
            | true ↦ refl
            | false ↦
                subst (λ y. SparesBy n (handle_sender addresses s h d e n y)) (sym k)
                  (unpacked-SparesBy h e n
                    (unpack s.decompress h.flag_compressed (header_size n.host.has_checksum h) d) u)
          ]

    -- What the foreign datagram names: nobody, the peer itself, or another.
    naming :
        (d : ReceivedData)
        → let p = (decode_header d.buffer).peer_id in
          (p ≡ 4095) ⊎ ((p ≢ 4095) × (p ≡ j)) ⊎ ((p ≢ 4095) × (p ≢ j))
    naming d = ground arith

    -- A datagram from elsewhere cannot change a peer that is in use, whichever peer it names, or
    -- none, and whatever commands it holds, connection requests among them: if it comes from `x`
    -- while the peer is at `y`, and either `x` is not that address and that is not a broadcast
    -- one, or the connection is set up and the datagram has another session's number, or the peer
    -- is a zombie, then the peer and its address are afterwards as they were. The peer is not
    -- disconnected, and the datagram is handled without a panic.
    pub handle_incoming_commands_spares :
        (d : ReceivedData) (e f : Option Event) (n m : Network A) (x y : A)
        → IsInUse j t n
        → n.received_address ≡ some x
        → t.address ≡ some y
        → IsForeign addresses x y (decode_header d.buffer).session_id t.peer
        → handle_incoming_commands addresses s d e n ≡ received f m
        → get_elem? m.slots j ≡ some t
    handle_incoming_commands_spares d e f n m x y u a b c g = elim (naming d) [
      | inl k ↦ subst (SparesBy n) g (nobody-SparesBy d e n k u) ∙ u.found
      | inr (inl (k, l)) ↦
          let same =
            handle_incoming_commands_foreign addresses s d e n t x y a
              (ap (get_elem? n.slots) l ∙ u.found) b k c in
          subst (SparesBy n) (sym same ∙ g) refl ∙ u.found
      | inr (inr (k, l)) ↦
          let (i, named, o) = handle_incoming_commands-Touches addresses s d e f n m g in
          o j (λ q. elim named [ inl v ↦ k v | inr v ↦ l (v ∙ sym q) ]) ∙ u.found
    ]
