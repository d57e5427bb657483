-- ===== src/Inbound/Isolation.antt =====
-- A datagram concerns one peer at most: `enet_protocol_handle_incoming_commands` of
-- src/c/protocol.rs leaves all others alone.
use rusty_enet.Base.{
  ℕ, zero, suc, ◌≡◌, ◌⊎◌, inl, inr, refl, sym, ◌∙◌, subst, true, false, List, Option, none, some,
  arith, length, drop, ltb, if◌then◌else◌, get_elem?,
}
use rusty_enet.Protocol.{Command}
use rusty_enet.Peer.{Peer, Context, Event}
use rusty_enet.Network.{Addresses, Slot, Network}
use rusty_enet.Wire.Decoding.{decode_command}
use rusty_enet.Wire.Header.{Header, decode_header, header_size}
use rusty_enet.Inbound.{
  ReceivedData, payload, Sender, nobody_yet, refused_sender, panicking, known, admits, find_sender,
  Unpacking, not_unpacked, undefined, unpacked, unpack, verify_checksum, hear, hear_at, heard_from,
}
use rusty_enet.Inbound.Commands.{
  Allocator, carried_length, Reading, Handled, goes_on, ends, panics, handle_command,
  handle_commands, Receipt, stuck, received, Surroundings, hear_sender, receipt, sender_connect_id,
  handle_verified, handle_unpacked, handle_from, handle_sender, handle_incoming_commands,
}
use rusty_enet.Inbound.Confinement.{
  Touches, Of, Touches-trans, set-others, Confines, handle_for-Confines,
}

pub same_peer : (p : Option ℕ) (i j : ℕ) → p ≡ some i → Of p j → i ≡ j
same_peer p i j e (inl f) = ground arith
same_peer p i j e (inr f) = ground arith

module _ {A : Type 0} where
  abbrev pub Kept : Option ℕ → Network A → Option (Reading A) → Type 0
  Kept p n none = Unit {0}
  Kept p n (some t) = (i : ℕ) × Of p i × Touches i n t.network

  Kept-trans :
      (p q : Option ℕ) (i : ℕ) (n m : Network A) (o : Option (Reading A))
      → Of p i
      → q ≡ some i
      → Touches i n m
      → Kept q m o
      → Kept p n o
  Kept-trans p q i n m none u e f g = tt
  Kept-trans p q i n m (some t) u e f (j, v, g) = (
    i,
    u,
    Touches-trans i n m t.network f
        (subst (λ x. Touches x m t.network) (sym (same_peer q i j e v)) g),
  )

  module _ (addresses : Addresses A) (flush : Context → Context) (allocator : Allocator) where
    next-Kept :
        (fuel : ℕ) (h : Header) (p : Option ℕ) (n : Network A) (l : List ℕ) (x : Handled A)
        → Confines p n x
        → ((t : Reading A)
            → Kept t.peer t.network (handle_commands addresses flush allocator fuel h l t))
        → Kept p n (elim x as (λ y. Option (Reading A)) [
          | panics ↦ none
          | ends t ↦ some t
          | goes_on t ↦ handle_commands addresses flush allocator fuel h l t
        ])
    next-Kept fuel h p n l (goes_on t) (i, u, e, f) r =
        Kept-trans p t.peer i n t.network (handle_commands addresses flush allocator fuel h l t) u e
          f (r t)
    next-Kept fuel h p n l (ends t) (i, u, f) r = (i, u, f)
    next-Kept fuel h p n l panics c r = tt

    self_Of : (p : Option ℕ) → (i : ℕ) × Of p i
    self_Of none = (0, inl refl)
    self_Of (some i) = (i, inr refl)

    stays : (s : Reading A) → Kept s.peer s.network (some s)
    stays s = let (i, u) = self_Of s.peer in (i, u, λ j g. refl)

    pub handle_commands-Kept :
        (fuel : ℕ) (h : Header) (l : List ℕ) (s : Reading A)
        → Kept s.peer s.network (handle_commands addresses flush allocator fuel h l s)
    unfolding handle_commands handle_command
    handle_commands-Kept zero h l s = stays s
    handle_commands-Kept (suc fuel) h l s = go (decode_command l) (handle_commands-Kept fuel h)
      where
        go :
            (o : Option (Command × List ℕ))
            → ((l : List ℕ) (t : Reading A)
                → Kept t.peer t.network (handle_commands addresses flush allocator fuel h l t))
            → Kept s.peer s.network (elim o as (λ x. Option (Reading A)) [
              | none ↦ some s
              | some r ↦ elim (handle_command addresses flush allocator h r.0 r.1 s) [
                | panics ↦ none
                | ends t ↦ some t
                | goes_on t ↦
                    handle_commands addresses flush allocator fuel h
                      (drop (carried_length r.0.body) r.1)
                      t
              ]
            ])
        go none f = stays s
        go (some r) f =
            next-Kept fuel h s.peer s.network (drop (carried_length r.0.body) r.1)
              (handle_command addresses flush allocator h r.0 r.1 s)
              (handle_for-Confines addresses flush allocator h r.0 r.1 s s.peer)
              (f (drop (carried_length r.0.body) r.1))

  abbrev KeptBy : Option ℕ → Network A → Receipt A → Type 0
  KeptBy p n stuck = Unit {0}
  KeptBy p n (received e m) = (i : ℕ) × Of p i × Touches i n m

  hear-Touches : (i l : ℕ) (n : Network A) → Touches i n (hear i l n)
  unfolding hear
  hear-Touches i l n = go (get_elem? n.slots i)
    where
      go : (o : Option (Slot A)) → Touches i n (hear_at i l o n)
      go none j h = refl
      go (some s) j h = set-others n.slots i j (heard_from l n.received_address s) h

  receipt-KeptBy :
      (p : Option ℕ) (n m : Network A) (o : Option (Reading A))
      → Kept p n o
      → KeptBy p n (receipt o)
  receipt-KeptBy p n m none k = tt
  receipt-KeptBy p n m (some t) k = k

  heard-Kept :
      (p : Option ℕ) (l : ℕ) (n : Network A) (o : Option (Reading A))
      → Kept p (hear_sender p l n) o
      → Kept p n o
  heard-Kept none l n o k = k
  heard-Kept (some i) l n o k =
      Kept-trans (some i) (some i) i n (hear i l n) o (inr refl) refl (hear-Touches i l n) k

  kept_all : (p : Option ℕ) (n : Network A) → (i : ℕ) × Of p i × Touches i n n
  kept_all none n = (0, inl refl, λ j h. refl)
  kept_all (some i) n = (i, inr refl, λ j h. refl)

  module _ (addresses : Addresses A) (s : Surroundings) where
    handle_verified-KeptBy :
        (h : Header) (p : Option ℕ) (e : Option Event) (n : Network A) (o : Option ReceivedData)
        → KeptBy p n (handle_verified addresses s h p e n o)
    handle_verified-KeptBy h p e n none = kept_all p n
    handle_verified-KeptBy h p e n (some d) =
        let m = hear_sender p d.received_data_length n in
        let l = payload (header_size n.host.has_checksum h) d in
        let t : Reading A = record { network = m; event = e; peer = p } in
        let o = handle_commands addresses s.flush s.allocator (length l) h l t in
        receipt-KeptBy p n m o (
          heard-Kept p d.received_data_length n o
            (handle_commands-Kept addresses s.flush s.allocator (length l) h l t))

    handle_unpacked-KeptBy :
        (h : Header) (p : Option ℕ) (e : Option Event) (n : Network A) (u : Unpacking)
        → KeptBy p n (handle_unpacked addresses s h p e n u)
    handle_unpacked-KeptBy h p e n not_unpacked = kept_all p n
    handle_unpacked-KeptBy h p e n undefined = tt
    handle_unpacked-KeptBy h p e n (unpacked d) = handle_verified-KeptBy h p e n (
        verify_checksum s.checksum n.host.has_checksum (header_size n.host.has_checksum h)
          (sender_connect_id n p) d)

  module _ (addresses : Addresses A) where
    -- The number in the header is that of the sender.
    abbrev NamedBy : Header → Sender → Type 0
    NamedBy h nobody_yet = h.peer_id ≡ 4095
    NamedBy h (known i) = i ≡ h.peer_id
    NamedBy h refused_sender = Unit {0}
    NamedBy h panicking = Unit {0}

    admits-NamedBy :
        (x y : Option A) (k i : ℕ) (p : Peer) (h : Header)
        → i ≡ h.peer_id
        → NamedBy h (admits addresses x y k i p)
    unfolding admits
    admits-NamedBy x y k i p h e = ground arith

    find_sender-NamedBy : (h : Header) (n : Network A) → NamedBy h (find_sender addresses h n)
    unfolding find_sender
    find_sender-NamedBy h n = go (get_elem? n.slots h.peer_id) refl
      where
        go :
            (o : Option (Slot A))
            → get_elem? n.slots h.peer_id ≡ o
            → NamedBy h (find_sender addresses h n)
        go none e = ground arith
        go (some t) e = ground (
          arith,
          admits-NamedBy n.received_address t.address h.session_id h.peer_id t.peer h refl,
        )

    abbrev Isolates : Header → Network A → Receipt A → Type 0
    Isolates h n stuck = Unit {0}
    Isolates h n (received e m) = (i : ℕ) × ((h.peer_id ≡ 4095) ⊎ (h.peer_id ≡ i)) × Touches i n m

    KeptBy-Isolates :
        (h : Header) (p : Option ℕ) (n : Network A) (r : Receipt A)
        → ((i : ℕ) → Of p i → (h.peer_id ≡ 4095) ⊎ (h.peer_id ≡ i))
        → KeptBy p n r
        → Isolates h n r
    KeptBy-Isolates h p n stuck f k = tt
    KeptBy-Isolates h p n (received e m) f (i, u, g) = (i, f i u, g)

    module _ (s : Surroundings) where
      handle_sender-Isolates :
          (h : Header) (d : ReceivedData) (e : Option Event) (n : Network A) (x : Sender)
          → NamedBy h x
          → Isolates h n (handle_sender addresses s h d e n x)
      unfolding handle_from
      handle_sender-Isolates h d e n refused_sender u = (h.peer_id, inr refl, λ j g. refl)
      handle_sender-Isolates h d e n panicking u = tt
      handle_sender-Isolates h d e n nobody_yet u =
          KeptBy-Isolates h none n (handle_from addresses s h d e n none) (λ i o. inl u)
            (handle_unpacked-KeptBy addresses s h none e n
              (unpack s.decompress h.flag_compressed (header_size n.host.has_checksum h) d))
      handle_sender-Isolates h d e n (known i) u =
          KeptBy-Isolates h (some i) n (handle_from addresses s h d e n (some i))
            (λ j o. inr (sym u ∙ same_peer (some i) i j refl o))
            (handle_unpacked-KeptBy addresses s h (some i) e n
              (unpack s.decompress h.flag_compressed (header_size n.host.has_checksum h) d))

      -- A datagram that is handled without a panic touches one peer at most: there is an index
      -- such that the peers at all others, with their addresses, are as they were, and it is the
      -- one that the datagram's header names, unless that names none. Whatever bytes arrive, and
      -- whatever the checksum, the compressor and the allocator answer.
      pub handle_incoming_commands-Touches :
          (d : ReceivedData) (e f : Option Event) (n m : Network A)
          → handle_incoming_commands addresses s d e n ≡ received f m
          → (i : ℕ) × (((decode_header d.buffer).peer_id ≡ 4095)
              ⊎ ((decode_header d.buffer).peer_id ≡ i))
            × Touches i n m
      unfolding handle_incoming_commands
      handle_incoming_commands-Touches d e f n m g =
          let h = decode_header d.buffer in
          let x = find_sender addresses h n in
          subst (Isolates h n) g
            (elim (ltb d.received_data_length 2)
              as (λ y.
                Isolates h n (if y then received e n else handle_sender addresses s h d e n x)) [
                  | true ↦ (h.peer_id, inr refl, λ j k. refl)
                  | false ↦ handle_sender-Isolates h d e n x (find_sender-NamedBy h n)
                ])
