-- ===== src/Inbound/Refinement.antt =====
-- A datagram is a sequence of the steps of a host: `enet_protocol_handle_incoming_commands` of
-- src/c/protocol.rs against the step relation.
use rusty_enet.Base.{
  ℕ, zero, suc, ◌≡◌, subst, true, false, List, Option, none, some, length, drop, ltb, if◌then◌else◌,
}
use rusty_enet.Protocol.{Command, Body}
use rusty_enet.Peer.{Context, Event}
use rusty_enet.Network.{Addresses, Network}
use rusty_enet.Network.Steps.{counts_bytes, Steps, done, step}
use rusty_enet.Wire.Decoding.{decode_command}
use rusty_enet.Wire.Header.{Header, decode_header, header_size}
use rusty_enet.Inbound.{
  ReceivedData, payload, Sender, nobody_yet, refused_sender, panicking, known, find_sender,
  Unpacking, not_unpacked, undefined, unpacked, unpack, verify_checksum,
}
use rusty_enet.Inbound.Commands.{
  Allocator, carried_length, Reading, Handled, goes_on, ends, panics, handle_command,
  handle_commands, Receipt, stuck, received, Surroundings, hear_sender, receipt, sender_connect_id,
  handle_verified, handle_unpacked, handle_from, handle_sender, handle_incoming_commands,
}
use rusty_enet.Inbound.Leading.{Leads, Steps-append, handle_for-Leads}

module _ {A : Type 0} (addresses : Addresses A) where
  abbrev LeadsTo : Network A → Option (Reading A) → Type 0
  LeadsTo n none = Unit {0}
  LeadsTo n (some t) = Steps addresses n t.network

  module _ (flush : Context → Context) (allocator : Allocator) where
    abbrev next : (fuel : ℕ) → Header → (rest : List ℕ) → Body → Handled A → Option (Reading A)
    next fuel h rest b x = elim x [
      | panics ↦ none
      | ends t ↦ some t
      | goes_on t ↦
          handle_commands addresses flush allocator fuel h (drop (carried_length b) rest) t
    ]

    Steps-LeadsTo :
        (n m : Network A) (o : Option (Reading A)) → Steps addresses n m → LeadsTo m o → LeadsTo n o
    Steps-LeadsTo n m none r s = tt
    Steps-LeadsTo n m (some t) r s = Steps-append addresses n m t.network r s

    -- The loop after one command, where what follows it leads on.
    next-LeadsTo :
        (fuel : ℕ) (h : Header) (n : Network A) (rest : List ℕ) (b : Body) (x : Handled A)
        → Leads addresses n x
        → ((l : List ℕ) (t : Reading A)
            → LeadsTo t.network (handle_commands addresses flush allocator fuel h l t))
        → LeadsTo n (next fuel h rest b x)
    next-LeadsTo fuel h n rest b (goes_on t) r f =
        let l = drop (carried_length b) rest in
        Steps-LeadsTo n t.network (handle_commands addresses flush allocator fuel h l t) r (f l t)
    next-LeadsTo fuel h n rest b (ends t) r f = r
    next-LeadsTo fuel h n rest b panics r f = tt

    handle_commands-LeadsTo :
        (fuel : ℕ) (h : Header) (l : List ℕ) (s : Reading A)
        → LeadsTo s.network (handle_commands addresses flush allocator fuel h l s)
    unfolding handle_commands handle_command
    handle_commands-LeadsTo zero h l s = done
    handle_commands-LeadsTo (suc fuel) h l s =
        go (decode_command l) (handle_commands-LeadsTo fuel h)
      where
        go :
            (o : Option (Command × List ℕ))
            → ((l : List ℕ) (t : Reading A)
                → LeadsTo t.network (handle_commands addresses flush allocator fuel h l t))
            → LeadsTo s.network (elim o as (λ x. Option (Reading A)) [
              | none ↦ some s
              | some r ↦
                  next fuel h r.1 r.0.body (handle_command addresses flush allocator h r.0 r.1 s)
            ])
        go none f = done
        go (some r) f =
            next-LeadsTo fuel h s.network r.1 r.0.body
              (handle_command addresses flush allocator h r.0 r.1 s)
              (handle_for-Leads addresses flush allocator h r.0 r.1 s s.peer) f

  abbrev ReceivesBySteps : Network A → Receipt A → Type 0
  ReceivesBySteps n stuck = Unit {0}
  ReceivesBySteps n (received e m) = Steps addresses n m

  receipt-ReceivesBySteps :
      (n m : Network A) (o : Option (Reading A))
      → Steps addresses n m
      → LeadsTo m o
      → ReceivesBySteps n (receipt o)
  receipt-ReceivesBySteps n m none r s = tt
  receipt-ReceivesBySteps n m (some t) r s = Steps-append addresses n m t.network r s

  hear_sender-Steps : (i : Option ℕ) (l : ℕ) (n : Network A) → Steps addresses n (hear_sender i l n)
  hear_sender-Steps none l n = done
  hear_sender-Steps (some i) l n = step (counts_bytes i l) done

  module _ (s : Surroundings) where
    handle_verified-Steps :
        (h : Header) (i : Option ℕ) (e : Option Event) (n : Network A) (o : Option ReceivedData)
        → ReceivesBySteps n (handle_verified addresses s h i e n o)
    handle_verified-Steps h i e n none = done
    handle_verified-Steps h i e n (some d) =
        let m = hear_sender i d.received_data_length n in
        let l = payload (header_size n.host.has_checksum h) d in
        let p : Reading A = record { network = m; event = e; peer = i } in
        receipt-ReceivesBySteps n m (handle_commands addresses s.flush s.allocator (length l) h l p)
          (hear_sender-Steps i d.received_data_length n)
          (handle_commands-LeadsTo s.flush s.allocator (length l) h l p)

    handle_unpacked-Steps :
        (h : Header) (i : Option ℕ) (e : Option Event) (n : Network A) (u : Unpacking)
        → ReceivesBySteps n (handle_unpacked addresses s h i e n u)
    handle_unpacked-Steps h i e n not_unpacked = done
    handle_unpacked-Steps h i e n undefined = tt
    handle_unpacked-Steps h i e n (unpacked d) = handle_verified-Steps h i e n (
        verify_checksum s.checksum n.host.has_checksum (header_size n.host.has_checksum h)
          (sender_connect_id n i) d)

    handle_sender-Steps :
        (h : Header) (d : ReceivedData) (e : Option Event) (n : Network A) (x : Sender)
        → ReceivesBySteps n (handle_sender addresses s h d e n x)
    unfolding handle_from
    handle_sender-Steps h d e n refused_sender = done
    handle_sender-Steps h d e n panicking = tt
    handle_sender-Steps h d e n nobody_yet =
        handle_unpacked-Steps h none e n
          (unpack s.decompress h.flag_compressed (header_size n.host.has_checksum h) d)
    handle_sender-Steps h d e n (known i) =
        handle_unpacked-Steps h (some i) e n
          (unpack s.decompress h.flag_compressed (header_size n.host.has_checksum h) d)

    -- A datagram that is handled without a panic takes the host to its new state by steps, whatever
    -- bytes arrive and whatever the checksum, the compressor and the allocator answer. An
    -- acknowledgement is a step that keeps what is counted, and nothing is said of which there are.
    pub handle_incoming_commands-Steps :
        (d : ReceivedData) (e f : Option Event) (n m : Network A)
        → handle_incoming_commands addresses s d e n ≡ received f m
        → Steps addresses n m
    unfolding handle_incoming_commands
    handle_incoming_commands-Steps d e f n m g =
        let h = decode_header d.buffer in
        subst (ReceivesBySteps n) g
          (elim (ltb d.received_data_length 2)
            as (λ x. ReceivesBySteps n (
              if x
              then received e n
              else handle_sender addresses s h d e n (find_sender addresses h n))) [
                | true ↦ done
                | false ↦ handle_sender-Steps h d e n (find_sender addresses h n)
              ])
