-- ===== src/Datagram/Acknowledging.antt =====
-- The acknowledgements that `enet_protocol_send_acknowledgements` writes.
use rusty_enet.Base.{
  ℕ, ◌≤◌, ◌≡◌, refl, Bool, true, false, List, [], ◌∷◌, ◌++◌, map, none, arith, if◌then◌else◌,
  append-nil, append_assoc,
}
use rusty_enet.Peer.{PeerState, zombie, Acknowledgement, Context}
use rusty_enet.Connection.{dispatch_state}
use rusty_enet.Datagram.{
  Entry, Datagram, write, no_room_for_acknowledgement, acknowledge_command, with_continue_sending,
  is_disconnect, with_acknowledgements, acknowledge_all, send_acknowledgements,
}
use rusty_enet.Datagram.Room.{IsWithin}

dispatch_state-mtu : (s : PeerState) (c : Context) → (dispatch_state s c).peer.mtu ≡ c.peer.mtu
unfolding dispatch_state
dispatch_state-mtu s c = ground arith

abbrev pub acknowledge_entry : Acknowledgement → Entry
acknowledge_entry a = record { command = acknowledge_command a; part = none }

-- Those that are written are the first ones, in their order, and the others are left. The datagram
-- keeps within its bounds, and where any are left the peer has more to send.
pub record IsAcknowledged (mtu : ℕ) (l : List Acknowledgement) (d : Datagram)
    (r : Context × Datagram) : Type 0 where
  pub done : List Acknowledgement
  pub order : l ≡ done ++ r.0.peer.acknowledgements
  pub entries : r.1.entries ≡ d.entries ++ map acknowledge_entry done
  pub within : IsWithin mtu r.1

write-IsWithin :
    (m : ℕ) (a : Acknowledgement) (c : Context) (d : Datagram)
    → m ≤ 4096
    → c.peer.mtu ≡ m
    → no_room_for_acknowledgement c.peer d ≡ false
    → IsWithin m d
    → IsWithin m (write (acknowledge_entry a) d)
unfolding write no_room_for_acknowledgement acknowledge_command
write-IsWithin m a c d h e n w = ground arith

stop-IsAcknowledged :
    (m : ℕ) (l : List Acknowledgement) (c : Context) (d : Datagram)
    → IsWithin m d
    → c.peer.acknowledgements ≡ l
    → IsAcknowledged m l d (c, d)
stop-IsAcknowledged m l c d w e = record {
  done = [];
  order = ground arith;
  entries = ground (arith, append-nil d.entries);
  within = w;
}

next-IsAcknowledged :
    (m : ℕ) (a : Acknowledgement) (l : List Acknowledgement) (d : Datagram) (r : Context × Datagram)
    → IsAcknowledged m l (write (acknowledge_entry a) d) r
    → IsAcknowledged m (a ∷ l) d r
unfolding write
next-IsAcknowledged m a l d r v = record {
  done = a ∷ v.done;
  order = ground arith;
  entries =
      ground
        (arith, append_assoc d.entries (acknowledge_entry a ∷ []) (map acknowledge_entry v.done));
  within = v.within;
}

acknowledge_all-IsAcknowledged :
    (m : ℕ) (l : List Acknowledgement) (c : Context) (d : Datagram)
    → m ≤ 4096
    → c.peer.mtu ≡ m
    → IsWithin m d
    → IsAcknowledged m l d (acknowledge_all l c d)
unfolding acknowledge_all
acknowledge_all-IsAcknowledged m [] c d h e w = stop-IsAcknowledged m [] _ d w refl
acknowledge_all-IsAcknowledged m (a ∷ l) c d h e w =
    go (no_room_for_acknowledgement c.peer d) refl (λ v.
      acknowledge_all-IsAcknowledged m l
        (if is_disconnect a.command.body then dispatch_state zombie c else c)
        (write (acknowledge_entry a) d) h (ground (arith, dispatch_state-mtu zombie c)) v)
  where
    c' : Context
    c' = if is_disconnect a.command.body then dispatch_state zombie c else c

    go :
        (b : Bool)
        → no_room_for_acknowledgement c.peer d ≡ b
        → (IsWithin m (write (acknowledge_entry a) d)
            → IsAcknowledged m l
                (write (acknowledge_entry a) d)
                (acknowledge_all l c' (write (acknowledge_entry a) d)))
        → IsAcknowledged m (a ∷ l) d (
            if b
            then (
              record c { peer = with_continue_sending (with_acknowledgements (a ∷ l) c.peer) },
              d,
            )
            else acknowledge_all l c' (write (acknowledge_entry a) d))
    go true n k = stop-IsAcknowledged m (a ∷ l) _ d w refl
    go false n k = next-IsAcknowledged m a l d _ (k (write-IsWithin m a c d h e n w))

-- The acknowledgements that come into a datagram are the first ones of the peer, in their order
-- and each with its sequence number, channel and the low 16 bits of its time; the others are left
-- in their order, and the datagram stays within the bounds of its arrays and of the mtu. It was
-- within them at the start, and the mtu is at most 4096.
pub send_acknowledgements-IsAcknowledged :
    (c : Context) (d : Datagram)
    → c.peer.mtu ≤ 4096
    → IsWithin c.peer.mtu d
    → IsAcknowledged c.peer.mtu c.peer.acknowledgements d (send_acknowledgements c d)
unfolding send_acknowledgements
send_acknowledgements-IsAcknowledged c d h w =
    acknowledge_all-IsAcknowledged c.peer.mtu c.peer.acknowledgements c d h refl w
