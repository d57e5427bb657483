-- ===== src/Connected/Telling.antt =====
-- `Host::handle_event` and `check_events` of src/connected.rs: an event of the host below as one of
-- the host on connections.
use rusty_enet.Base.{ℕ, Option, none, some, get_elem?}
use rusty_enet.Connected.{
  Address, PeerState, awaiting_peer, has_peer, disconnecting, InnerEvent, connects, disconnects,
  receives, Event, connect_event, disconnect_event, receive_event, Inner, Host, apply_settings,
}
use rusty_enet.Connected.Adding.{set_state}

-- The event that the application gets, if any, or a panic: an address that is expected, an index out
-- of bounds, and a state that counts as unreachable.
pub data Told (S C A D : Type 0) : Type 0 where
  told : Option (Event D) → Host S C A → Told S C A D
  panics : Told S C A D

module _ {D : Type 0} where
  abbrev pub event_peer : InnerEvent D → ℕ
  event_peer (connects p d) = p
  event_peer (disconnects p d) = p
  event_peer (receives p n x) = p

module _ {S C A D : Type 0} (operations : Inner S A D) where
  -- A peer of the host below is connected.
  abbrev pub tell_connect :
      ℕ → (peer connect_data : ℕ) → Host S C A → Option (PeerState C A) → Told S C A D
  tell_connect i p d h (some (awaiting_peer c a since timeout s)) =
      told (some (connect_event i d))
        (set_state i (has_peer c a p) (record h { inner = apply_settings operations s p h.inner }))
  tell_connect i p d h (some (has_peer c a q)) =
      told (some (connect_event i d)) (set_state i (has_peer c a q) h)
  tell_connect i p d h _ = panics

  -- A peer of the host below is disconnected: what it has to send still goes out for a time.
  abbrev pub tell_disconnect :
      ℕ → (disconnect_data : ℕ) → Host S C A → Option (PeerState C A) → Told S C A D
  tell_disconnect i d h (some (awaiting_peer c a since timeout s)) =
      told (some (disconnect_event i d))
        (set_state i (disconnecting c a none (operations.now h.inner)) h)
  tell_disconnect i d h (some (has_peer c a q)) =
      told (some (disconnect_event i d))
        (set_state i (disconnecting c a (some q) (operations.now h.inner)) h)
  tell_disconnect i d h _ = panics

  abbrev pub tell_receive :
      ℕ → (channel_id : ℕ) → D → Host S C A → Option (PeerState C A) → Told S C A D
  tell_receive i n x h none = panics
  tell_receive i n x h (some s) = told (some (receive_event i n x)) h

  abbrev pub tell_at : InnerEvent D → Host S C A → Option (Address A) → Told S C A D
  tell_at e h none = panics
  tell_at (connects p d) h (some a) = tell_connect a.id p d h (get_elem? h.peers a.id)
  tell_at (disconnects p d) h (some a) = tell_disconnect a.id d h (get_elem? h.peers a.id)
  tell_at (receives p n x) h (some a) = tell_receive a.id n x h (get_elem? h.peers a.id)

  unfoldable pub handle_event : InnerEvent D → Host S C A → Told S C A D
  handle_event e h = tell_at e h (operations.peer_address h.inner (event_peer e))

  abbrev pub after_inner : Host S C A → Option (InnerEvent D) × S → Told S C A D
  after_inner h (none, s) = told none (record h { inner = s })
  after_inner h (some e, s) = handle_event e (record h { inner = s })

  unfoldable pub check_events : Host S C A → Told S C A D
  check_events h = after_inner h (operations.check_events h.inner)
