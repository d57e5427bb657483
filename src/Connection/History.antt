-- ===== src/Connection/History.antt =====
-- The counters of a host over any sequence of what happens to one of its peers in
-- src/c/protocol.rs and src/c/peer.rs.
use rusty_enet.Base.{ℕ, ◌+◌, ◌<◌, ◌^◌, Bool, List, [], ◌∷◌}
use rusty_enet.Peer.{PeerState, Context}
use rusty_enet.Connection.{reset, change_state, dispatch_state, notify_connect, notify_disconnect}
use rusty_enet.Connection.Ending.{handle_disconnect}
use rusty_enet.Connection.Counters.{
  IsCounted, reset-IsCounted, change_state-IsCounted, dispatch_state-IsCounted,
  notify_connect-IsCounted, notify_disconnect-IsCounted, handle_disconnect-IsCounted,
}

pub data Happening : Type 0 where
  resets connects disconnects : Happening
  changes dispatches : PeerState → Happening
  asks_to_leave : (acknowledge : Bool) → (answer : ℕ) → Happening

unfoldable pub happen : Happening → Context → Context
happen resets c = reset c
happen connects c = notify_connect c
happen disconnects c = notify_disconnect c
happen (changes s) c = change_state s c
happen (dispatches s) c = dispatch_state s c
happen (asks_to_leave a d) c = handle_disconnect a d c

unfoldable pub run : List Happening → Context → Context
run [] c = c
run (h ∷ l) c = run l (happen h c)

module _ (n m : ℕ) (n_fits : n + 1 < 2 ^ 64) (m_fits : m + 1 < 2 ^ 64) where
  happen-IsCounted : (h : Happening) (c : Context) → IsCounted n m c → IsCounted n m (happen h c)
  unfolding happen
  happen-IsCounted resets c v = reset-IsCounted n m n_fits m_fits c v
  happen-IsCounted connects c v = notify_connect-IsCounted n m n_fits m_fits c v
  happen-IsCounted disconnects c v = notify_disconnect-IsCounted n m n_fits m_fits c v
  happen-IsCounted (changes s) c v = change_state-IsCounted n m n_fits m_fits s c v
  happen-IsCounted (dispatches s) c v = dispatch_state-IsCounted n m n_fits m_fits s c v
  happen-IsCounted (asks_to_leave a d) c v = handle_disconnect-IsCounted n m n_fits m_fits a d c v

  -- Where a host's counts of its connected and of its bandwidth limited peers are right, they are
  -- right after any sequence of resets, state changes, dispatches, reports of a connection or of
  -- its end, and disconnect commands of a peer, in any order. The other peers add `n` and `m` to
  -- the counts, and are fewer than 2 ^ 64 - 1.
  pub run-IsCounted : (l : List Happening) (c : Context) → IsCounted n m c → IsCounted n m (run l c)
  unfolding run
  run-IsCounted [] c v = v
  run-IsCounted (h ∷ l) c v = run-IsCounted l (happen h c) (happen-IsCounted h c v)
