-- ===== src/Tests/Counting.antt =====
-- A host with three connected peers of which one is limited, and its dispatch queue.
use rusty_enet.Base.{◌≡◌, refl, true, List, [], ◌∷◌}
use rusty_enet.Peer.{zombie, disconnecting, Context, accepted, context}
use rusty_enet.Connection.{dispatch_state, reset}
use rusty_enet.Connection.Counters.{IsCounted}
use rusty_enet.Connection.History.{
  Happening, resets, connects, disconnects, changes, dispatches, asks_to_leave,
}
use rusty_enet.Connection.DispatchQueue.{occurrences, IsLinked, reset_twice_linked}
use rusty_enet.Limits.{handle_bandwidth_limit}
use rusty_enet.Tests.Samples.{quiet, waiting}

quiet-IsCounted : IsCounted 2 0 quiet
quiet-IsCounted = record { connected = refl; limited = refl }

abbrev history : List Happening
history =
    changes disconnecting
    ∷ connects
    ∷ asks_to_leave true 7
    ∷ dispatches zombie
    ∷ disconnects
    ∷ resets
    ∷ []

-- The peer is no longer limited.
no_longer_limited : (context (handle_bandwidth_limit 0 0 quiet)).host.bandwidth_limited_peers ≡ 0
unfolding handle_bandwidth_limit
no_longer_limited = refl

abbrev limited : Context
limited = context (handle_bandwidth_limit 8000 9000 quiet)

limited_accepted : handle_bandwidth_limit 8000 9000 quiet ≡ accepted limited
unfolding handle_bandwidth_limit
limited_accepted = refl

waiting-IsLinked : IsLinked waiting
waiting-IsLinked = refl

reset_twice_linked_example :
    occurrences 3 (dispatch_state zombie (reset waiting)).host.dispatch_queue ≡ 2
reset_twice_linked_example = reset_twice_linked zombie waiting refl waiting-IsLinked
