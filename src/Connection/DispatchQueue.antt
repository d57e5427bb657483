-- ===== src/Connection/DispatchQueue.antt =====
-- The dispatch queue of a host against the flag by which a peer knows that it stands in it.
use rusty_enet.Base.{
  ℕ, ◌+◌, ◌-◌, ◌≡◌, refl, true, false, List, [], ◌∷◌, ◌++◌, arith, ◌==◌, if◌then◌else◌,
}
use rusty_enet.Peer.{PeerState, Context}
use rusty_enet.Connection.{
  unlink, reset_queues, reset, schedule_dispatch, dispatch_state, change_state,
}

-- How often a peer stands in the queue.
abbrev pub occurrences : ℕ → List ℕ → ℕ
occurrences i [] = 0
occurrences i (j ∷ q) = if j == i then occurrences i q + 1 else occurrences i q

-- Once if the flag is set, and not at all otherwise.
abbrev pub IsLinked : Context → Type 0
IsLinked c =
    occurrences c.peer.incoming_peer_id c.host.dispatch_queue
    ≡ (if c.peer.needs_dispatch then 1 else 0)

occurrences-unlink : (i : ℕ) (q : List ℕ) → occurrences i (unlink i q) ≡ occurrences i q - 1
unfolding unlink
occurrences-unlink i [] = refl
occurrences-unlink i (j ∷ q) = ground (arith, occurrences-unlink i q)

occurrences-append : (i : ℕ) (q : List ℕ) → occurrences i (q ++ (i ∷ [])) ≡ occurrences i q + 1
occurrences-append i [] = ground arith
occurrences-append i (j ∷ q) = ground (arith, occurrences-append i q)

pub reset_queues-IsLinked : (c : Context) → IsLinked c → IsLinked (reset_queues c)
unfolding reset_queues
reset_queues-IsLinked c v =
    ground (arith, occurrences-unlink c.peer.incoming_peer_id c.host.dispatch_queue)

pub schedule_dispatch-IsLinked : (c : Context) → IsLinked c → IsLinked (schedule_dispatch c)
unfolding schedule_dispatch
schedule_dispatch-IsLinked c v =
    ground (arith, occurrences-append c.peer.incoming_peer_id c.host.dispatch_queue)

change_state-IsLinked : (s : PeerState) (c : Context) → IsLinked c → IsLinked (change_state s c)
unfolding change_state
change_state-IsLinked s c v = ground arith

-- A peer that stands in its host's dispatch queue once if its flag is set, and not at all
-- otherwise, does so after a change of state that is to be reported.
pub dispatch_state-IsLinked :
    (s : PeerState) (c : Context) → IsLinked c → IsLinked (dispatch_state s c)
unfolding dispatch_state
dispatch_state-IsLinked s c v = schedule_dispatch-IsLinked _ (change_state-IsLinked s c v)

-- A peer that is not in the queue is not there after a reset.
pub reset-IsLinked : (c : Context) → c.peer.needs_dispatch ≡ false → IsLinked c → IsLinked (reset c)
unfolding reset
reset-IsLinked c h v = ground arith

-- A peer that stands in the dispatch queue when it is reset stays there though its flag is
-- cleared: the next change of state that is to be reported puts it into the queue a second time.
pub reset_twice_linked :
    (s : PeerState) (c : Context)
    → c.peer.needs_dispatch ≡ true
    → IsLinked c
    → occurrences c.peer.incoming_peer_id (dispatch_state s (reset c)).host.dispatch_queue ≡ 2
unfolding dispatch_state reset
reset_twice_linked s c h v =
    ground (arith, occurrences-append c.peer.incoming_peer_id c.host.dispatch_queue)
