-- ===== src/Limits/Bounds.antt =====
-- The window sizes and the mtu that hosts agree on: src/c/protocol.rs.
use rusty_enet.Base.{ℕ, ◌≤◌, ◌≡◌, ◌+◌, ◌<◌, ◌^◌, arith}
use rusty_enet.Peer.{Context, accepted, context}
use rusty_enet.Limits.{clamp_window, shared_window, clamp_mtu, handle_bandwidth_limit}
use rusty_enet.Connection.Counters.{IsCounted}

abbrev pub WindowInBounds : ℕ → Type 0
WindowInBounds w = (4096 ≤ w) × (w ≤ 65536)

pub clamp_window_bounds : (w : ℕ) → WindowInBounds (clamp_window w)
unfolding clamp_window
clamp_window_bounds w = ground arith

pub clamp_mtu_bounds : (m : ℕ) → (576 ≤ clamp_mtu m) × (clamp_mtu m ≤ 4096)
unfolding clamp_mtu
clamp_mtu_bounds m = ground arith

-- The window size that two ends compute from their bandwidths does not depend on which of them
-- computes it.
pub shared_window_comm : (a b : ℕ) → shared_window a b ≡ shared_window b a
unfolding shared_window
shared_window_comm a b = ground arith

-- A bandwidth limit command that is accepted leaves the peer a window size between 4096 and 65536.
pub handle_bandwidth_limit-WindowInBounds :
    (incoming outgoing : ℕ) (c d : Context)
    → handle_bandwidth_limit incoming outgoing c ≡ accepted d
    → WindowInBounds d.peer.window_size
unfolding handle_bandwidth_limit
handle_bandwidth_limit-WindowInBounds i o c d e = ground arith

-- Accepted or not, a bandwidth limit command leaves a host's two counts right: the count of
-- limited peers follows the peer's limit as it comes and goes. The other peers add `n` and `m` to
-- the counts, and are fewer than 2 ^ 64 - 1.
pub handle_bandwidth_limit-IsCounted :
    (n m incoming outgoing : ℕ) (c : Context)
    → n + 1 < 2 ^ 64
    → m + 1 < 2 ^ 64
    → IsCounted n m c
    → IsCounted n m (context (handle_bandwidth_limit incoming outgoing c))
unfolding handle_bandwidth_limit
handle_bandwidth_limit-IsCounted n m i o c hn hm v = ground arith
