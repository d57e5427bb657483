-- ===== src/Window/Order.antt =====
-- The window tests in terms of how far a sequence number lies ahead of the current one.
use rusty_enet.Base.{ℕ, ◌+◌, ◌-◌, ◌*◌, ◌%◌, ◌^◌, ◌≤◌, ◌<◌, ◌≡◌, true, false, arith, ltb}
use rusty_enet.Window.{in_window, in_gap}

-- How many steps `sequence` is ahead of `current`, going round at 2 ^ 16.
abbrev pub ahead : (current sequence : ℕ) → ℕ
ahead current sequence = (sequence + 2 ^ 16 - current) % 2 ^ 16

module _ (current sequence : ℕ) (hc : current < 2 ^ 16) (hs : sequence < 2 ^ 16) where
  -- A command is taken exactly if its number lies ahead of the current one by less than what is
  -- left of seven windows of 4096, for numbers of 16 bits.
  pub in_window_lem :
      in_window current sequence ≡ ltb (ahead current sequence) (7 * 4096 - current % 4096)
  unfolding in_window
  in_window_lem = ground arith

  -- What is taken is acknowledged: a number of 16 bits in the window is not in the gap of numbers
  -- whose acknowledgement is withheld.
  pub in_window-in_gap : in_window current sequence ≡ true → in_gap current sequence ≡ false
  unfolding in_window in_gap
  in_window-in_gap h = ground arith

  -- What is acknowledged and not taken was passed before: its number lies behind the current one
  -- by at most seven windows and the part of the current window that is passed. The numbers have
  -- 16 bits.
  pub acknowledged_old :
      in_gap current sequence ≡ false
      → in_window current sequence ≡ false
      → 2 ^ 16 - ahead current sequence ≤ 7 * 4096 + current % 4096
  unfolding in_window in_gap
  acknowledged_old h k = ground arith
