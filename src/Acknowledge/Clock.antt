-- ===== src/Acknowledge/Clock.antt =====
-- The sent time that an acknowledgement carries in half a word.
use rusty_enet.Base.{ℕ, ◌%◌, ◌^◌, ◌≤◌, ◌<◌, ◌≡◌, arith, sub32}
use rusty_enet.Acknowledge.{received_sent_time, time_difference}

-- A packet that was sent at most 2 ^ 15 milliseconds ago is dated right from the low 16 bits of its
-- time, also where the clock has gone round since.
pub received_sent_time_lem :
    (now age : ℕ)
    → now < 2 ^ 32
    → age ≤ 2 ^ 15
    → received_sent_time now (sub32 now age % 2 ^ 16) ≡ sub32 now age
unfolding received_sent_time
received_sent_time_lem now age h k = ground arith

-- The round trip time that is measured from the low 16 bits of a sent time is the age of the
-- packet, for a packet sent at most 2 ^ 15 milliseconds ago, also where the clock of 32 bits has
-- gone round since.
pub time_difference-received_sent_time :
    (now age : ℕ)
    → now < 2 ^ 32
    → age ≤ 2 ^ 15
    → time_difference now (received_sent_time now (sub32 now age % 2 ^ 16)) ≡ age
unfolding time_difference
time_difference-received_sent_time now age h k = ground (arith, received_sent_time_lem now age h k)
