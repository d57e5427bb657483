-- ===== src/Tests.antt =====
-- The theorems at concrete inputs.
mod Generations
mod Samples
mod Sending
mod Delivery
mod Estimating
mod Counting
mod Connecting
mod Meeting
mod TimingOut
mod Filling
mod Sharing
mod Beginning
mod Arriving
mod Wiring
mod Servicing
