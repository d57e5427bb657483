-- ===== src/Inbound/Termination.antt =====
-- The loop over the commands of a datagram ends: `enet_protocol_handle_incoming_commands` of
-- src/c/protocol.rs.
use rusty_enet.Base.{
  ℕ, zero, suc, ◌+◌, ◌%◌, ◌≤◌, ◌<◌, ◌≡◌, refl, List, [], ◌∷◌, Option, none, some, arith, length,
  drop, length-drop, get_or, sym,
}
use rusty_enet.Protocol.{Command}
use rusty_enet.Peer.{Context}
use rusty_enet.Network.{Addresses}
use rusty_enet.Wire.Decoding.{read8, command_sizes, decode_command}
use rusty_enet.Wire.Header.{Header}
use rusty_enet.Inbound.Commands.{
  Allocator, carried_length, Reading, Handled, goes_on, ends, panics, handle_command,
  handle_commands,
}

sizes-ge : (n : ℕ) → n < 13 → 1 ≤ get_or command_sizes n 0 → 4 ≤ get_or command_sizes n 0
sizes-ge n h k = ground arith

-- A command takes at least its header.
pub decode_command-shorter :
    (l rest : List ℕ) (k : Command) → decode_command l ≡ some (k, rest) → length rest + 4 ≤ length l
unfolding decode_command
decode_command-shorter l rest k e =
    let number = read8 0 l % 16 in
    ground (arith, sizes-ge number, length-drop (get_or command_sizes number 0) l)

module _ {A : Type 0} (addresses : Addresses A) (flush : Context → Context)
    (allocator : Allocator) where
  -- Two runs of the loop after a command give the same if those of what follows do.
  next_same :
      (n m : ℕ) (h : Header) (k : Command) (rest : List ℕ) (x : Handled A)
      → ((t : Reading A)
          → handle_commands addresses flush allocator n h (drop (carried_length k.body) rest) t
            ≡ handle_commands addresses flush allocator m h (drop (carried_length k.body) rest) t)
      → elim x as (λ y. Option (Reading A)) [
        | panics ↦ none
        | ends t ↦ some t
        | goes_on t ↦
            handle_commands addresses flush allocator n h (drop (carried_length k.body) rest) t
      ]
        ≡ elim x as (λ y. Option (Reading A)) [
          | panics ↦ none
          | ends t ↦ some t
          | goes_on t ↦
              handle_commands addresses flush allocator m h (drop (carried_length k.body) rest) t
        ]
  next_same n m h k rest (goes_on t) f = f t
  next_same n m h k rest (ends t) f = refl
  next_same n m h k rest panics f = refl

  pub handle_commands-nil :
      (n : ℕ) (h : Header) (s : Reading A)
      → handle_commands addresses flush allocator n h [] s ≡ some s
  unfolding handle_commands decode_command
  handle_commands-nil zero h s = refl
  handle_commands-nil (suc n) h s = refl

  -- The loop over the commands ends: with as much fuel as there are bytes it has the result that
  -- it has with any more, so it never runs out, whatever the bytes are.
  pub handle_commands-enough :
      (n m : ℕ) (h : Header) (l : List ℕ) (s : Reading A)
      → length l ≤ n
      → length l ≤ m
      → handle_commands addresses flush allocator n h l s
        ≡ handle_commands addresses flush allocator m h l s
  unfolding handle_commands
  handle_commands-enough zero m h [] s p q = sym (handle_commands-nil m h s)
  handle_commands-enough zero m h (x ∷ l) s p q = absurd (omega arith)
  handle_commands-enough (suc n) zero h [] s p q = handle_commands-nil (suc n) h s
  handle_commands-enough (suc n) zero h (x ∷ l) s p q = absurd (omega arith)
  handle_commands-enough (suc n) (suc m) h l s p q =
      go (decode_command l) refl (handle_commands-enough n m h)
    where
      go :
          (o : Option (Command × List ℕ))
          → decode_command l ≡ o
          → ((r : List ℕ) (t : Reading A)
              → length r ≤ n
              → length r ≤ m
              → handle_commands addresses flush allocator n h r t
                ≡ handle_commands addresses flush allocator m h r t)
          → elim o as (λ x. Option (Reading A)) [
            | none ↦ some s
            | some r ↦ elim (handle_command addresses flush allocator h r.0 r.1 s) [
              | panics ↦ none
              | ends t ↦ some t
              | goes_on t ↦
                  handle_commands addresses flush allocator n h
                    (drop (carried_length r.0.body) r.1)
                    t
            ]
          ]
            ≡ elim o as (λ x. Option (Reading A)) [
              | none ↦ some s
              | some r ↦ elim (handle_command addresses flush allocator h r.0 r.1 s) [
                | panics ↦ none
                | ends t ↦ some t
                | goes_on t ↦
                    handle_commands addresses flush allocator m h
                      (drop (carried_length r.0.body) r.1)
                      t
              ]
            ]
      go none e f = refl
      go (some (k, rest)) e f =
          let shorter = decode_command-shorter l rest k e in
          let dropped = length-drop (carried_length k.body) rest in
          next_same n m h k rest (handle_command addresses flush allocator h k rest s) (λ t.
            f (drop (carried_length k.body) rest) t (omega (arith, shorter, dropped, p))
              (omega (arith, shorter, dropped, q)))
