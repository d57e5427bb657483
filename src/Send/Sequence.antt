-- ===== src/Send/Sequence.antt =====
-- The sequence numbers that queued commands get.
use rusty_enet.Base.{
  ℕ, ◌+◌, ◌%◌, ◌^◌, ◌≤◌, ◌<◌, ◌≡◌, ◌≢◌, refl, true, List, [], ◌∷◌, some, arith, add16, get_elem?,
  set, length, add32, zero, suc, subst, sym, ◌*◌,
}
use rusty_enet.Peer.{Peer, Channel, OutgoingCommand, IncomingCommand, Context}
use rusty_enet.Outgoing.{
  number_command, with_channel, account, setup_outgoing_command, prepare, enqueue,
}
use rusty_enet.Send.{setup_all, Cut, fragment}
use rusty_enet.Send.Fragments.{Covers}
use rusty_enet.Incoming.{last_sequence_number}

pub get_elem?-set_self {ℓ} :
    {A : Type ℓ} (xs : List A) (i : ℕ) (v x : A)
    → get_elem? xs i ≡ some x
    → get_elem? (set xs i v) i ≡ some v
get_elem?-set_self [] i v x h = absurd (ground arith)
get_elem?-set_self (y ∷ xs) zero v x h = refl
get_elem?-set_self (y ∷ xs) (suc i) v x h = get_elem?-set_self xs i v x h

-- The number that the channel `i` gave last.
abbrev pub Reliable : (i n : ℕ) → Peer → Type 0
Reliable i n p =
    (ch : Channel) × (get_elem? p.channels i ≡ some ch) × (ch.outgoing_reliable_sequence_number ≡ n)

abbrev pub IsReliableOn : ℕ → OutgoingCommand → Type 0
IsReliableOn i o = (o.command.channel_id ≡ i) × (o.command.flag_acknowledge ≡ true)

enqueue-channels : (o : OutgoingCommand) (p : Peer) → (enqueue o p).channels ≡ p.channels
unfolding enqueue
enqueue-channels o p = ground arith

abbrev advanced : Channel → Channel
advanced ch = record ch {
  outgoing_reliable_sequence_number = add16 ch.outgoing_reliable_sequence_number 1;
  outgoing_unreliable_sequence_number = 0;
}

number_command-reliable :
    (i : ℕ) (p : Peer) (o : OutgoingCommand) (ch : Channel)
    → i ≢ 0xff
    → IsReliableOn i o
    → get_elem? p.channels i ≡ some ch
    → number_command p o ≡ record {
      source = with_channel i (advanced ch) p;
      reliable = add16 ch.outgoing_reliable_sequence_number 1;
      unreliable = 0;
    }
unfolding number_command
number_command-reliable i p o ch hi r e = ground arith

-- A reliable command on a channel gets the next number, and the channel keeps it.
pub setup-Reliable :
    (i n : ℕ) (c : Context) (o : OutgoingCommand)
    → i ≢ 0xff
    → IsReliableOn i o
    → Reliable i n c.peer
    → Reliable i (add16 n 1) (setup_outgoing_command c o).peer
      × ((number_command (account o c.peer) o).reliable ≡ add16 n 1)
unfolding setup_outgoing_command with_channel
setup-Reliable i n c o hi r (ch, e, en) =
    let q = number_command-reliable i (account o c.peer) o ch hi r e in
    let m = number_command (account o c.peer) o in
    (
      (
        advanced ch,
        ground (
          arith,
          q,
          enqueue-channels (prepare (add32 c.host.total_queued 1) m o) m.source,
          get_elem?-set_self c.peer.channels i (advanced ch) ch e,
        ),
        ground arith,
      ),
      ground (arith, q),
    )

abbrev pub AllReliableOn : ℕ → List OutgoingCommand → Type 0
AllReliableOn i [] = Unit {0}
AllReliableOn i (o ∷ l) = IsReliableOn i o × AllReliableOn i l

-- So a list of reliable commands moves the channel by one for each.
pub setup_all-Reliable :
    (i n : ℕ) (l : List OutgoingCommand) (c : Context)
    → i ≢ 0xff
    → n < 2 ^ 16
    → AllReliableOn i l
    → Reliable i n c.peer
    → Reliable i ((n + length l) % 2 ^ 16) (setup_all l c).peer
unfolding setup_all
setup_all-Reliable i n [] c hi hn a r = subst (λ k. Reliable i k c.peer) (omega arith) r
setup_all-Reliable i n (o ∷ l) c hi hn a r =
    subst (λ k. Reliable i k (setup_all l (setup_outgoing_command c o)).peer) (omega arith)
      (setup_all-Reliable i (add16 n 1) l (setup_outgoing_command c o) hi (omega arith) a.1
        (setup-Reliable i n c o hi a.0 r).0)

fragment-IsReliableOn :
    (c : Cut) (number offset size : ℕ)
    → c.reliable ≡ true
    → IsReliableOn c.channel_id (fragment c number offset size)
unfolding fragment
fragment-IsReliableOn c number offset size h = (refl, h)

Covers-AllReliableOn :
    (c : Cut) (full number offset : ℕ) (l : List OutgoingCommand)
    → c.reliable ≡ true
    → Covers c full number offset l
    → AllReliableOn c.channel_id l
Covers-AllReliableOn c full number offset [] h v = tt
Covers-AllReliableOn c full number offset (o ∷ l) h v = (
  subst (IsReliableOn c.channel_id) (sym v.0.0)
      (fragment-IsReliableOn c number offset o.fragment_length h),
  Covers-AllReliableOn c full (number + 1) (offset + o.fragment_length) l h v.4,
)

-- Both ends agree on the number that follows a packet sent in reliable fragments: where the
-- sender's channel stands once all are queued is where the receiver's moves when it hands the
-- packet on, which it knows by the number of the first fragment and their count. The channel is
-- not the one for control commands, the fragments cover a packet, and there are between 1 and 1024
-- * 1024 of them.
pub setup_all-last_sequence_number :
    (cut : Cut) (full n : ℕ) (l : List OutgoingCommand) (c : Context) (i : IncomingCommand)
    → cut.channel_id ≢ 0xff
    → cut.reliable ≡ true
    → Covers cut full 0 0 l
    → 0 < length l
    → length l ≤ 1024 * 1024
    → n < 2 ^ 16
    → Reliable cut.channel_id n c.peer
    → i.reliable_sequence_number ≡ add16 n 1
    → i.fragment_count ≡ length l
    → Reliable cut.channel_id (last_sequence_number i) (setup_all l c).peer
unfolding last_sequence_number
setup_all-last_sequence_number cut full n l c i hi hr v pos small hn r e k =
    subst (λ m. Reliable cut.channel_id m (setup_all l c).peer) (ground arith)
      (setup_all-Reliable cut.channel_id n l c hi hn (Covers-AllReliableOn cut full 0 0 l hr v) r)
