-- ===== src/Tests/Sending.antt =====
-- A packet that is cut into fragments, sent, and put together again.
use rusty_enet.Base.{
  ℕ, zero, suc, ◌≡◌, ◌≢◌, refl, inl, inr, true, List, [], ◌∷◌, some, arith, length, ◌<◌,
}
use rusty_enet.Protocol.{FragmentBody}
use rusty_enet.Peer.{OutgoingCommand, IncomingCommand}
use rusty_enet.Incoming.{last_sequence_number}
use rusty_enet.Incoming.Arriving.{Arrival, new_incoming}
use rusty_enet.Send.{
  Cut, fragment, cut_from, fragment_count, fragment_body, setup_all, send, out_of_fuel,
}
use rusty_enet.Send.Fragments.{Covers, cut_from_lem, send-ends}
use rusty_enet.Send.Sequence.{Reliable, setup_all-last_sequence_number}
use rusty_enet.Receive.Fragment.{add_fragment, copy_fragment, fragment_size, write_at}
use rusty_enet.Receive.Reassembly.{Piece, AllFragments, add_all, add_all_complete, Arrives}
use rusty_enet.Receive.RoundTrip.{
  Arrivals, Reaches, pieces, received, pieces-AllFragments, cut_from-received,
}
use rusty_enet.Outgoing.{Among}
use rusty_enet.Tests.Samples.{channel, incoming, packet, quiet, reliable_command}

-- Five bytes, two in a fragment.
abbrev bytes : List ℕ
bytes = 10 ∷ 11 ∷ 12 ∷ 13 ∷ 14 ∷ []

abbrev five : Cut
five = record {
  reliable = true;
  channel_id = 0;
  address = 7;
  start_sequence_number = 65535;
  count = 3;
  total = 5;
}

abbrev fragments : List OutgoingCommand
fragments = fragment five 0 0 2 ∷ fragment five 1 2 2 ∷ fragment five 2 4 1 ∷ []

-- The last comes first, and the middle one twice, with other commands behind some.
abbrev arrivals : Arrivals
arrivals =
    (fragment five 2 4 1, [])
    ∷ (fragment five 1 2 2, 99 ∷ [])
    ∷ (fragment five 1 2 2, [])
    ∷ (fragment five 0 0 2, 98 ∷ 97 ∷ [])
    ∷ []

abbrev unused : FragmentBody
unused = fragment_body five 0 0 0

abbrev started : Arrival
started = record {
  command = reliable_command 65535;
  contents = 0 ∷ 0 ∷ 0 ∷ 0 ∷ 0 ∷ [];
  packet_flags = 1;
  fragment_count = 3;
  address = 9;
}

counted : five.count ≡ fragment_count five.total 2
unfolding fragment_count
counted = refl

cut_fragments : cut_from 6 five 2 0 0 ≡ some fragments
unfolding cut_from
cut_fragments = refl

reaches : (o : OutgoingCommand) → Among o fragments → Reaches o arrivals
reaches o (inl e) = inr (inr (inr (inl e)))
reaches o (inr (inl e)) = inr (inl e)
reaches o (inr (inr (inl e))) = inl e
reaches o (inr (inr (inr f))) = absurd f

cut_from-received_example :
    ((received bytes unused arrivals started).fragments_remaining ≡ 0)
    × ((received bytes unused arrivals started).packet.contents ≡ bytes)
cut_from-received_example =
    cut_from-received five bytes unused 2 fragments arrivals started refl (omega arith)
      (omega arith) (omega arith) counted (omega arith) cut_fragments
      (inr (inr (inl refl)), (inr (inl refl), (inr (inl refl), (inl refl, tt)))) reaches refl refl

received_bytes : (received bytes unused arrivals started).packet.contents ≡ bytes
unfolding add_all add_fragment copy_fragment fragment_size write_at fragment fragment_body
    new_incoming
received_bytes = refl

cut_from_lem_example :
    (l : List OutgoingCommand) × (cut_from 6 five 2 0 0 ≡ some l)
    × Covers five 2 0 0 l
    × (length l ≡ 3)
cut_from_lem_example = cut_from_lem five 2 counted (omega arith) (omega arith) (omega arith)

send-ends_example : send 0 7 (packet 1) quiet ≢ out_of_fuel
send-ends_example = send-ends 0 7 (packet 1) quiet (omega arith) (omega arith) (omega arith)

covers : Covers five 2 0 0 fragments
unfolding fragment
covers = (
  (refl, refl),
  omega arith,
  omega arith,
  inl refl,
  (
    (refl, refl),
    omega arith,
    omega arith,
    inl refl,
    ((refl, refl), omega arith, omega arith, inr refl, refl),
  ),
)

abbrev arrived : List Piece
arrived = pieces bytes unused arrivals

arrived-AllFragments : AllFragments bytes 2 3 arrived
arrived-AllFragments =
    pieces-AllFragments five bytes unused 2 fragments refl (omega arith) covers refl arrivals
      (inr (inr (inl refl)), (inr (inl refl), (inr (inl refl), (inl refl, tt))))

arrives : (n : ℕ) → n < 3 → Arrives n arrived
unfolding fragment fragment_body
arrives zero p = inr (inr (inr (inl refl)))
arrives (suc zero) p = inr (inl refl)
arrives (suc (suc zero)) p = inl refl
arrives (suc (suc (suc n))) p = absurd (omega arith)

add_all_complete_example : (add_all arrived (new_incoming 0 started)).fragments_remaining ≡ 0
add_all_complete_example =
    add_all_complete bytes 2 3 (omega arith) (omega arith) started refl refl arrived
      arrived-AllFragments arrives

-- The command for the whole packet at the other end, whose first fragment had the number 65535.
abbrev joined : IncomingCommand
joined = let i = incoming 65535 in record i { fragment_count = 3 }

setup_all-last_sequence_number_example :
    Reliable 0 (last_sequence_number joined) (setup_all fragments quiet).peer
setup_all-last_sequence_number_example =
    setup_all-last_sequence_number five 2 65534 fragments quiet joined (λ e. absurd (ground arith))
      refl covers (omega arith) (omega arith) (omega arith) (channel, refl, refl) refl refl
