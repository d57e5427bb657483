-- ===== src/Outbound/Reading.antt =====
-- The receiver handles the commands that the sender wrote: the buffers of
-- `enet_protocol_send_outgoing_commands` against the loop of `enet_protocol_handle_incoming_commands`
-- in src/c/protocol.rs.
use rusty_enet.Base.{
  ℕ, zero, suc, ◌+◌, ◌≤◌, ◌≡◌, refl, sym, ap, ◌∙◌, List, [], ◌∷◌, ◌++◌, append-nil, append_assoc,
  Option, none, some, arith, length, length-append, drop,
}
use rusty_enet.Protocol.{Command, Body}
use rusty_enet.Packet.{Packets}
use rusty_enet.Peer.{Context}
use rusty_enet.Network.{Addresses}
use rusty_enet.Datagram.{Part, Entry}
use rusty_enet.Wire.{encode_connect, encode_fragment, encode_body, encode_command}
use rusty_enet.Wire.Decoding.{decode_command}
use rusty_enet.Wire.RoundTrip.{
  CommandFits, decode_command-encode_command, length-encode_command, encode_command-header,
}
use rusty_enet.Wire.Header.{Header}
use rusty_enet.Inbound.Commands.{
  Allocator, carried_length, Reading, Handled, goes_on, ends, panics, handle_command,
  handle_commands,
}
use rusty_enet.Inbound.Termination.{handle_commands-nil}
use rusty_enet.Outbound.{part_bytes, entry_buffers, all_buffers, conglomerate}

-- What an entry carries, and the bytes of a whole datagram behind its header.
abbrev pub entry_data : Packets → Option Part → List ℕ
entry_data m none = []
entry_data m (some a) = part_bytes m a

unfoldable pub entries_bytes : Packets → List Entry → List ℕ
entries_bytes m [] = []
entries_bytes m (e ∷ l) = encode_command e.command (entry_data m e.part ++ entries_bytes m l)

-- The command fits the wire and has the length of what it carries.
pub record IsFramed (m : Packets) (e : Entry) : Type 0 where
  pub fits : CommandFits e.command
  pub carries : length (entry_data m e.part) ≡ carried_length e.command.body

abbrev pub AreFramed : Packets → List Entry → Type 0
AreFramed m [] = Unit
AreFramed m (e ∷ l) = IsFramed m e × AreFramed m l

conglomerate-append :
    (k l : List (List ℕ)) → conglomerate (k ++ l) ≡ conglomerate k ++ conglomerate l
unfolding conglomerate
conglomerate-append [] l = refl
conglomerate-append (b ∷ k) l =
    ap (λ r. b ++ r) (conglomerate-append k l)
    ∙ sym (append_assoc b (conglomerate k) (conglomerate l))

encode_body-append : (k : Body) (l : List ℕ) → encode_body k l ≡ encode_body k [] ++ l
unfolding encode_body encode_connect encode_fragment
encode_body-append k l = ground arith

encode_command-append : (k : Command) (l : List ℕ) → encode_command k l ≡ encode_command k [] ++ l
unfolding encode_command
encode_command-append k l = ground (arith, encode_body-append k.body l)

entry_buffers-bytes :
    (m : Packets) (e : Entry)
    → conglomerate (entry_buffers m e) ≡ encode_command e.command [] ++ entry_data m e.part
unfolding entry_buffers conglomerate
entry_buffers-bytes m e = ground (arith, append-nil (entry_data m e.part))

-- The buffers of the sender, one behind the other.
pub conglomerate-all_buffers :
    (m : Packets) (l : List Entry) → conglomerate (all_buffers m l) ≡ entries_bytes m l
unfolding all_buffers entries_bytes conglomerate
conglomerate-all_buffers m [] = refl
conglomerate-all_buffers m (e ∷ l) = ground (
  arith,
  conglomerate-append (entry_buffers m e) (all_buffers m l),
  entry_buffers-bytes m e,
  conglomerate-all_buffers m l,
  encode_command-append e.command (entry_data m e.part ++ entries_bytes m l),
  append_assoc (encode_command e.command []) (entry_data m e.part) (entries_bytes m l),
)

drop-append : (a b : List ℕ) (n : ℕ) → length a ≡ n → drop n (a ++ b) ≡ b
drop-append [] b zero e = refl
drop-append [] b (suc n) e = absurd (omega arith)
drop-append (x ∷ a) b zero e = absurd (omega arith)
drop-append (x ∷ a) b (suc n) e = drop-append a b n (omega arith)

longer_than :
    {n : ℕ} (k : Command) (l : List ℕ) → length (encode_command k l) ≤ n → length l + 4 ≤ n
longer_than k l h = omega (arith, length-encode_command k l, encode_command-header k)

module _ {A : Type 0} (addresses : Addresses A) (flush : Context → Context)
    (allocator : Allocator) where
  -- The same commands one after the other, each with what it carries and the bytes behind that.
  unfoldable pub handle_entries : Packets → Header → List Entry → Reading A → Option (Reading A)
  unfolding entries_bytes
  handle_entries m h [] s = some s
  handle_entries m h (e ∷ l) s =
      elim (handle_command addresses flush allocator h e.command
        (entry_data m e.part ++ entries_bytes m l) s) [
          | panics ↦ none
          | ends t ↦ some t
          | goes_on t ↦ handle_entries m h l t
        ]

  abbrev loop : (fuel : ℕ) → Header → List ℕ → Reading A → Option (Reading A)
  loop = handle_commands addresses flush allocator

  -- One round of the loop, where the command is known.
  round :
      (fuel : ℕ) (h : Header) (l rest : List ℕ) (k : Command) (s : Reading A)
      → decode_command l ≡ some (k, rest)
      → loop (suc fuel) h l s
        ≡ elim (handle_command addresses flush allocator h k rest s) as (λ x. Option (Reading A)) [
          | panics ↦ none
          | ends t ↦ some t
          | goes_on t ↦ loop fuel h (drop (carried_length k.body) rest) t
        ]
  unfolding handle_commands
  round fuel h l rest k s e =
      ap
        (λ o. elim o as (λ x. Option (Reading A)) [
          | none ↦ some s
          | some r ↦ elim (handle_command addresses flush allocator h r.0 r.1 s) [
            | panics ↦ none
            | ends t ↦ some t
            | goes_on t ↦
                handle_commands addresses flush allocator fuel h
                  (drop (carried_length r.0.body) r.1) t
          ]
        ])
        e

  next_entries :
      (fuel : ℕ) (m : Packets) (h : Header) (e : Entry) (l : List Entry) (x : Handled A)
      → IsFramed m e
      → ((t : Reading A) → loop fuel h (entries_bytes m l) t ≡ handle_entries m h l t)
      → elim x as (λ y. Option (Reading A)) [
        | panics ↦ none
        | ends t ↦ some t
        | goes_on t ↦
            loop fuel h
              (drop (carried_length e.command.body) (entry_data m e.part ++ entries_bytes m l))
              t
      ]
        ≡ elim x as (λ y. Option (Reading A)) [
          | panics ↦ none
          | ends t ↦ some t
          | goes_on t ↦ handle_entries m h l t
        ]
  next_entries fuel m h e l (goes_on t) f r =
      ap (λ b. loop fuel h b t)
        (drop-append (entry_data m e.part) (entries_bytes m l) (carried_length e.command.body)
          f.carries)
      ∙ r t
  next_entries fuel m h e l (ends t) f r = refl
  next_entries fuel m h e l panics f r = refl

  -- The loop of a receiver, on the bytes that a sender writes for a list of commands, handles
  -- these very commands in their order, each with the bytes of its packet, up to the first that is
  -- rejected, and nothing else; where each command's fields have the widths of the wire and its
  -- length field is that of its packet's part.
  pub handle_commands-entries_bytes :
      (fuel : ℕ) (m : Packets) (h : Header) (l : List Entry) (s : Reading A)
      → AreFramed m l
      → length (entries_bytes m l) ≤ fuel
      → handle_commands addresses flush allocator fuel h (entries_bytes m l) s
        ≡ handle_entries m h l s
  unfolding entries_bytes handle_entries
  handle_commands-entries_bytes fuel m h [] s f n =
      handle_commands-nil addresses flush allocator fuel h s
  handle_commands-entries_bytes zero m h (e ∷ l) s f n =
      let rest = entry_data m e.part ++ entries_bytes m l in
      let longer : length rest + 4 ≤ 0 = longer_than e.command rest n in absurd (omega arith)
  handle_commands-entries_bytes (suc fuel) m h (e ∷ l) s (f, g) n =
      let rest = entry_data m e.part ++ entries_bytes m l in
      let longer : length rest + 4 ≤ suc fuel = longer_than e.command rest n in
      let whole = length-append (entry_data m e.part) (entries_bytes m l) in
      round fuel h (encode_command e.command rest) rest e.command s
        (decode_command-encode_command e.command rest f.fits)
      ∙ next_entries fuel m h e l (handle_command addresses flush allocator h e.command rest s) f
          (λ t. handle_commands-entries_bytes fuel m h l t g (omega (arith, longer, whole)))
