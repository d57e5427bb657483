-- ===== src/Window.antt =====
-- The windows of reliable sequence numbers, sixteen of 4096 numbers each, that decide which commands
-- a channel takes and acknowledges: code that src/c/peer.rs and src/c/protocol.rs repeat, and
-- `enet_peer_queue_acknowledgement`.
pub mod Order
use rusty_enet.Base.{
  ℕ, ◌+◌, ◌/◌, Bool, ◌&&◌, not, ltb, leb, if◌then◌else◌, Option, none, some, [], ◌∷◌, ◌++◌, u32,
  get_elem?,
}
use rusty_enet.Protocol.{Command}
use rusty_enet.Peer.{Peer, Acknowledgement, Channel}

-- The window of a sequence number, counted past the end if it lies behind the current number.
unfoldable pub reliable_window : (current sequence : ℕ) → ℕ
reliable_window current sequence =
    if ltb sequence current then sequence / 4096 + 16 else sequence / 4096

-- The test by which a command is taken: in the current window or one of the six after it.
unfoldable pub in_window : (current sequence : ℕ) → Bool
unfolding reliable_window
in_window current sequence =
    leb (current / 4096) (reliable_window current sequence)
    && ltb (reliable_window current sequence) (current / 4096 + 7)

-- The test by which an acknowledgement is withheld: in the two windows after those.
unfoldable pub in_gap : (current sequence : ℕ) → Bool
unfolding reliable_window
in_gap current sequence =
    leb (current / 4096 + 7) (reliable_window current sequence)
    && leb (reliable_window current sequence) (current / 4096 + 8)

-- Whether `enet_peer_queue_acknowledgement` returns null. There is no window for channel 0xff and
-- others that do not exist.
unfoldable pub withholds : Option Channel → Command → Bool
unfolding in_gap
withholds none c = Bool.false
withholds (some ch) c = in_gap ch.incoming_reliable_sequence_number c.reliable_sequence_number

abbrev pub channel? : Peer → ℕ → Option Channel
channel? p i = if ltb i p.channel_count then get_elem? p.channels i else none

-- `enet_peer_queue_acknowledgement`.
unfoldable pub queue_acknowledgement : Command → (sent_time : ℕ) → Peer → Peer
unfolding withholds
queue_acknowledgement c sent_time p =
    if withholds (channel? p c.channel_id) c then p else record p {
      traffic = record p.traffic { outgoing_data_total = u32 (p.outgoing_data_total + 8) };
      queues = record p.queues {
        acknowledgements =
            p.acknowledgements ++ (record { sent_time = sent_time; command = c } ∷ []);
      };
    }
