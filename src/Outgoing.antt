-- ===== src/Outgoing.antt =====
-- Queueing commands for a peer and cutting a packet into fragments: `enet_peer_setup_outgoing_command`,
-- `enet_peer_queue_outgoing_command` and `enet_peer_send` of src/c/peer.rs.
pub mod Frame
use rusty_enet.Base.{
  ℕ, Bool, true, false, ◌&&◌, ◌⊎◌, ◌≡◌, List, [], ◌∷◌, ◌++◌, Option, none, some, ◌==◌,
  if◌then◌else◌, add16, add32, add_size, u32, get_elem?, set,
}
use rusty_enet.Protocol.{Command, Body, command_size, send_unreliable, send_unsequenced}
use rusty_enet.Packet.{retain}
use rusty_enet.Peer.{OutgoingCommand, Channel, Peer, Host, Context}

-- The sequence numbers that a command is given, with the state that hands them out.
pub record Numbered (S : Type 0) : Type 0 where
  pub source : S
  pub reliable : ℕ
  pub unreliable : ℕ

-- Channel 0xff: the reliable numbers of the peer itself.
unfoldable pub number_peer : Peer → Numbered Peer
number_peer p = record {
  source = record p {
    flow = record p.flow {
      outgoing_reliable_sequence_number = add16 p.outgoing_reliable_sequence_number 1;
    };
  };
  reliable = add16 p.outgoing_reliable_sequence_number 1;
  unreliable = 0;
}

-- A reliable command on a channel.
unfoldable pub number_reliable : Channel → Numbered Channel
number_reliable c = record {
  source = record c {
    outgoing_reliable_sequence_number = add16 c.outgoing_reliable_sequence_number 1;
    outgoing_unreliable_sequence_number = 0;
  };
  reliable = add16 c.outgoing_reliable_sequence_number 1;
  unreliable = 0;
}

-- An unreliable command on a channel. The fragments of one packet share a number: only the first,
-- at offset 0, takes a new one.
unfoldable pub number_unreliable : ℕ → Channel → Numbered Channel
number_unreliable fragment_offset c =
    let n =
      if fragment_offset == 0
      then add16 c.outgoing_unreliable_sequence_number 1
      else c.outgoing_unreliable_sequence_number in
    record {
      source = record c { outgoing_unreliable_sequence_number = n };
      reliable = c.outgoing_reliable_sequence_number;
      unreliable = n;
    }

unfoldable pub with_channel : ℕ → Channel → Peer → Peer
with_channel i c p = record p { queues = record p.queues { channels = set p.channels i c } }

abbrev on_channel : ℕ → Peer → (Channel → Numbered Channel) → Numbered Peer
on_channel i p f = elim (get_elem? p.channels i) [
  | none ↦ record { source = p; reliable = 0; unreliable = 0 }
  | some c ↦
      let r = f c in
      record {
        source = with_channel i r.source p;
        reliable = r.reliable;
        unreliable = r.unreliable;
      }
]

-- The channel is read without a check of the index: a command on a channel that does not exist is
-- undefined behaviour in the source, which every caller rules out. It gets number 0 here.
unfoldable pub number_command : Peer → OutgoingCommand → Numbered Peer
unfolding number_peer number_reliable number_unreliable with_channel
number_command p c =
    if c.command.channel_id == 0xff
    then number_peer p
    else if c.command.flag_acknowledge
    then on_channel c.command.channel_id p number_reliable
    else if c.command.flag_unsequenced
    then record {
      source = record p {
        flow = record p.flow { outgoing_unsequenced_group = add16 p.outgoing_unsequenced_group 1 };
      };
      reliable = 0;
      unreliable = 0;
    }
    else on_channel c.command.channel_id p (number_unreliable c.fragment_offset)

-- The sequence number that two kinds of command repeat in their body.
unfoldable pub stamp : (unreliable unsequenced_group : ℕ) → Body → Body
stamp u g (send_unreliable _ n) = send_unreliable u n
stamp u g (send_unsequenced _ n) = send_unsequenced g n
stamp u g b = b

abbrev pub has_packet : OutgoingCommand → Bool
has_packet c = elim c.packet [ none ↦ false | some _ ↦ true ]

-- A command stands in a queue.
abbrev pub Among : OutgoingCommand → List OutgoingCommand → Type 0
Among o [] = ⊥
Among o (x ∷ l) = (x ≡ o) ⊎ Among o l

-- The end of one of the two queues: reliable commands that carry a packet have their own.
unfoldable pub enqueue : OutgoingCommand → Peer → Peer
enqueue c p =
    if c.command.flag_acknowledge && has_packet c
    then record p {
      queues = record p.queues {
        outgoing_send_reliable_commands = p.outgoing_send_reliable_commands ++ (c ∷ []);
      };
    }
    else record p {
      queues = record p.queues { outgoing_commands = p.outgoing_commands ++ (c ∷ []) };
    }

abbrev pub account : OutgoingCommand → Peer → Peer
account c p = record p {
  traffic = record p.traffic {
    outgoing_data_total =
        u32 (
          add_size p.outgoing_data_total
            (add_size (command_size c.command.body) c.fragment_length));
  };
}

-- The command as it is queued: numbered, stamped and never sent.
unfoldable pub prepare : ℕ → Numbered Peer → OutgoingCommand → OutgoingCommand
unfolding stamp
prepare queue_time n c = record c {
  reliable_sequence_number = n.reliable;
  unreliable_sequence_number = n.unreliable;
  send_attempts = 0;
  sent_time = 0;
  round_trip_timeout = 0;
  queue_time = queue_time;
  command = record c.command {
    reliable_sequence_number = n.reliable;
    body = stamp n.unreliable n.source.outgoing_unsequenced_group c.command.body;
  };
}

unfoldable pub setup_outgoing_command : Context → OutgoingCommand → Context
setup_outgoing_command s c =
    let n = number_command (account c s.peer) c in
    let queue_time = add32 s.host.total_queued 1 in
    record s {
      host = record s.host { total_queued = queue_time };
      peer = enqueue (prepare queue_time n c) n.source;
    }

-- A new command before its set-up. The source leaves the fields that set-up writes uninitialised.
abbrev pub new_command : Command → Option ℕ → (offset length : ℕ) → OutgoingCommand
new_command command packet offset length = record {
  reliable_sequence_number = 0;
  unreliable_sequence_number = 0;
  sent_time = 0;
  round_trip_timeout = 0;
  queue_time = 0;
  fragment_offset = offset;
  fragment_length = length;
  send_attempts = 0;
  command = command;
  packet = packet;
}

abbrev pub retain_packet : Option ℕ → ℕ → Host → Host
retain_packet none n h = h
retain_packet (some a) n h = record h { packets = retain a n h.packets }

unfoldable pub queue_outgoing_command : Context → Command → Option ℕ → ℕ → ℕ → Context
queue_outgoing_command s command packet offset length =
    setup_outgoing_command (record s { host = retain_packet packet 1 s.host })
      (new_command command packet offset length)
