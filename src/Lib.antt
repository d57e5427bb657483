-- ===== src/Lib.antt =====
-- rusty_enet is a translation of the ENet networking library: reliable, ordered and unordered
-- packets over datagrams. A host (src/c/host.rs) has a fixed number of peers (src/c/peer.rs),
-- each of which runs a state machine of connection and disconnection, a throttle, and a number
-- of channels with sequence numbers of their own. src/c/protocol.rs turns datagrams into
-- commands for the peers and the peers' queued commands into datagrams.
--
-- The program's parts and the files that model them:
--
-- - Base: the shared names; Boolean tests, lists over the native numbers, and the wrapping
--   arithmetic of the source's words (`wrapping_add` on u16 is add16, and so on).
-- - Protocol: the commands of src/c/protocol.rs (`ENetProtocol`), one constructor for each
--   struct of the union. The two flag bits of a command's first byte are Booleans of Command. A
--   field is its number; its bytes are in Wire.
-- - Packet: src/c/packet.rs, and the packets in memory by address, with their reference counts.
--   Packet.Kind is the wrapper of src/packet.rs.
-- - Peer: the structs of src/c.rs, src/c/peer.rs, src/c/host.rs and src/c/event.rs. The fields
--   of `ENetPeer` stand in seven groups, which are opened. A function of the source that takes a
--   peer works on a Context: the host, that peer, and the event to be filled in. The other peers
--   of the host are not part of this state; what they add to the host's counts is a parameter of
--   the theorems, which Network fills. A handler of a command returns an Outcome: accepted for
--   0, rejected for -1.
-- - Outgoing: `enet_peer_setup_outgoing_command` and `enet_peer_queue_outgoing_command` of
--   src/c/peer.rs.
-- - Connection: the life of a connection: `enet_peer_on_connect`, `_on_disconnect`, `_reset`,
--   `_reset_queues`, `_disconnect`, `_disconnect_now`, `_disconnect_later`, `_ping`, `_timeout`
--   of src/c/peer.rs, and `enet_protocol_change_state`, `_dispatch_state`, `_notify_connect`,
--   `_notify_disconnect`, `_handle_disconnect` of src/c/protocol.rs. `enet_host_flush`, which
--   sends all that is queued through the socket, is the parameter `flush`.
-- - Limits: the bounds on bandwidth, window size, mtu and channels, and the handlers of the
--   bandwidth limit, throttle and ping commands.
-- - Window: the windows of reliable sequence numbers, and `enet_peer_queue_acknowledgement`.
-- - Incoming: `enet_peer_queue_incoming_command`, the two functions that dispatch commands, and
--   `enet_peer_receive` of src/c/peer.rs. An intrusive list is a List, and the command that a
--   call has just queued is known by its address. The goto-like blocks of the source are
--   results: a command is queued, ignored (the dummy command) or failed (null).
-- - Send: `enet_peer_send` of src/c/peer.rs.
-- - Receive: the handlers of the commands that carry packets, `enet_protocol_handle_send_*` of
--   src/c/protocol.rs. The bytes behind a command in its datagram are a List, which stands for
--   the pointers into the received data.
-- - Acknowledge: `enet_protocol_handle_acknowledge` and what it calls.
-- - Handshake: the answer to a connection request, `enet_protocol_handle_verify_connect` of
--   src/c/protocol.rs.
-- - Timeout: reliable commands that are not acknowledged in time, `enet_protocol_check_timeouts`
--   of src/c/protocol.rs.
-- - Network: a host with all its peers (`ENetHost` with the array `peers`), and how a connection
--   begins: `enet_host_connect` and `enet_host_random` of src/c/host.rs,
--   `enet_protocol_handle_connect` of src/c/protocol.rs. The trait Address of src/address.rs,
--   whose types come from outside, is the parameter `addresses`; an address that is unwrapped
--   without being set, which panics, makes a reply `failed`. Network.Creating is `Host::new` of
--   src/host.rs with `enet_host_create` of src/c/host.rs, Network.Answering the request that
--   arrives, Network.Dispatching `enet_protocol_dispatch_incoming_commands` and
--   `enet_host_check_events` of src/c/protocol.rs, and Network.Steps the step relation of a
--   host.
-- - Datagram: the datagram that a host fills for a peer, as a list of commands with parts of
--   packets: `enet_protocol_send_acknowledgements`, `enet_protocol_check_outgoing_commands`
--   (Datagram.Choosing, Datagram.Filling) and `enet_protocol_remove_sent_unreliable_commands` of
--   src/c/protocol.rs. The loop's `continue`s and jumps are the constructors of Visit.
--   Datagram.Rounds is the induction over its rounds, Datagram.Moves what one of them does.
-- - Wire: the bytes of commands and of the header of a datagram, the packed structs of
--   src/c/protocol.rs. A datagram is the List of its bytes. What the source reads and writes
--   through pointers is at offsets (Wire.Decoding, Wire.Header). `connect_id` is copied in the
--   byte order of the machine, here little-endian.
-- - Inbound: a datagram that arrives, `enet_protocol_handle_incoming_commands` of
--   src/c/protocol.rs: the header, the tests on the sender, the compressor and the checksum up
--   to the payload, and in Inbound.Commands the loop over the commands with all their handlers.
--   The returns and panics of the source are the constructors of Sender, Unpacking, Handled and
--   Receipt; `stuck` also stands for a slice of a wrapped-around length. The allocator's answers
--   are the parameter Allocator.
-- - Outbound: a datagram that leaves, `enet_protocol_send_outgoing_commands` of
--   src/c/protocol.rs: its bytes, and in Outbound.Sending the loops over the peers, with what
--   was handed to the socket as a list.
-- - Servicing: `enet_host_service`, `enet_host_flush` and
--   `enet_protocol_receive_incoming_commands` of src/c/protocol.rs. The application's callbacks
--   (Compressor of src/compressor.rs, the checksum) and the socket (src/socket.rs) are
--   parameters, functions of the number of datagrams sent or part of each answer of the socket,
--   since they may change from one call to the next.
-- - Throttling: how a host shares its bandwidth, `enet_host_bandwidth_throttle` of
--   src/c/host.rs, on the list of its peers.
-- - Connected: hosts on connections in place of sockets, src/connected.rs: the states of a peer
--   and what the application does with it, in Connected.Adding `add_connection`, in
--   Connected.Telling `handle_event` and `check_events`, and in Connected.Shuttling `service`,
--   its two loops and all. The host below, `Host` of src/host.rs over a ReadWrite of
--   src/read_write.rs, is the parameter Inner, a record of what is called of it, and the trait
--   Connection is one of what its implementations do. A pointer to a peer of the host below is
--   that peer's index. The peers are taken through Connected.Lasting by a relation of the
--   application's steps.
-- - Tests: the theorems and some functions at concrete inputs.
--
-- Under a component stand the modules with its theorems, named for what they are about, and the
-- rest of its definitions where it is large: Connection.Ending (disconnecting and control
-- commands), Incoming.Arriving (`enet_peer_queue_incoming_command` and `enet_peer_receive`),
-- Receive.Fragment and Acknowledge.Removing.
--
-- Numbers are natural numbers, with the wrap of the source's words written out; usize has 64
-- bits. Five functions need fuel: the loop that cuts a packet into fragments gets one round more
-- than the packet has bytes, which is enough since no fragment is empty, the loop over a peer's
-- two queues gets one round more than they have commands, the two loops that share the bandwidth
-- get one round more than there are peers, and the loop over the commands of a datagram gets as
-- many rounds as there are bytes, each of which takes four at least. The number of passes over
-- the peers of one sending and that of the packets that a host on connections passes on in one
-- service are arguments, and what is stated of them holds for any number. All other loops go
-- down a list.
--
-- Not modelled: the range coder of src/c/compress.rs and the checksum of src/crc32.rs, which the
-- host calls through parameters, memory allocation, sockets, clocks, the host's totals of bytes
-- and datagrams, the safe wrappers over these functions, and of src/connected.rs the methods
-- that only pass on to the host below. Allocation is taken to succeed, and a null event pointer
-- is `none`.
pub mod Base
pub mod Protocol
pub mod Packet
pub mod Peer
pub mod Outgoing
pub mod Connection
pub mod Limits
pub mod Window
pub mod Incoming
pub mod Send
pub mod Receive
pub mod Acknowledge
pub mod Handshake
pub mod Timeout
pub mod Network
pub mod Datagram
pub mod Throttling
pub mod Wire
pub mod Inbound
pub mod Outbound
pub mod Servicing
pub mod Connected
pub mod Tests
