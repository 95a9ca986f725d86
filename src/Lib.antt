-- ===== src/Lib.antt =====
-- The transport protocol of reference-implementation/: a sender reads a file in chunks, sends each
-- chunk as a data packet over UDP and keeps it in a ring buffer until it is acknowledged; a receiver
-- puts the packets back in order, writes their payloads to a file and answers with ACKs and NACKs.
-- Sequence numbers are one byte, windows are at most 31 packets.
--
-- The files, and the C code of reference-implementation/src that they model:
--   Packet (common/packet_interface.h, common/packet_implem.c). Layout has `struct pkt` as a memory
--   of bytes, with the fields by their offsets; Codec has `pkt_decode`, `pkt_encode` and their
--   in-place versions, in the source's steps; Access has the getters and setters, Describe the texts
--   for the log. The children of
--   Codec describe the datagrams (Wire), what is decoded (Fields), what is encoded (Encode) and
--   how the two fit (Transfer, RoundTrip).
--   Pktbuf (common/pktbuf.h, common/pktbuf.c) has the ring buffer of packets, with counters that
--   wrap at 2 ^ 32. Inv has its invariant, Create, Queue, Reserve and Slotfor its operations.
--   Net (common/net.h, common/net.c) has receiving, the window test, sending, the wait for the first
--   packet (Connect) and the search for an address (Open).
--   Sender (sender/transmit.c) has the static variables as a record and a function for each handler;
--   Sender/Transmit has the loop of `transmit`. Inv has the invariant that ties the buffer to the
--   variables; Ack, Send, Resend, Nack, Input and Events are about the handlers. Stream has the
--   sender as the stream of packets that it makes of a file, and Rounds the rounds of the loop: one
--   by one (Ready, Timeout), any number of them (Runs), from the start to the end (Complete), and
--   without an answer (Silence).
--   Receiver (receiver/receive.c) has the same for the receiver, Receiver/Loop the loop of `receive`.
--   Inv has the invariant on the mask and the buffer, Holds what the places of the buffer hold; Store
--   and Receive are about storing a packet, Empty about writing the packets in sequence, Skip about a
--   packet that comes while others wait to be written. Deliver has the receiver as the stream of the
--   chunks that it writes, and Rounds the rounds of the loop and what comes before it (First,
--   Start).
--   Receiver/Replies is about the ACKs and NACKs that it sends, Linger about the last of them.
--   Transfer gives the receiver what a network makes of the sender's packets; Cut is about a file of
--   which the sender has read a part, Arrives about a packet that the receiver waits for.
--   System runs `transmit`, `receive` and the network together. A state has the two calls and the
--   history of the run: the chunks read and their packets, the chunks written, and the datagrams that
--   the receiver has sent. A step is a round of the sender, the start of the receiver, a round of it, or
--   an acknowledgement after its loop, in any order; `poll` may answer anything, and a datagram from
--   the other side may come late, twice or never, or come spoiled. Inv is the invariant, Sends and
--   Receives are about the steps, Safety and Progress about what the reachable states have in common.
--   Programs (sender/main.c, receiver/main.c) has the options and what `main` holds and returns; its
--   parts are the modelled ones, `pktbuf_new`, `net_open_socket`, `transmit` and `receive`.
--   Prelude has memory, bits, tests and the ways in which a C function ends.
--
-- A function that changes state takes it and returns it; a pointer to a packet of the buffer is the
-- number of its slot, so that what is written through one pointer is seen through the other. What
-- the system answers (recvfrom, read, write, poll, calloc, getaddrinfo) is an argument, and what is
-- sent on the socket, or accepted by a write to the output, is kept as a trace. zlib's crc32 is a
-- parameter about which nothing is supposed.
--
-- Loops: `window_size`, `do_empty_rbuf` and `popcount` have fuel for the 32 bits that they shift
-- out; the loop of `pktbuf_slotfor_seq` adds a slot in every round, so one more than the offset is
-- enough; the loops over one-byte sequence numbers come round in 256 steps. Where a loop of the
-- source may not end, the caller gives the fuel.
--
-- A file is a function from numbers to chunks; the end of the file is a chunk of no bytes. What is
-- stated of a whole transfer supposes that the output never blocks, and that no datagram is read
-- while a packet in sequence waits to be written: Skip shows what happens else. The numbers of the
-- packets wrap around at 256, so the network may not hold a packet back until 225 later chunks have
-- been written, nor a reply until the sender has read 256 chunks more than were written when it was
-- sent. System follows runs in which neither call gives up or ends by an error; a call that does ends
-- there, and what holds of it up to then is in Rounds.
--
-- Not modelled: the assertions of the debug build, the logging, pkt_del and the text of usage, which
-- only print or free memory; the tests, and the macro foreach_pktbuf,
-- which nothing uses. The host is little-endian, and bit-fields take the low bits of a byte first.
pub mod Prelude
pub mod Packet
pub mod Pktbuf
pub mod Net
pub mod Sender
pub mod Receiver
pub mod Transfer
pub mod System
pub mod Programs
