-- ===== src/Lib.antt =====
-- A verification library for raknet_shim, a program that sits between a client that speaks RakNet 3.25
-- over UDP and a server that speaks TCP and UDP.
--
-- Files and what they model (paths from the repository's root):
--
-- Packet: the abstract packets of `src/bridge.rs`, which every connection takes and returns.
-- Log: `src/log.rs`, the names of packets.
-- Strings: `src/string.rs`, the fixed strings in the game's packets; the UTF-8 test of the standard
--   library (`Utf8`) and the writer (`Write`) are parameters.
-- Raknet/Comp: `src/raknet/comp.rs`, the compressed integers of the RakNet format.
-- Raknet/RangeList: `src/raknet/rangelist.rs`, the set of message numbers to acknowledge.
-- Raknet/Packet: `src/raknet/packet.rs`, RakNet packets and their bits.
-- Raknet/Recv: `src/raknet/recv.rs`, split packets, ordering and sequencing on the receiving side.
-- Raknet/Send: `src/raknet/send.rs`, numbering and splitting on the sending side, and the datagrams.
-- Raknet/Connection: `src/raknet/connection.rs`, and `parse_packets` of `src/raknet/recv.rs`: the
--   header of a datagram, the packets in it, and the connection's state.
-- Raknet/Transfer: the two sides together, `process_outgoing_packets` and `process_incoming_packets`,
--   and the acknowledgements that go back.
-- TcpUdp: `src/tcpudp/mod.rs`, the framing over TCP and the sequence numbers over UDP; the sockets are
--   the interfaces `Tcp` and `Udp`, and a result of a read is a value (`ReadResult`). TcpUdp/Connect
--   has `Connection::new`, over the calls that open the two sockets (`Network`), and TcpUdp/Tls
--   `src/tcpudp/tls.rs`, whose calls of rustls, webpki and the standard library are the interface `Rustls`.
-- Bridge: `Bridge` of `src/bridge.rs`, and the fields and the constructor of `Shim` of `src/main.rs`, which
--   it calls. Bridge/Receive has the calls that receive. Socket addresses, name resolution, UDP sockets
--   and what opens sockets are the interfaces `SocketAddrs`, `UdpSocket` and `Sockets`, and the reads and
--   writes of a port `Shorts`; the operating system is a state `O` that is passed on (`Io`).
-- Shim: `src/main.rs`, the shim's calls, and in Shim/Main the main loop, round by round.
-- Bits: the bit streams of the crates `endio` and `endio_bit`, which are not part of the repository:
--   operations as an interface (`BitWrite`, `BitRead`), and what the code relies on as records of laws
--   (`BitWriteLaws`, `BitReadLaws`). Bits/Model is a bit stream that keeps all the laws.
--   Bits/Consume has how many bits a reader takes off any input.
-- Prelude: shared names, lists and maps over the native numbers, words, and the outcome of a call;
--   Prelude/Newest has the sequence numbers that both connections count with.
--
-- How the model corresponds to the code. A Rust function is a function by clauses, with the state that
-- it changes as an argument and a result; a loop over a collection is a recursion on a list. `Result` is
-- `Outcome`: `ok`, `err` with the error's kind, and `panic` for a failed assertion or an index out of
-- bounds; `?` is `>>=`. A `u32` is a number below 2 ^ 32, with the wrap-around of `wrapping_add` and
-- `wrapping_sub` written out; arithmetic that a debug build checks for overflow wraps, as in a release
-- build. A `HashMap` is an association list. The field `data` of the packets is called `bytes`.
--
-- Bounds and fuel. The loop that releases queued packets (`drain`) has as many rounds as the queue
-- has entries, and each round takes an entry out. `parse_loop` has one round more than the
-- datagram has bytes, and a packet takes four bytes at least; it would be `stuck` if they ran out
-- (Raknet/Connection/Ends). `fill` has as many rounds as its buffer has bytes. `receive_tcp` needs
-- one round more than the stream has bytes to give, and `receive_udp` one more than there are datagrams
-- (TcpUdp/Receive); the caller passes the fuel, up to `step`
-- and `rounds`, which count the main loop's rounds too; the loop of `raknet_receive` on the shim
-- takes a datagram from the socket in each round. The inner loop of the TLS handshake has a
-- round for each call of `complete_io` that must wait, and one more; the outer one needs two. `chunks` has as many rounds as there are bytes.
--
-- Not modelled: sockets, name resolution and the TLS protocol, which are the standard library's and
-- other crates'; logging (`println!`, with the names that are printed); sleeping;
-- capacities of vectors; what is dropped when a panic ends the program. A read of a socket gives what it wrote to the buffer; what becomes of a UDP
-- datagram that is longer than `BUF` is left to the socket. After an error of a TcpUdp connection its state is not followed, since
-- its bridge is dropped with it.
pub mod Prelude
pub mod Bits
pub mod Packet
pub mod Log
pub mod Strings
pub mod Raknet
pub mod TcpUdp
pub mod Bridge
pub mod Shim
