-- ===== src/Lib.antt =====
-- A model of the SOCKS5 proxy in src/: the byte buffer, the parsers of the three SOCKS5 messages,
-- the connection of a SOCKS5 client from its acceptance to its end, the table of users, the
-- configuration, the metrics, the server of the management protocol and its client, the state
-- machine engine, the selector's table, the parser engine, the POP3 sniffer and the command line.
--
-- How the parts interact. A socket's bytes are received into a buffer (src/buffer.c). For a SOCKS5
-- client, `*_parser_consume` of src/socks5_parsers.c drains the buffer into a parser. For a
-- management client, src/mgmt.c parses whole requests in the buffer, changes the table of users
-- (src/users.c), the configuration (src/config.c) or reads the counters (src/metrics.c), and
-- answers through a second buffer. src/client.c is the other end of that protocol. A connection of
-- src/socks5.c is a state machine of src/stm.c: each event of its sockets, or the end of a name's
-- resolution, runs the callback of its state, which uses the buffers, the parsers, the users and
-- the metrics, and src/pop3.c reads what it copies. Both servers register their descriptors in the
-- table of src/selector.c.
--
-- Files.
--   Prelude: shared types, lists over the native numbers, byte arrays (Memory), C strings (Text).
--   Buffer: src/buffer.c and buffer.h, every operation; Bounds has the invariant, Queue the view
--     as a queue of bytes, Emit the functions that append a known string.
--   Parsers: src/socks5_parsers.c; Run is the loop that the three consume functions share, Hello,
--     Auth and Request are the parsers, each with a Spec, Stream joins them with the buffer.
--   Users: src/users.c; Table has the invariant, Map the view as a map, Operations and Names the
--     operations.
--   Socks5: src/socks5.c. State has the records and the selector calls, Connect the attempts to
--     reach the origin, Negotiate and Request the states up to the reply, Copy the relaying, Table
--     the state table and the events, Life the pool and the accepting. Sound is the invariant of
--     the states, Keeps has the callbacks under it, Attempts and Pump the two loops, Reply the
--     bytes of a reply, Accept and Done the ends of a connection, Serves, Engine and Reach its
--     runs, Access what a client needs to get through, HalfClose the closing of one direction.
--   Selector: the table of src/selector.c. Capacity is its growth, New its start, Table the view
--     as a map, Register, Grow and Unregister the operations; Rounds has what follows pselect,
--     Rounds/Sound and Rounds/Select a round with callbacks that keep the table sound,
--     Rounds/Programs callbacks that use the selector through its operations, Rounds/Frames what
--     these leave, Rounds/Full and Rounds/Order the rounds of such callbacks.
--   Config, Metrics, Smp, Net: src/config.c, src/metrics.c, src/smp.h, and what a handler sees of
--     a socket and of src/selector.h.
--   Mgmt: src/mgmt.c; Parse and Wire are its parsers and responses, Process its commands, with
--     Process/Served what each does, Conn the connection and its handlers, Conn/Reach the runs of
--     a connection.
--   Stm: src/stm.c; Valid is what stm_init checks, Handlers the events, Invariant a property that
--     every callback keeps.
--   Matcher: src/parser.c and src/parser_utils.c; Spec compares texts, Steps and Sound run the
--     table.
--   Pop3: src/pop3.c; Spec reads the lines of a stream, Line and Sound run the sniffer.
--   Args: src/args.c; Split is its user:pass, Parsed what the server is started with.
--   Client: the requests of src/client.c, and their way to the server's table in Login and
--     Session; Transport is its side of the connection, Receive, Read and Listed the responses.
--
-- Correspondence. A definition has the name of the C function. A pointer into a buffer is its
-- offset; a failed `assert`, an `abort` and an access outside an array are `none`; unsigned
-- arithmetic is reduced by `%` where it can wrap. The globals of users.c, config.c and metrics.c
-- are passed and returned as `Shared`. The results of `recv` and `send` are arguments, bounded by
-- what the kernel promises (RecvFits, SendFits). A closed management connection stays in the model
-- with its flag `closed`.
--
-- For src/socks5.c the record Kernel has the result of each system call that an event may make:
-- the bytes of recv and send, the outcome of each attempt to connect, getsockopt, getsockname and
-- inet_ntop, and the resolver's answer. World is a connection with the table of users, the
-- counters, the interests that the selector holds for its descriptors, and what the outside has
-- seen: the bytes that the two sockets took, the log, whether authentication was required when the
-- greeting was answered, the table of users when credentials were answered, the sockets for the
-- origin that are open, and whether the connection was freed. In src/selector.c a handler and its
-- data are one value of a parameter type, the callbacks are a parameter too, a pointer to an item
-- is lost when the table moves, a fd_set is a function into Bool, and FD_UNUSED is none.
--
-- Fuel. The loop over the candidates of a name has one more than their number, since each round
-- moves addr_idx on, which cannot wrap below 255 candidates; the loop that empties a buffer into a
-- socket has one more than the waiting bytes, since each round sends one or ends; the loop that
-- counts bits has one more than the number, which it halves. `consume` runs on fuel one more than
-- the length of the buffer's storage; each round takes a byte, so a valid buffer never exhausts
-- it. The loops of src/client.c run on the list of what each system call finds, and are blocked
-- where it ends. The other loops are structural.
--
-- Not modelled: of src/selector.c the end of a selector, its texts for errors, the signals and the
-- mutex (a job is added between two rounds), and what is printed; src/netutils.c, src/dns.c,
-- src/logger.c and src/main.c; the library's getopt; socksv5_pool_destroy, which frees; and of
-- src/client.c the connecting, the options and the exit codes. An allocation may fail where a
-- connection or the selector's table is made, and succeeds elsewhere. Several connections
-- interleave at whole handlers, since the program serves them in one thread.
pub mod Args
pub mod Buffer
pub mod Client
pub mod Config
pub mod Matcher
pub mod Metrics
pub mod Mgmt
pub mod Net
pub mod Parsers
pub mod Pop3
pub mod Prelude
pub mod Selector
pub mod Smp
pub mod Socks5
pub mod Stm
pub mod Users
