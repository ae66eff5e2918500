-- ===== src/Lib.antt =====
-- A model of weron, overlay networks over WebRTC, with the theorems that its parts rely on.
--
-- Parts and files. A client joins a community at a signaling server by a websocket; the server
-- counts the clients of a community in a store and passes messages on through a broker; the clients
-- then connect to each other, agree on names, and carry chat, Ethernet frames, IP packets or
-- measurements.
--   Persister.antt, Persister/: the stores of communities, internal/persisters/memory and
--     internal/persisters/psql. Persister/Memory.antt has one function per method, from the store to
--     the store and its result; a method holds the lock throughout, so it is one step.
--     Persister/Psql.antt has one function per method as well, from the answers of the database to
--     the statements that are sent and the result; Persister/Psql/Database.antt is what these do to a
--     table. Persister/Registry.antt is the specification: a function from IDs to rows.
--   Broker.antt, Broker/: internal/brokers; a broker is what it publishes, and on which topic.
--   Encryption.antt, Encryption/: internal/encryption/aes.go over lists of bytes.
--   Signaler.antt, Signaler/: pkg/wrtcsgl. Signaler/Handler.antt is the HTTP handler over the
--     interface `CommunitiesPersister`, Signaler/Session.antt the loops of one connection,
--     Signaler/Connections.antt the table of connections and Signaler/Kicked.antt the kicks of all
--     signalers, Signaler/Tally/ the steps of the server with the memory store, in any interleaving,
--     Signaler/Opening.antt and Signaler/Close.antt its start and its end, and Signaler/Management/
--     a manager against the handler with the memory store.
--   Conn.antt, Conn/: pkg/wrtcconn. Conn/Ice.antt is how pkg/wrtcconn/adapter.go reads its servers;
--     Conn/Signaling.antt is its loop over the messages of internal/api/websocket, from the session of
--     one connection to the session and how the turn ends, Conn/Signaling/Callbacks.antt the functions
--     that it gives to pion, Conn/Signaling/Wire.antt the encrypted lines, and Conn/Signaling/Events.antt
--     the runs of all these. Conn/Negotiation.antt is how pkg/wrtcconn/adapter_named.go claims a name
--     by the messages of pkg/api/webrtc/v1, Conn/Named.antt its table of peers, and Conn/Named/Loop.antt
--     its goroutines, which share a lock, a condition and channels, as a step relation.
--     Conn/Reconnecting.antt is the loop of pkg/wrtcconn/adapter.go over one connection to the signaler,
--     with its lines and pings.
--   Relay.antt, Relay/: the way of a message from one adapter to another, through pkg/wrtcconn,
--     internal/encryption, pkg/wrtcsgl and internal/brokers/redis.
--   Chat.antt, Chat/: pkg/wrtcchat, the peers of a chat and what is written to them.
--   Ethernet.antt, Ethernet/, Ip.antt, Ip/: pkg/wrtceth and pkg/wrtcip, which peers a frame or a packet
--     goes to, which addresses a network offers, how a device and a peer get theirs (Ip/Device.antt), and
--     the events of the loops (Ethernet/Wait.antt, Ip/Wait.antt).
--   Latency.antt, Latency/, Throughput.antt, Throughput/: the loops of pkg/wrtcltc and pkg/wrtcthr.
--   Manager.antt: pkg/wrtcmgr and the manager commands. Cmd.antt, Cmd/: the other commands of
--     cmd/weron/cmd up to the adapter or the server that they start, and Cmd/Interrupt.antt their ends.
--   Prelude.antt, Prelude/: what the parts share. Tests.antt, Tests/: the theorems at concrete inputs.
--
-- Numbers. A Go `int` of the client counts is the type ℤ of Prelude/Int64.antt, whose increment and
-- decrement wrap around at 64 bits; the sums of Latency.antt and Throughput.antt are written modulo 2^64. Loops run over
-- the sequence of their inputs, so they need no fuel; the only count of steps is that of `walk` in
-- Ip/Names.antt, `MaxRetries+2` as in the source.
--
-- Parameters. bcrypt, AES-GCM, JSON, PostgreSQL and its driver, Redis, HTTP, pion/webrtc, the parsers
-- of URLs and of CIDR notation, and the relay of the chat are not part of the repository: they are
-- arguments of the definitions, with the few laws that the code relies on. Where a Go map is gone
-- through, the order is that of the list that stands for it, where Go's is any.
--
-- Not modelled: deadlines and delays, the network devices, the opening of connections and how an
-- adapter connects to the signaler again, the sessions that end while a kick closes the connections of
-- a community, the generated models under internal/db, and output.
pub mod Prelude
pub mod Persister
pub mod Encryption
pub mod Broker
pub mod Chat
pub mod Signaler
pub mod Conn
pub mod Relay
pub mod Latency
pub mod Ethernet
pub mod Ip
pub mod Cmd
pub mod Manager
pub mod Throughput
pub mod Tests
