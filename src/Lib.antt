-- ===== src/Lib.antt =====
-- AetherLink: the control plane of a peer-to-peer remote desktop. The node keeps a state per peer,
-- and applies the core crate's state machine and verification to it. The core crate holds the state
-- machine of a connection and the authentication of the two session messages; the network, media and
-- input crates hold pure decisions that the programs call. The daemon starts and stops a node as a
-- process of its own, and its client sends it one command at a time.
--
-- Base: shared notation, lists, dictionaries, machine integers and text. A `HashMap` is an
-- association list; no theorem depends on its order. `i64` is an integer with its wrap-around
-- written out, unsigned numbers are natural numbers with their saturation.
-- Connection: `ConnectionStateMachine` (crates/aetherlink-core/src/lib.rs). `apply` returns its
-- result beside the new machine; Connection/Diagram compares it with the diagram of
-- docs/spec/v1-connection-protocol.md, Connection/Backoff follows the reconnect counters,
-- Connection/Attempt bounds an attempt.
-- Messages: the messages of proto/aetherlink/v1/control.proto that the code reads.
-- Security (crates/aetherlink-core/src/security.rs): Errors; Hex, the codec of keys in the trust
-- store; Replay, `NonceReplayCache`; Trust, `TrustedPeers`; Crypto, what libp2p and prost supply, as
-- a parameter with its documented laws; Verify, signing and verifying, where the replay cache and
-- the trust store that a call mutates come back beside its verdict on every path.
-- Ipc: the frames between the daemon and its client (apps/aetherlink-daemon/src/main.rs,
-- apps/aetherlink-daemonctl/src/main.rs): a stream is the bytes that are still to be read.
-- Network, Media, Input: crates/aetherlink-network, -media and -input.
-- Node (apps/aetherlink-node/src/main.rs): State, the record `App` and its start; Sessions, the
-- methods that follow peers and sessions; Keepalive and Schedule, the methods that say what to send,
-- close and retry; Operations, runs of them in any order; World, the interface to the swarm, the
-- clock, random numbers, the trust file and the encoding of envelopes and announcements; Control,
-- the requests that the node sends; Requests and Responses, `handle_control_request`,
-- `handle_control_response` and the outbound failures; Ticks, the periodic handlers; Discovery, the
-- announcement of the node, the lookups of device codes and the events of the DHT; Files, the
-- identity and the trust file, with `std::fs` modelled in Files/Disk as files under their paths and
-- operations that may fail or, for a write, leave anything; Startup, what `main` does before its
-- loop, and the whole of it; Loop, `handle_behaviour_event` and the `select!` loop of `main`, as
-- runs over a list of ticks and events that end at the first error. A `?` or an early return is a
-- result of type Outcome beside the node it leaves. A method that reads the clock takes the time as
-- an argument, one that asks the swarm takes the answer.
-- Node/Moves: the few ways in which a handler changes the state, as a relation; the Moves module of
-- each part says that its handlers make nothing but such moves, Node/Moves/Kept what every path of
-- moves keeps, and Node/Loop puts them together.
-- Daemon (apps/aetherlink-daemon/src/main.rs): State, the runtime and what requests do to its
-- configuration; Daemon, `process_request` with the managed node, over the interface Host to
-- processes, the trust file and the clock; a request is one step, since it holds the lock of the
-- runtime. Messages, what the code reads of proto/aetherlink/v1/ipc.proto; Client, `handle_client`
-- from the bytes read to the bytes written; Processes, Answers and Registry, the theorems on the
-- managed node, the answers and the configuration.
-- Daemonctl (apps/aetherlink-daemonctl/src/main.rs): the commands, their requests, and the wait for
-- the response.
-- Tests: concrete runs, with toy keys for two parties.
--
-- All recursion is structural. Four functions count by fuel: the digits of a printed number, 20, as
-- many as a `u64` has; the frames of a stream and the rounds of `handle_client`, where fuel for one
-- more than there are frames is enough; and the frames that the client waits through, where the
-- response is the first. Times of a clock are below 2^62 ms where a theorem says so, which a clock
-- reaches in more than a hundred million years.
--
-- Not modelled: directories and the modes of files but 0600, the transport (libp2p) and the sockets,
-- the wire format (prost, serde_json), the parsing of arguments, the construction of the swarm, the
-- tasks and sockets of the daemon, logging and printing. In the loop the trust file is an operation
-- of World, which a save of Files/Disk would fill. Names that libp2p prints, addresses that it
-- parses and the text of errors come from World. A managed node that ends by itself stays the
-- daemon's child.
pub mod Base
pub mod Connection
pub mod Daemon
pub mod Daemonctl
pub mod Input
pub mod Ipc
pub mod Media
pub mod Messages
pub mod Network
pub mod Node
pub mod Security
pub mod Tests
