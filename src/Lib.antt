-- ===== src/Lib.antt =====
-- plexy is a TCP proxy: it listens on the local sockets of its tunnels and copies each connection
-- to one of the tunnel's remote ends. This library models its state, the choice of a remote, the
-- removal and recovery of dead remotes, the task of a connection and its copy, the grammar of its
-- tunnels, and the two interfaces that control it.
--
-- Parts and files. Paths are the repository's.
-- - src/error.rs: Errors. src/config.rs: Config. src/tunnel.rs: Tunnel (types and defaults) and
--   Tunnel/Specs (texts). src/tunnel/parser.rs: Tunnel/Parser. src/state/strategy.rs: Strategy
--   (names) and State/Info (the choice of an index).
-- - src/state/stats.rs, src/state/info.rs: State/Stats, State/Remote (`RemoteInfo`), State/Info
--   (`TunnelInfo`). A metric instrument is the list of the amounts that were added to it.
-- - src/state.rs: State/Store (tunnels, remotes and what is read of them), State/Streams
--   (streams), State/Dead (errors and the tasks of `check_dead`). `State` is `StateInner` with the
--   tasks that the runtime holds. Each operation is a function from the state to the next one; one
--   that holds a tunnel's entry writes it once, at its end. State/Steps has the calls as steps, in
--   any order, and the states of a run.
-- - src/aio.rs: Aio/Buffer (`CopyBuffer`), Aio/Transfer (the two directions).
-- - src/lib.rs: Proxy (`process_socket`, `create_tunnel`, `stop_tunnel`). What the other tasks do
--   at its awaits is a parameter.
-- - src/controller/: Control/Request (commands), Control/Response, Control/Exec (their execution
--   and the loop of a connection). src/rpc.rs: Rpc.
-- - src/main.rs and the reading of tunnels in src/config.rs: Start. The servers that it spawns are
--   among the other tasks.
-- - Nom: the parser library nom as an interface. Nom/Meaning has what its documentation says a
--   parser reads, Nom/Plain an instance for concrete runs.
-- - Maps: dashmap's and indexmap's maps as interfaces, with an instance for concrete runs.
--   Aio/Streams: tokio's streams as an interface.
--
-- Proofs. State/Separate, State/Watched, State/Counted and State/Mirrored are invariants of a run;
-- State/Select is about the choice of a remote, State/Failures about errors and checks,
-- State/Lifecycle about streams, State/Remotes about added and removed remotes; Proxy/Counts,
-- Proxy/Balance, Proxy/Panics and Proxy/Tunnels are about the tasks of src/lib.rs; Aio/Faithful,
-- Aio/Ends and Aio/Delivered are about the copy. Nom/Stops, Nom/Basics, Nom/Combined, Nom/Listed,
-- Nom/Reads and Nom/Lifted are lemmas on parsers: what a success says of the parts, what is left,
-- and that a parser that stopped at a character stops there whatever follows. Tunnel/Hosts,
-- Tunnel/Shapes, Tunnel/Again, Tunnel/Remotes, Tunnel/RoundTrip, Tunnel/Whole, Tunnel/Settings,
-- Tunnel/Accepted and Tunnel/Options use them for socket specs and tunnels. Control/Words and
-- Control/Lines are about the reading of a line, Control/Effects, Control/Session and
-- Control/OpenClose about what the commands do, Control/Printed about the lines of the printed
-- responses, Rpc/Views about the map that `remotes` answers with, Rpc/Changed about what
-- `tunnelInfo` sees of added and removed remotes, Rpc/Same and Rpc/Opened about the methods beside
-- the commands, Start/Runs about the start. State/Examples, Aio/Examples, Proxy/Examples,
-- Tunnel/Examples, Control/Examples, Rpc/Examples and Start/Examples run them on concrete data.
--
-- Numbers. `u64` and a 64-bit `usize` wrap around, as in a release build. An `f32` is its bit
-- pattern: the code makes it a `Duration`, which panics on some patterns (`is_duration` in Proxy),
-- and computes nothing else with it; a time is a number, a socket address a text. A panic of a
-- task is a value, `panicked`. `poll_copy` is a loop on fuel: two rounds for each byte that the
-- reader delivers before it is pending, and two more, are enough; the `while` loop inside it needs
-- no more rounds than there are bytes in the buffer.
--
-- Texts are lists of code points. The `HashMap` of `remotes` is an association list where a later
-- pair overwrites an earlier one. A nom error keeps its kind and its input in the results, but the
-- laws of the interface pass over them: they say of a parser's result only what it read, or that
-- it may be recovered from or not.
--
-- Parameters. The maps, the streams, the parser library, the framing of lines, the reading and
-- printing of an `f32`, the random generator, the reading of certificates, the outcome of a
-- connection to a remote and the other tasks are parameters. What they are assumed to do stands in
-- the interfaces.
--
-- Not modelled. The accept loops and the encrypted streams of src/lib.rs, the framing of lines and
-- the sockets of src/controller.rs and src/controller/, the server of src/rpc.rs and its
-- serialization, the metrics endpoint (src/metrics.rs), the runtime, logger and servers of
-- src/main.rs, and the reading of certificates (src/state/tls.rs). The two directions of a
-- connection use apart halves of its streams, and one poll of it is modelled, not the wake-ups
-- between polls.
pub mod Prelude
pub mod Strategy
pub mod Tunnel
pub mod Errors
pub mod Config
pub mod Maps
pub mod State
pub mod Aio
pub mod Proxy
pub mod Nom
pub mod Control
pub mod Rpc
pub mod Start
