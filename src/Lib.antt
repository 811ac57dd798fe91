-- ===== src/Lib.antt =====
-- omp-remote runs coding agents behind a daemon and lets clients watch and steer them. An agent's
-- state is owned by an actor (crates/omp-control-plane), which numbers every change of it; the
-- daemon (crates/ompd) authenticates devices, executes their requests and remembers the outcomes,
-- and sends the actor's updates as frames (crates/omp-control-protocol); a client
-- (crates/omp-control-client) keeps a replica of the state by applying the frames, over a connection
-- that it renews. The agents are child processes that a supervisor (crates/omp-runtime) speaks to
-- over pipes. These modules model the path from the actor to the replica, the store behind the
-- daemon, the client's connection and the supervisor.
--
-- Which file models which part:
-- - Prelude: lists, results, machine words, strings and BTreeMap as the source uses them. `Option`,
--   `Result` with `?` and `checked_add` on u64 have the names of Rust.
-- - Protocol.Id: crates/omp-control-protocol/src/id.rs.
-- - Protocol.State: crates/omp-control-protocol/src/state.rs. Types has the data, Change
--   `apply_change` and `would_change`, Delta `apply_delta` and `apply_update`; WellFormed, Idempotent
--   and Advance are about them.
-- - Protocol.Frame: crates/omp-control-protocol/src/frame.rs. Types has the data, Checks the
--   negotiation and `validate`, Agreement is about these.
-- - Protocol.Codec: crates/omp-control-protocol/src/codec.rs, with ciborium as a parameter; Limits
--   is about the limits on frames.
-- - Plane.Mpsc: the bounded channel of tokio as an interface, with a queue that implements it.
-- - Plane.Actor: crates/omp-control-plane/src/actor.rs. Types and Log have the state and the replay
--   buffer, Ops the operations, Loop `run_agent_actor`; Sequence, History, Reachable, Replay, Catchup,
--   Change and Lease are about them. A wakeup of `select!` is an element of a list, with the reading
--   of the clock at that moment, so that a list is one interleaving of commands and deadlines.
-- - Plane.Registry: crates/omp-control-plane/src/registry.rs; Alive is about the tasks behind it.
--   Plane.Handle has the methods of `AgentHandle` in actor.rs, each as a step of the task behind the
--   handle; Owner and Alive are about them.
-- - Daemon.Greeting, Daemon.Emit and Daemon.Requests: crates/ompd/src/server.rs. Greeting has
--   `authenticate_first_frame`, and Greeting.Current and Greeting.Admitted are about it; Outbound the queues to a client and
--   `run_writer`, and Outbound.Order is about them; Emit has the frames of updates and of the start of
--   a subscription, Requests `authorized` and `execute_request`. There the controller is a parameter
--   with a state of its own, and what other tasks do to the store while it is awaited is one too.
-- - Daemon.Controller: crates/ompd/src/controller.rs. Action has the async methods as functions on
--   what the tasks share, Types this state (`World`), Records what is computed of records and answers,
--   Calls the steps of the methods, Lifecycle the start, `launch`, `stop` and `shutdown`, Execute the
--   requests, Bridge the task that passes on the events of a runtime. The runtimes, clocks and texts
--   are an interface (`System`), and at every wait `elsewhere`, a parameter, stands for what other
--   tasks do. Preserved, Alive, Lease and Resumed are about it.
-- - Daemon.Store: crates/ompd/src/persistence/store.rs and records.rs. A table is the list of its
--   rows and a statement a function on tables; Agents, Devices, Pairing and Operations have the
--   operations, Columns how values are written, Access follows calls on devices and pairings, and
--   Recovery has `recover_interrupted` and Opening the rest of `initialize`.
-- - Client.Reducer: crates/omp-control-client/src/reducer.rs. Convergence and Gaps are about what a
--   frame does to the replica, and Client.Reconnect joins the replica, the daemon and the actor.
-- - Client.Connection: crates/omp-control-client/src/client.rs. Types has the data and the
--   parameters, Pending the table of requests, Frames what commands and frames do, Handshake the
--   authentication and the first frames, Session `ClientRunner::run`. The task waits at four places; a
--   step is what follows one input up to the next wait, and a list of inputs is one run. Handle has
--   the requests of `ClientHandle`. Answers, Backoff, Handshake.Trust and Handle.Valid are about it.
-- - Runtime: crates/omp-runtime/src/runtime.rs, state.rs and error.rs. Prompt has the prompt's
--   phases, Ops what a frame or a message does, Loop `run_actor` and `shutdown_child` over the turns
--   of `select!`, Lines `read_limited_line`, Reader `read_stdout` and `initialize_rpc`. Answers,
--   Prompt.Phases, Lines.Framing and Reader.Ends are about them.
-- - Wire: crates/omp-rpc/src/frame.rs, the decoder that reassembles chunked messages, with base64,
--   UTF-8 and JSON as parameters. `data` of a chunk is `payload` here. Reassembly and Bounds are about
--   it.
-- - Examples: runs of all this at concrete values.
--
-- Bounds: revisions, event sequences and times are natural numbers; where the source adds with
-- `checked_add` or `saturating_add` the model compares with the last u64, and what is written to
-- SQLite must be at most the last i64. The loops go over lists, but for the reading of a child's
-- output, which runs on fuel: more than the buffers and bytes of the output is enough, since every
-- line takes some. A key of the client's table wraps at 2 ^ 64, which a property excludes;
-- milliseconds of a delay are numbers, and the saturation of `saturating_mul` is above every
-- maximum.
--
-- Not modelled: the serde encodings, the texts of errors that only Display makes, SQLite's failures
-- other than violated constraints, the sockets, TLS and the command line, the spawning of the
-- runtime's child process, the daemon's loop over a connection's messages and its subscriptions'
-- tasks, the channels of the client's subscribers, and the user interface. SHA-256, the CBOR codec
-- and random bytes come from libraries and are parameters or arguments.
pub mod Prelude
pub mod Protocol
pub mod Plane
pub mod Daemon
pub mod Client
pub mod Examples
pub mod Runtime
pub mod Wire
