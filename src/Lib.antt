-- ===== src/Lib.antt =====
-- A verification library of the HTTP server: its core (core/src), which does no input or output
-- itself, the loops that drive it (server/src), and the client that measures it (loadgen/src).
--
-- The parts. A connection (Connection, core/src/conn.rs) feeds the bytes that its owner reads to
-- the incremental request parser (Http.Parser, core/src/http/request.rs), has each request answered
-- by the app (App, core/src/app.rs and metrics.rs), which looks the path up in the router (Router,
-- core/src/router.rs) and may take a body from the asset cache (Assets, core/src/asset.rs), and
-- encodes the response (Http.Response, core/src/http/response.rs) into what it has pending. Its
-- owner writes that and reports the count. `drive_io` (Server.EventIo,
-- server/src/models/event_io.rs) does so for one event on a socket, and the reactor
-- (Server.Reactor, server/src/reactor.rs) for all the sockets in its table (Server.Table,
-- server/src/sys/conn_table.rs), under a limit (Limits, core/src/limits.rs, has the parser's) and
-- with a deadline for each request; Server.Poll (server/src/models/poll.rs) is the same over
-- `poll(2)`, and Server.Blocking (server/src/models/blocking.rs) serves one connection on a
-- blocking stream. Server.Epoll (server/src/models/epoll.rs) is the loop of the two epoll models,
-- with the trigger and the drain as parameters; its state and its calls are the reactor's, which
-- has the edge trigger. Server.Uring (server/src/models/io_uring.rs) drives the connections by
-- completions: Server.Uring.Words has the words that carry a descriptor through the kernel,
-- Server.Uring.Buffers the ring of buffers that it reads into, Server.Uring.Kernel the check of its
-- version, and Server.Uring.Flight the operations that are under way. Server.Workers has the models
-- with processes or threads: Server.Workers.Forking (server/src/models/forking.rs, with the handler
-- of SIGCHLD in server/src/sys/signal.rs), Server.Workers.Threads (thread_per_conn.rs),
-- Server.Workers.Pool (thread_pool.rs) and Server.Workers.Preforked (preforked.rs); what they run
-- on a connection is Server.Blocking. Server.Site and Server.CommandLine are the routes and the
-- arguments of server/src/main.rs. Loadgen (loadgen/src/main.rs) has the client's queue of
-- scheduled requests with its workers, the request that they send (Loadgen.Request), and the reader
-- that finds the end of a response; Loadgen.Exchange puts a worker and a connection of the server
-- together.
--
-- The correspondence. Structs are records and enums data types with the source's names in snake
-- case. A method that changes `self` is a function from the old state to the new one; `push`,
-- `on_bytes`, `on_written`, `drive_io`, `accept_ready`, `drive`, `apply_backpressure`,
-- `sweep_expired` and `run_once` (one iteration of `run`, as `poll_once` is of poll's `serve`) are
-- the methods of those names. Server.Epoll has epoll.rs's `run` as `epoll_once`, `accept_ready` as
-- `accept_clients`, `drive` as `drive_ready` and `drop_conn` as `close_conn`, and Server.Uring
-- `push` as `push_sqe`, `submit_send` as the case of `apply`, `drop_conn` as `drop_connection` and
-- a round of `run` as `uring_once`. Where processes or threads share state, each stretch of code
-- between two waits is a function, and a data type has the orders in which they can come: `Forked`,
-- `Threaded`, `Pooled` and `Run`. What a client is owed for the bytes that were read from it, read
-- by read, is `answers_from` (Server.EventIo.Answers), which runs the parser and the handlers and
-- knows nothing of writes. Http.Method, Http.Headers, Http.Status and Http.Request have the rest of
-- core/src/http. Text has what the source uses of Rust's strings, on bytes: UTF-8, `trim`,
-- `parse::<usize>`, `split`. Base has the lists over native numbers, the loops and the maps.
--
-- Bytes are numbers and a text is the list of its bytes. File names are taken to be UTF-8, which
-- `to_string_lossy` leaves as it is. Instants and durations are numbers of one unit, and a function
-- that reads the clock takes the reading. A counter of 64 bits wraps around. Indices into the
-- parser's buffer are numbers without a bound, as they never pass its length. Handlers are code
-- pointers, and running one is a parameter. Sockets, the kernel's interest list and the listening
-- socket are values of types that the theorems do not look into; what is relied on of them is named
-- where it is used (Server.Reactor.Watch, Server.Poll.Pairs, Server.EventIo.Delivery,
-- Server.EventIo.Loop, and Server.Uring.Flight for the rings of io_uring, which are a library).
--
-- Loops run on fuel, and Base.Rounds says what a loop is. `advance` has 4 rounds, since its state
-- moves on in all but the last; `parse_headers` has two more than the most fields it may count; the
-- router has one more than the length of the path; `drive_io`, `accept_ready` and
-- `serve_connection` take theirs from how many calls in a row can succeed. A loop that ran out of
-- fuel would return `again`. `apply` and `submit_send` of io_uring call each other when a
-- connection wants to write nothing; 2 rounds are given, of which a connection that satisfies its
-- invariant needs one. The reader of a response has as many rounds as there are bytes to come, and
-- one more.
--
-- Not modelled: the iterative and multireactor models, which run loops that are modelled in one or
-- more processes or threads; the wrappers of system calls, the arguments, pacing and reports of the
-- load generator, which are floating-point numbers and text, and what is logged or printed. The
-- io_uring model relies on a push that succeeds after a submit, since the source ignores the error
-- of one that does not.
pub mod Base
pub mod Text
pub mod Limits
pub mod Http
pub mod Router
pub mod Assets
pub mod App
pub mod Connection
pub mod Server
pub mod Loadgen
mod Tests
