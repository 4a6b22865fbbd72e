-- ===== src/Lib.antt =====
-- The programs of the WOP repository's TypeScript code: the in-memory reference host, the two readers
-- of its event streams, the SQLite reference host, the SDK's client, the conformance suite's command
-- line, driver and polling loops, the derivation of compatibility profiles, the detector of leaked
-- canary secrets, and the example client that forks a run.
--
-- How they interact: a client creates a run by a request; the host executes the run's workflow in
-- turns of its event loop, appending events to the run's log; the events go to every open response of
-- the run, as server-sent events; a reader on the other side parses that stream. Further requests read
-- the run, its log from a cursor on, or cancel it. From the host's discovery payload a client derives
-- the profiles that the host has, and a test scans what the host sent for canary secrets. The SQLite
-- host keeps runs in a database that several processes share; a process executes a run on which it
-- holds a claim, renews the claim by heartbeats, and takes over the runs whose claims have expired. The
-- conformance suite is started by its command line, which sets the environment from which the driver
-- takes the host's address and key, and waits for runs by polling their snapshots.
--
-- Files, with the code that each models:
--   Prelude, Prelude/*     shared names, Boolean tests, lists, association lists, texts
--   Json                   the values of JSON.parse and JSON.stringify
--   Platform               what the hosts take from Node, as functions that are parameters
--   Http                   requests, responses, sendJSON, sendError, checkAuth
--                          (examples/hosts/in-memory/src/server.ts)
--   Workflow               fixture workflows, statuses, event types, resolveInputAsNumber (same file)
--   Fixtures               loadFixtures, which is alike in both hosts (same file)
--   Fixtures/Search        proofs about it
--   Memory/Run, Engine, Turns
--                          Run, RunEvent, appendEvent and the event bus; executeNode, runWorkflow and
--                          sleep cut into turns at each await; what may happen between two turns
--                          (same file)
--   Memory/Host, Reads, Router
--                          handleCreateRun with its idempotency cache; handleGetRun, handleEventsPoll,
--                          handleDebugBundle, writeEvent; handleCancelRun, handleEventsSse,
--                          handleDiscovery, handleOpenApi and route (same file)
--   Memory/World           histories of requests and turns, over the host's whole state
--   Memory/Log, Flags, Invariant, Invariant/*, Plan, Cancel, History, Progress, Fairness, Streams,
--   Memory/Cursor, Idempotency, Access
--                          proofs about the modules above, by what they prove
--   Sse/Parser, Clients    the read loop of subscribe (conformance/src/lib/sse.ts) and streamEvents
--                          (sdk/typescript/src/sse.ts), and the two functions around it
--   Sse/Chunks, Frames, Delivery
--                          proofs about these, and about the host's stream as they read it
--   Sqlite/Rows, Engine, Turns
--                          the rows of runs and events with the prepared statements; executeNode,
--                          runWorkflow and sleep; what may happen between two turns
--                          (examples/hosts/sqlite/src/server.ts)
--   Sqlite/Claims, Heartbeats, Cancelling, Endings
--                          proofs about these: claims between processes and their renewal, cancel
--                          requests, ended runs
--   Sqlite/Host, Reads, Router, Orphans
--                          handleCreateRun with the table of idempotency keys; the readers of a run;
--                          handleCancelRun, handleEventsSse, handleDiscovery, handleOpenApi and route;
--                          resumeOrphans (same file)
--   Sqlite/Shutdown        shutdown, and the bootstrap on the tables that a process finds (same file)
--   Sqlite/Connections     handleEventsSse: what it has written before it waits for the event bus, and
--                          the connections of a process that wait (same file)
--   Sqlite/World           the processes that use the tables one after another
--   Sqlite/Numbering, Tables, Lifetimes, Idempotency, Access, Streaming, Agreement
--                          proofs about these, about the event stream as the SDK reads it, and about
--                          both hosts side by side
--   Sqlite/Live, Feeds, Backlog, Broadcast
--                          proofs about the connections that wait for the event bus
--   Sqlite/Handover        proofs about a process that starts after another has shut down
--   Sqlite/Steps, Takeover
--                          proofs about a process that takes over a run
--   Sqlite/Simulation, Refinement, Alongside, Lockstep
--                          proofs that an execution in the SQLite host does what one in the in-memory
--                          host does
--   Client, Client/Outcome, Trace
--                          WopClient: the request of each method, and what it makes of the response;
--                          WopError and extractTraceId (sdk/typescript/src/client.ts and types.ts)
--   Client/Stream          the request of streamEvents (sdk/typescript/src/sse.ts)
--   Client/Types           the interfaces of the bodies, as tests of JSON values
--                          (sdk/typescript/src/types.ts)
--   Client/Host            the network between the client and the in-memory host, as a parameter
--   Client/Traces, Outcomes, Reach, Replies, Calls, Retry, Events, Typing, Refusals
--                          proofs about the client, most of them in front of the in-memory host
--   Suite/Args, Main       parseArgs and main (conformance/src/cli.ts)
--   Suite/Env, Driver, Polling
--                          loadEnv, WopDriver and pollUntil (conformance/src/lib/env.ts, driver.ts and
--                          polling.ts)
--   Suite/Options, Parsing, Launch, Waiting, Verdicts
--                          proofs about these
--   Profiles, Profiles/Laws
--                          conformance/src/lib/profiles.ts
--   Canaries               CANARIES and findCanaryLeaks (conformance/src/lib/canaries.ts)
--   Canaries/Occurrences, Detection, Fuel
--                          proofs about it
--   BranchFork             main and pollUntil of examples/branch-fork/branch-fork.mjs
--   BranchFork/Session     what it sends and is answered when it verifies a fork
--   BranchFork/Answers, Outcomes, Steps, Forked
--                          proofs about it
--   Tests, Tests/*         the theorems at concrete inputs, and small runs
--
-- State. A run is a record with the fields of the source; beside it stand its open responses and its
-- task, which says where the suspended async functions of the run wait. A turn of the event loop is
-- a function on these three; a schedule is a list of turns, and any list is allowed, so the theorems
-- hold for every interleaving. For an execution in the SQLite host the state is the row of its run
-- with its events, and a statement of another process is such a turn too; the state of one of its
-- processes is the tables, with the executions that it has; the event bus belongs to the process, so
-- an execution has the connections of its own process, and it begins without any. Processes that use
-- the tables one after another are a list of lives, from the start to a signal or a crash. The
-- hosts' maps and tables are association lists in insertion order. The client and the host meet in a
-- record of what the network between them is relied on for: it carries methods, plain paths, header
-- values and bodies as they are.
--
-- Bounds and fuel. Numbers of JSON are exact fractions, NaN and the infinities, so the comparisons of a
-- sequence number with a cursor are those of the source; a sequence number is a natural number, as a log
-- stays below 2 ^ 53 events. The loop over the lines of the reader's buffer runs on fuel, the length of
-- the buffer, and each round takes at least one character, which its equality with the parser that reads
-- one character at a time confirms. The leak detector's second pass runs on the length of its text. How
-- many turns a task takes is bounded by three for each node left and three more. The time to live of a
-- claim is a parameter. The loop of pollUntil runs on fuel, one more than the intervals that fit into
-- the timeout.
--
-- Not modelled: reading the environment, sockets, timers' durations, UTF-8 decoding across chunks;
-- the SQLite host's database setup and environment; starting the test runner and the processes that
-- scenarios use; the scenarios and the other example scripts; requests whose URL cannot be read, as a
-- request has its path already. The SQLite host counts a run's events and inserts the next in one step
-- here, so two processes that append to one run at once, where the later violates the primary key, are
-- left out. JSON.parse, JSON.stringify, SHA-256, Number,
-- trim and the clock are parameters; a theorem that relies on one of them says so in its hypotheses. The
-- time of an event is a function of its run and number, so the two hosts give equal times to equal
-- events by this parameter.
mod Prelude
pub mod Json
pub mod Platform
pub mod Http
pub mod Fixtures
pub mod Workflow
pub mod Memory
pub mod Sse
pub mod Profiles
pub mod Sqlite
pub mod Client
pub mod Suite
pub mod Canaries
pub mod BranchFork
mod Tests
