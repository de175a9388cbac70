-- ===== src/Lib.antt =====
-- A model of the control plane of patze-control, with proofs.
--
-- The program collects telemetry from machines, keeps a queue of commands for them, and runs
-- scheduled tasks. Machines send events, which the ingestor of a telemetry node checks and stores;
-- projections show machines, sessions and runs. Users create commands, and the bridge process of a
-- machine polls for them, acknowledges, renews its lease and reports. The scheduler starts tasks.
--
-- Files and the code they model:
-- - Base, with Tests and Lists: Boolean tests, the conditional, list functions of the language.
-- - Value, with Laws: values of type `unknown` (parsed JSON, `undefined`, `Date`) and the helpers of
--   packages/telemetry-core/src/utils.ts; Json has what writing and reading JSON leaves of a value.
-- - BridgeCommands: apps/api-server/src/bridge-command-store.ts. Types has the interfaces, Store the
--   file, `create` and the find-and-replace that the methods share, Methods the other public methods
--   (`approve`, `reject`, `poll`, `ackRunning`, `renewLease`, `pushResult`, `list`). Soundness,
--   Modify and History hold the invariant, Lifecycle the relation between versions of a command,
--   Polling, Persistence, Listing and Reports the rest.
-- - Telemetry: packages/telemetry-core/src. Events (events.ts, types.ts), EventStore (event-store.ts,
--   event-bus.ts), Payload, Timestamps and Ingestor (ingestor.ts), Projections (projections.ts), Node
--   (telemetry-node.ts). Log, Acceptance, Batch, Reduction, NodeHistory, Binding, Replay, Stored and
--   Tracking are proofs about them.
-- - Cron: packages/telemetry-core/src/cron. Types (types.ts), Schedule (schedule.ts), Lock (lock.ts),
--   Store (store.ts, snapshot.ts), State, Service and Runs (service.ts). Every, Timer, Backoff,
--   Captured, Undo, CatchUp, Dispatch, Kept and History are proofs.
-- - Sink: `HttpSinkAdapter` of packages/telemetry-core/src/transports.ts, with which the bridge process
--   sends its telemetry. Post has the requests and retries, Queue the queue, flushes, circuit breaker
--   and spool file. Rounds, Order, Close, Filling and Spool are proofs.
-- - Bridge: packages/openclaw-bridge/src and the routes of apps/api-server/src/index.ts that it calls.
--   Controller (openclaw-controller.ts), Poller (control-poller.ts) with the server's command store
--   behind a network that may lose requests and answers, Delta the reading of run records
--   (cron-pusher.ts). Receipts, Once, Allowed, Lines and Growing are proofs.
-- - Mapper: packages/openclaw-bridge/src/mapper.ts and types.ts. Types has the data, Runs the events
--   about runs, Sessions the inferred sessions and the eviction, Poll `mapRunStateChangedEvents`,
--   Envelope the JSON of an event. Accepted, Own and Pipeline join
--   it with the sink and the ingestor.
--   Cases, Tables, Chains, Legal, Vanished, Inferred, Settling, Apart and Legality are proofs about
--   changes of state, Keys, Quiet and Reporting about what is reported once.
-- - Frontend: packages/telemetry-core/src/frontend-reducer.ts and frontend-snapshot.ts. Types has the
--   snapshots, Entries what an event writes, Recent the recent events,
--   Upsert `upsertFromEvent`; Mirror, Agreement, Starts and Steps relate it to the projections.
-- - The Tests modules apply the theorems at concrete inputs.
--
-- State and effects. An object with private fields is a record, and a method a function from the
-- record to the record and a result; `null` is an `Option`. A file is the value whose JSON
-- text it holds, or the mark of a text that cannot be parsed. Reading it gives `json_value` of it in the
-- command store, the spool of the sink and a request to the ingestor: fields that are undefined and
-- numbers that are not finite are lost. The poller's receipts and the files of the scheduler are taken
-- to hold nothing that JSON loses. Errors of the file system are left out. A
-- listener is a function on a state outside the store, and may throw. `executeTask` is cut at its
-- awaits into `claim`, `mark_running`, `unclaim` and `settle`, and other operations may come between.
--
-- Times are milliseconds in ℕ; an ISO timestamp that the code itself writes is kept as its instant.
-- The clock, random numbers and generated ids are arguments. Numbers in payloads are bit patterns
-- that are only stored and compared. Date parsing, ISO formatting and the length of a JSON text are
-- the parameter `Runtime`, local time and time zones the parameter `Calendar`.
--
-- `flush` is cut at its await in the same way. Posting a batch runs on its own count of attempts, and
-- the loop of `close` on a count of rounds, for which the length of the queue is shown to be enough.
--
-- Every other loop is structural recursion. The search for a cron time has the source's own bound of 525960
-- candidates as its count of rounds, and ends at the limit of 366 days like the source.
--
-- Not modelled: the sorted snapshot and health indicators of the front-end reducer, the user interface, the other HTTP routes, SSE and WebSocket clients, ssh, the bridge's session sources and the reading
-- of OpenClaw files, which are I/O or call the parts above; the text of a schedule's description.
pub mod Base
pub mod Value
pub mod BridgeCommands
pub mod Telemetry
pub mod Sink
pub mod Bridge
pub mod Mapper
pub mod Frontend
pub mod Cron
