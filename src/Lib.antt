-- ===== src/Lib.antt =====
-- Onlyboxes is a self-hosted platform that runs code in sandboxes. A control node, the console, has
-- accounts, tokens, workers and tasks, and serves REST and MCP. Worker nodes keep a gRPC stream open
-- to the console, say which capabilities they have, and run the commands that it dispatches: a Docker
-- worker runs them in containers, and keeps containers for terminal sessions.
--
-- How the parts interact. A client submits a task (console/internal/grpcserver/task.go). The task is
-- a row of a SQLite table, queried by console/internal/persistence/sqlc/tasks.sql.go, and while it runs
-- an entry of the index of tasks in flight. Its terminal session id is scoped by its owner
-- (task_owner_scope.go) before it is stored, and the scope is taken off the result again. Executing a
-- task dispatches a command (service_dispatch.go): of the sessions of the workers that are online, one
-- is chosen, a slot of its capability is taken and the command is registered (session_runtime.go); a
-- terminal session stays with the node that it is bound to (terminal_session_routes.go). The worker
-- answers with a result frame, which settles the pending command. In a Docker worker the command of a
-- terminal session goes to the session manager (worker/worker-docker/internal/runner/terminal_exec.go),
-- which creates, leases, uses and removes containers.
--
-- The files and the code that they are about.
--   Prelude       shared names; Prelude/Text: Go strings as lists of code points, with
--                 strings.TrimSpace and strings.ToLower; Prelude/Map: Go maps as association lists
--   Errors        the errors that console/internal/grpcserver returns
--   Naming        normalizeCapability and the names of capabilities
--   Routes        terminal_session_routes.go. Routes/NodeIndex: the index from nodes to sessions;
--                 Routes/Invariant, Loops, Operations: the index agrees with the routes; Routes/Spec:
--                 the specification without an index; Routes/Affinity: sessions stay with a node
--   Session       session_runtime.go. Session/Channels: the result channels; Session/Lifecycle: close
--                 and enqueue; Session/Steps: any calls in any order; Session/Slots, Conservation,
--                 Closing, Delivery: the invariants; Session/Promises, Results, Outcomes: what they give
--   Scope         task_owner_scope.go. Scope/Ids: the scoped ids; Scope/Results: inputs and results
--   TokenList     console/internal/tokenlist
--   Tasks         task.go. Tasks/Table: the queries of tasks.sql.go; Tasks/Execute: CancelTask and
--                 executeTask; Tasks/Submit: SubmitTask; Tasks/Rows: the queries row by row;
--                 Tasks/Settled, Operations: what no operation changes; Tasks/Ended, Execution: the end
--                 of executeTask; Tasks/Creation, Submission, Results: what a submission does;
--                 Tasks/Checks: the checks of a submission; Tasks/Requests: request ids; Tasks/Owners:
--                 reading and canceling
--   Dispatch      service_dispatch.go. Dispatch/Terminal: pickSessionForDispatch and
--                 tryReserveAndPickTerminalSession; Dispatch/Command: dispatchCommand;
--                 Dispatch/Views, Gathering, RoundRobin, Picking, Pointers: the choice of a
--                 session; Dispatch/Sticky: terminal sessions; Dispatch/GivesBack: the slot of a
--                 command
--   Registry      console/internal/registry: store_worker_lifecycle.go's Upsert. Registry/Table, Selects,
--                 Order: the tables of console/db/migrations and the queries of
--                 console/internal/persistence/sqlc/workers.sql.go; Registry/Lifecycle, Query, Lookup,
--                 Credentials: the other operations of the store; Registry/Rows: the rows of a node;
--                 Registry/Upserts: what a hello can change; Registry/Sessions: heartbeats and the end of
--                 connections; Registry/Listing, Online: the lists of online nodes; Registry/Pages,
--                 Stats, Views: the lists of the dashboard; Registry/Pruning: PruneOffline;
--                 Registry/Foreign, Kept, Calls: the tables after any calls; Registry/Assigned: the
--                 choice of a session, over the store
--   Provisioning  service_credentials_runtime.go. Provisioning/Seeding, Rollback, Creating: the creation of
--                 a worker; Provisioning/Revoking: the check of secrets and the removal of a worker
--   Connect       service_connect.go. Connect/Sessions: one session for each node; Connect/Hello: the
--                 capabilities of a system worker
--   Terminal      terminal_exec.go. Terminal/Execute: Execute; Terminal/Busy: exclusive use;
--                 Terminal/Results: leases, settings, output
-- The Examples file of a folder, and Registry/OwnWorkers, run that component on concrete values.
--
-- How the code is modelled. A method that changes its receiver is a function from the state before to
-- the state after. A lock makes what it covers one step. Where the code lets go of its locks, what
-- others do in between is a function on the state, an argument such as `meanwhile` or `between`, on
-- which a theorem puts the conditions that it needs; or the calls come in any order, as in Session/Steps. Errors are values of Error. Each
-- call of the database may fail: the state of Tasks holds whether each call to come does, and an
-- operation of Registry takes it as an argument; a transaction that fails is rolled back. What the
-- clock, the id generators, json, docker and the select statement give is an argument. JSON is encoded and
-- decoded by a parameter, Codec, and a theorem says what it needs of it. The dispatch
-- takes the two lists of online nodes as an argument, Store, which store_at of Registry/Lookup fills. The
-- hash of a worker's secret is a parameter.
--
-- Bounds. There is no fuel: every loop is over a list. Times and durations are natural numbers, in
-- milliseconds, nanoseconds in SubmitTask, Terminal and Registry, whose tables have milliseconds;
-- where the code treats 0 and less alike, less is 0; the seconds of a lease that a request names
-- are signed, and its duration wraps at 2 ^ 64. The round robin counter wraps at 2 ^ 64; the code
-- takes it as an int, so that it must be below 2 ^ 63. The product of a page's number and size
-- wraps at 2 ^ 64 too. Other counters of the code are ints that stay below the limits of
-- capabilities. ToLower covers ASCII, Latin-1, Greek and Cyrillic letters.
--
-- What is not modelled. Network and process I/O, goroutines as such, logging, the outbound queues of a
-- session, the loops over a worker's stream, the waiting of SubmitTask for a task's end, the file of
-- generated credentials, the HTTP and MCP handlers, configuration, the system worker, and the other
-- capabilities of the Docker worker.
pub mod Prelude
pub mod Provisioning
pub mod Registry
pub mod Routes
pub mod Errors
pub mod Naming
pub mod Session
pub mod Scope
pub mod TokenList
pub mod Tasks
pub mod Dispatch
pub mod Connect
pub mod Terminal
