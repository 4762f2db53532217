-- ===== src/Lib.antt =====
-- A model of the sandbox platform: microVMs for agents' scripts, run and watched from a control
-- plane. The parts, the way a script takes through them, and the files here:
--
--   Proxy       internal/gateway/proxy.go, the terminal session: reads a script from a WebSocket, asks
--               the rate limiter and the approval gate, runs it through the client, and records a
--               transcript
--   Access      internal/auth/auth.go, requireAuth and decideApproval of internal/gateway/api.go,
--               authorizeSandbox of internal/gateway/sandbox_api.go
--   RateLimit   internal/state/redis.go, the token bucket of Allow
--   Gate        internal/hitl/gate.go: Classify, Submit, Decide, Get, Pending, WaitForDecision
--   Client      internal/gateway/vsockclient.go: the dial over the vsock bridge, its retries, Exec, Ping
--   Protocol    internal/protocol/protocol.go: the length-prefixed frames
--   Agent       cmd/guest-agent/guest_agent.go: the daemon in the guest that runs the script
--   Supervisor  internal/orchestrator/orchestrator.go and the restoring part of snapshot.go: launch,
--               restore, termination, reaping and reconciliation of sandboxes
--   Cid         the CID allocator of internal/orchestrator/orchestrator.go
--   Pool        internal/orchestrator/pool.go: warm sandboxes restored ahead of their use
--   Records     internal/state/redis.go but for Allow, internal/sandbox/record.go: the records of
--               sandboxes, heartbeats and session bindings
--   Database    internal/store/pg: the tables and what the repositories' statements do to them
--   Accounts    internal/gateway/auth_api.go: login, logout, users; bootstrapAdmin and maintenanceLoop
--               of cmd/controlplane/main.go
--   Handlers    internal/gateway/sandbox_api.go and the sandboxes in internal/gateway/api.go: the
--               handlers over the supervisor and the database
--   Host        NewSupervisor, paths, the Firecracker configuration, cgroup caps and processes of
--               internal/orchestrator/orchestrator.go
--   Health      healthLoop, the end of main and the readers of the environment of
--               cmd/controlplane/main.go
--   Api         internal/gateway/api.go as a whole: the routes of Register behind requireAuth,
--               listApprovals and the entry of the terminal
--   Redis       what the gate, the limiter and the records ask of the Redis service
--   Prelude     lists, texts, tables, integers and results shared by the parts
--   Examples    the theorems at concrete inputs
--
-- How state is modelled. A struct is a record, and a method is a function from the state to the result
-- and the new state. A mutex makes a method, or a critical section of it, one step; `Pool` keeps the
-- place of the refill goroutine in its state and takes any sequence of steps, and
-- `Supervisor/Interleaving` is a step relation over the pieces of concurrent launches and terminations,
-- split where they take and leave a mutex. What the program asks
-- of the world (the host during a launch, the bytes that arrive on a connection, the process under a
-- command, the moments at which a wait polls) is an argument of the function that asks. Redis,
-- encoding/json, the writer under a frame and the sender of the agent are records of operations
-- with their documented laws; Agent/Writer shows that the FrameWriter of internal/protocol/protocol.go
-- is such a sender. Strings are lists of bytes, a Go map is an association list, int64 and uint32 keep
-- their wrap-around.
--
-- Fuel. The read loop of Exec has the number of the bytes left as its fuel, and every frame takes
-- four or more (Client/Exec); the loop of the stream writer has the length of what it sends, and
-- every round sends one byte or more (Agent/Output). The other loops recurse on what they loop over.
--
-- PostgreSQL carries a statement out or not, as an argument says, and one that it does not carry out
-- changes nothing.
--
-- Ids and paths. What the host holds of a sandbox (directories, cgroup, machine) is entered under the
-- sandbox's id. Host/Paths has the paths themselves: for ids that are plain names of files the removals
-- on the paths are those on the ids. An id that is not plain (with a slash, ".", "..") is outside what
-- the model of the host can tell; nothing in the source refuses one.
--
-- Not modelled: the bodies of HTTP replies in Api, the 501 answers of a control plane without a
-- database there, which upgrades to a WebSocket succeed, the recent audit entries, the migrations, the
-- running of processes and mounts, the overlay of a root file system, which snapshot a warm pool restores
-- (`restore_instance` is LoadSnapshot but for the files, `load_snapshot` adds them), the wiring of the
-- start-up, flags and logging. Removals of files and of records by the supervisor are taken to succeed;
-- those by the deletion of a sandbox may fail. The limiter's floats are counted in whole units
-- (RateLimit). bcrypt, strings.TrimSpace, filepath.Dir and the parsers of packages net and strconv are
-- parameters, and so is what json.Marshal makes of a text that is not UTF-8.
pub mod Prelude
pub mod Cid
pub mod Protocol
pub mod Client
pub mod Agent
pub mod Redis
pub mod Gate
pub mod RateLimit
pub mod Supervisor
pub mod Pool
pub mod Proxy
pub mod Access
pub mod Records
pub mod Database
pub mod Accounts
pub mod Handlers
pub mod Host
pub mod Health
pub mod Api
pub mod Examples
