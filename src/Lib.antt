-- ===== src/Lib.antt =====
-- QFN-PGX: the launcher, the console and the front door of a local inference engine, in Go.
--
-- The program runs one engine container. `engine.Manager` serialises the operations on it and the
-- console (internal/server) starts them; `engine.BootTracker` reads the boot log, which the console's
-- `logBus` pumps into a ring and a status. The front door (internal/proxy) relays the clients'
-- requests to the engine and keeps a row for each in its `Registry`. Console and front door stand
-- behind one gate, `auth`, over the web sessions, the login lockout and the encrypted credentials of
-- internal/auth. The configuration and the launch profiles say how the engine is launched. A collector
-- samples the box and the engine once a second for the console, and `qfn launch` starts a coding agent
-- that speaks to the front door.
--
-- Files, and the code that they model:
--   Base            the names and lemmas that the other modules share: Boolean tests, lists, the
--                   maps and integers of Go, its `strings` functions, and a list that keeps its last
--                   entries
--   Auth/Limiter    internal/auth/ratelimit.go: `Limiter` with Allow, Fail, Success, Blocked, load
--                   and persistLocked, as `allow`, `fail`, `success`, `blocked`, `load` and
--                   `persist_locked` on a record of the map and of the file
--   Auth/Sessions   internal/auth/session.go: Create, Validate, Revoke, Len
--   Auth/Vault      internal/auth/credentials.go: `load` with its cache and `save`, as actions on a
--                   `World` of one process's cache and the two files
--   Auth/Store      internal/auth/credentials.go: the operations on the password, the front and engine
--                   keys and the named keys, and EnsureFirstRun with ensureIdentity
--   Engine/Boot     internal/engine/bootlog.go: `Feed` on the four lists of markers
--   Engine/Manager  internal/engine/manager.go: TryBegin, Finish, LastOp and the events
--   Engine/Snapshot internal/engine/snapshot.go: SnapshotInContainer on a `Disk`
--   Engine/Launch   internal/engine/spec.go: DockerArgs
--   Collector       internal/collector/vllm.go: QuantileWindow with interpolate (Window), the rings of
--                   HistState (History), Gauge, MaxGauge and histSnap (Metrics);
--                   internal/collector/sysproc.go and cgroup.go: the parsers of counters and the busy
--                   fractions (Proc); internal/collector/collector.go: SampleOnce, with the host and the
--                   container in Host and the engine in Scrape, Run and the subscriptions (Sampler)
--   Server/Ops      internal/server/server.go: engineOp and mustBegin with the handlers and the
--                   goroutines that are at work; a schedule is a list of requests and of their steps
--   Server/Access   internal/server/server.go: auth, bearer, hLogin, hLogout
--   Server/LogBus   internal/server/logbus.go: the rounds of `run`, publish, setRunning
--   Proxy/Registry  internal/proxy/registry.go: the live rows, the ring of finished ones, the ids
--   Proxy/Relay     internal/proxy/proxy.go: relaySSE and consumeData; a round of the `select` is one
--                   input
--   Proxy/Headers   internal/proxy/proxy.go: the headers that are forwarded and copied
--   Proxy/FrontDoor internal/proxy/proxy.go: ServeHTTP with the token count, the sampling defaults and
--                   relayJSON, and serveMessages of anthropic.go, up to the two loops that relay streams;
--                   the calls of the engine that a request makes are recorded in order
--   Proxy/Messages  internal/proxy/anthropic.go: buildOpenAIChat (Request), relayAnthropicJSON
--                   (Answer), the streamer and its loop (Stream)
--   Config/Types    internal/config/config.go: the tree, its defaults, IsLoopbackBind
--   Config/Validate internal/config/validate.go: Validate
--   Config/Adaptive validAdaptive of internal/config/validate.go and adaptiveRanges of
--                   internal/engine/spec.go
--   Config/Render   internal/config/render.go: Render, as the list of what it writes
--   Config/Profiles internal/profiles/profiles.go: Apply, FromEngine, ValidateName
--   Cli/Launch      internal/cli/launch.go: the plan and the environment of an agent, and the command launch
--                   from its flags to the program that runs (Command)
--   Service         internal/service/service.go: Install, Uninstall and Owned on the files of the units
--   Doctor          internal/doctor/doctor.go: the battery of Run, its order, and Preflight
-- The modules below each of these hold its theorems; a module Tests applies them to concrete inputs.
--
-- How the code is read. A time is its nanoseconds since the zero time, and an operation reads the
-- clock once, `hLogin` twice. A method that holds its mutex throughout is one step. Counters are
-- unbounded: no run reaches the wrap of 64 bits. A Go map is an association list with one entry for a
-- key, `IsMap`. Go's `int` is an integer where it may be negative. A string that is only compared is a
-- `String`; one that is searched is the list of its characters. Loops are structural recursion on
-- the list that they range over; the loop of `itoa` runs on the room of its buffer, 20 digits,
-- which every 64-bit number fits. The arithmetic of a quantile is taken as exact. An error that the code only passes on is a constructor.
-- Parameters stand for what is not of the repository: age, Argon2, SHA-256, JSON and the reading of a
-- limited stream (`Library`), the disk of the snapshots (`Disk`), regular expressions where they only extract or replace
-- (`shard_progress`, `strip_ansi`), `net.ParseIP` and the comparisons of floats (`Externals`),
-- the arithmetic of floats (`Floats`),
-- encoding/json (`Codec`, `Wire`, `decode`, `marshal`) and the transport to the engine (`Engine`). What
-- the random source, the file system, the clock and docker answer are arguments of the
-- operations, so a theorem holds for every answer.
--
-- A tick of the collector, with its broadcast, is one step, and a channel is the list of what it
-- holds. The report of the doctor keeps the names and the verdicts of its checks.
--
-- Not modelled: the percentage and the ETA of a boot, the channels of subscribers of the log bus,
-- the HTTP handlers that only render, the text of an error message of the front door, the messages
-- and hints of the doctor and its self-test of the vision lane, the reading of TOML, the chat and
-- bench clients, and the rest of the command line, which is prompts and wiring. A login is one
-- step of Server/Access; the bound on guesses takes its two calls of the lockout apart
-- (Auth/Limiter/Traffic), so that logins interleave. A call of the engine
-- is a function of the request that is sent, for the one request of the client that a run serves.
mod Base
pub mod Auth
pub mod Engine
pub mod Server
pub mod Config
pub mod Proxy
pub mod Collector
pub mod Cli
pub mod Service
pub mod Doctor
