-- ===== src/Lib.antt =====
-- Models and proofs for the core of altclaw, an AI agent orchestrator in Go: an agent sends the
-- user's messages to a language model, runs the code blocks of the responses in an embedded
-- JavaScript engine, and feeds their results back until the model answers. Around it stand a
-- limiter of requests, the tasks that scripts run on queues, a manager of scheduled jobs, a store
-- of secrets, a check of file paths, a guard of outgoing connections, a manager of persistent
-- connections whose events run scripts, a server of scripts by request path, a server of the
-- workspace's tools, a web server with logins, public files and chats, a search in memories, and a
-- ring of log records that scripts can read.
--
-- How the files correspond to the program:
--   * Agent and its children: internal/agent/agent.go. Agent has the messages, the window of earlier
--     turns, compaction and the ledger's previews; Agent.Blocks the code blocks of a response;
--     Agent.World what a turn meets and does; Agent.Turn the steps of a turn (Calls: the provider,
--     Exec: the code blocks, Feedback: what the model is told, Loop: the loop); Agent.Gate the limits
--     before a turn; Agent.Send the whole of `Send`; Agent.Stream the filter of a streamed response,
--     apart from the turn, whose model takes the response as a whole.
--   * Settings: internal/config/store_settings.go, the settings that the agent and the gate of Paths
--     read.
--   * RateLimit: internal/util/ratelimit.go, which Agent.Gate calls.
--   * LogRing: internal/bridge/log.go. LogRing.Search calls Memory for the words of a text.
--   * Netx: internal/netx/dialer.go. ConnMgr.Registry calls its `ValidateURL`.
--   * ConnMgr and its children: internal/connmgr/connmgr.go. ConnMgr has the goroutine of one
--     connection, ConnMgr.Errors which errors are worth another try, ConnMgr.Registry the manager's
--     map and its rows in the store, ConnMgr.Sse the events of a server.
--   * ServerJs and its children: internal/serverjs/serverjs.go. ServerJs has the search for a script,
--     ServerJs.Cache the cache of its results.
--   * Tasks and its children: internal/bridge/task.go, the tasks that a script runs, their queues and
--     handles. Each task's goroutine and the script are steps that may be taken in any order.
--   * Cron and its children: internal/cron/cron.go, the manager of scheduled jobs with the rows of its
--     store; Cron.Steps has everything that happens after a job is added.
--   * Secrets and its children: internal/config/secret.go, internal/bridge/secret.go and
--     internal/config/profile.go. Secrets has the store, the placeholders and the pattern they match,
--     Secrets.Profile what a hub's profile brings.
--   * Paths and its children: internal/bridge/path.go, internal/bridge/pathcheck.go and
--     internal/util/approval.go, the paths that the bridges accept, and the files they ask for. A path is
--     the list of its components.
--   * Pool and its children: internal/bridge/pool.go and internal/bridge/blob_pool.go, the pools of open
--     connections. `DBPool.Get` calls Paths for the files of SQLite.
--   * Web and its children: web/api.go, web/passkey.go and web/server.go. Web has the sessions,
--     Web.Login the logins and a call of the API, Web.Public the files and scripts of the public
--     directory. Web.Public calls IpFilter, Paths and ServerJs. Web.Events (web/events.go) has the hub
--     that sends events to browsers, and Web.Chats (web/api_chat.go) the sessions of chats; ConnMgr.Sse
--     reads what Web.Events sends.
--   * Mcp and its children: internal/mcp/server.go and internal/mcp/jsonrpc.go, the workspace's tools for
--     other programs, with the code that a call of a tool gives to the engine.
--   * Memory and its children: internal/bridge/mem.go, the search in the memories of the workspace and
--     the user. The score of two texts, which is a number with a fraction, is compared by its square.
--   * IpFilter: internal/util/ip.go, and the combined list of addresses of
--     internal/config/store_settings.go.
--   * Common: text as lists of bytes, maps as association lists, and shared lemmas.
--
-- How the code is translated. A method that changes its receiver returns the new state. What a
-- method does to the outside is a list of effects in the state. What it learns from the outside (a
-- response of the provider, the result of a run, a cancellation, a dialed connection) is a function
-- of the number of observations made so far, so that a theorem holds for every behaviour of the
-- outside. Errors are values. Regular expressions but the one for placeholders, cryptography, name
-- resolution, the file system, JSON and `sort.Slice` are parameters; four laws are stated of them:
-- that sorting keeps the candidates for a script and orders them, that what the hub's side of the
-- cryptography seals can be opened, that `strconv.ParseInt` stays in its range, and that the random
-- texts that the web server draws in a run are different. Times are nanoseconds.
--
-- Bounds and fuel. `Agent.Turn.Loop.loop` counts the iterations that are left, from `MaxIter`, and
-- ends with the code's own message after the last; a call of the provider is tried 3 times, as in the
-- code. `ConnMgr.rounds` runs a number of rounds that the theorems leave open. All other recursions
-- are structural.
--
-- Steps in any order. Where goroutines, timers and callers meet (Tasks, Cron, Pool, Web), an `Event` is
-- one step of one of them, `step` is none when it cannot be taken, and `run_all` takes a list of them: a
-- theorem about every list holds for every schedule. A step is one call, or what a goroutine does
-- between two points where it waits.
--
-- Not modelled: sub-agents; calls that interleave between the locked parts of one operation, but for
-- the sessions of chats, where the recording of an event and its broadcast are two steps; broadcasts
-- that reach two clients in different orders; `List`, `Stop` and the reaper of the connection manager; the request and
-- response objects of server scripts; the masking of secrets in recent messages; the files, the
-- registration of passkeys (whose challenges share the map of the logins' challenges) and the push
-- messages of the web server; the other bridges, the executors,
-- the providers, the store and the terminal interface, which are I/O around libraries.
pub mod Agent
mod Common
pub mod ConnMgr
pub mod Cron
pub mod IpFilter
pub mod LogRing
pub mod Mcp
pub mod Memory
pub mod Netx
pub mod Paths
pub mod Pool
pub mod RateLimit
pub mod Secrets
pub mod ServerJs
pub mod Settings
pub mod Tasks
pub mod Web
