-- ===== src/Lib.antt =====
-- Verification of bagualu, a manager of proxy nodes: a Go service that tests nodes through a Mihomo
-- core and offers the good ones as subscriptions, and its admin console in TypeScript.
--
-- How the parts work together. Queue is TestQueue (internal/application/queue.go), on which every
-- measurement waits: its functions are the regions under the mutex, and Queue/Worker puts them in
-- sequence as the worker and its callers do. Orchestrator (internal/application/orchestrator.go)
-- wraps each job that the queue runs: beforeAttempt, the attempts and retries of wrapJob,
-- validateOutcome; the answers of the checkers and of job.Run in each attempt are its argument.
-- Load is internal/application/network.go, the guard of the exit's load and the baseline that it
-- asks. Dispatch is its Submit, Cancel and deliver, on the queue and the map of jobs.
-- Circuit is EndpointCircuit (internal/application/endpoint_circuit.go), which is asked before a
-- node is tested and told its outcome. Resource is SelectWithReasons
-- (internal/modules/resource/filter.go), which chooses the nodes of a subscription by their scores.
-- Process is ProcessManager (internal/infrastructure/mihomo/process.go), which starts the core and
-- restarts it, and Names is uniqueName (internal/modules/subscription_output/render.go).
-- Planner is AutomaticTestPlanner (internal/application/automatic_tests.go), which chooses the test
-- that the service starts by itself. Auth is internal/transport/http/auth.go: sessions, login and
-- password of the admin, which the console's api.ts talks to. Access is apikeyRequired beside it with
-- the tests of internal/domain/apikey.go, subscription_link.go and job.go.
-- Scheduler is internal/application/scheduler.go, whose timers start the refreshes and the Planner.
-- Logging is Buffer (internal/infrastructure/logging/buffer.go), the log that the console shows.
-- Logging/Writer is its writer, which cuts a stream into lines, and Logging/View is writeLogs
-- (internal/transport/http/handlers_system.go), which serves it with the jobs of the tests.
-- Refresh is UpstreamRefresher (internal/application/upstream_refresh.go) on the tables of the
-- database that it changes: Refresh/Store has the statements of
-- internal/infrastructure/persistence, Refresh/Fetch the download, Refresh/Import what is done with
-- each node of a subscription, and Refresh/Prune what is done with the nodes that it no longer has.
-- Refresh/Runner is the runner with the job around it, for which Jobs has the record.
-- Scoring is CalculateScore (internal/domain/scoring.go) and the score that Recalculate
-- (internal/application/scoring.go) saves, by which Resource chooses; Scoring/Service is the service
-- and the runner around it.
--
-- Web is the console (web/admin/src): Web/Api is api.ts, and the other children model main.tsx:
-- Web/App its App with the menu and who is signed in, Web/UseApi the hook useApi, Web/Ui the
-- state, effects and failures of the asynchronous handlers, Web/Upstreams, Web/Nodes,
-- Web/Subscriptions and Web/Pages the handlers of the pages, Web/Nodes/Filter the rows of the node
-- page, Web/Number and Web/Format the formatters, Web/Traffic the chart of Runtime, Web/Logs the
-- log page, whose request Logging/View answers, Web/History the measurements of a node, and
-- Web/Dashboard the dashboard with the tags of states.
--
-- Conventions. Numbers are natural; where the source has a signed one that acts as 0 below 0, a
-- comment says so. Counters and IDs do not wrap in the model. Times are numbers of nanoseconds, and
-- the zero time is `none`. float64 is an abstract type with its operations in Resource and Base/Floats,
-- and a whole number of binary steps in Web/Number. The functions of package strings,
-- encodeURIComponent, the parser of subscriptions and the answers of servers are parameters; which
-- statements the database refuses is an argument of Refresh. The loop of wrapJob recurses on the
-- attempts that are left, and so ends; `drain` of Queue/Drain has fuel, for which more than the
-- number of pending tasks is enough, `run_worker` of Queue/Live has fuel for twice the pending tasks
-- and five steps more, `flush` of Logging/Writer for one line more than there are bytes held, and
-- `search_name` of Names for one test more than there are used names, which is enough.
--
-- Not modelled: the rest of the service (geolocation, the formats of subscriptions,
-- the installer and client of the core, most HTTP handlers, the repositories but for the statements
-- that Refresh issues, and the operating system's processes); rendering and styles of the console;
-- the built bundle under internal/transport/http/static, which the build makes of web/admin; and the
-- OpenWrt package.
pub mod Access
pub mod Base
pub mod Auth
pub mod Circuit
pub mod Dispatch
pub mod Jobs
pub mod Load
pub mod Logging
pub mod Names
pub mod Orchestrator
pub mod Planner
pub mod Process
pub mod Queue
pub mod Refresh
pub mod Resource
pub mod Scheduler
pub mod Scoring
pub mod Web
