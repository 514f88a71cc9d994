-- ===== src/Lib.antt =====
-- A model of live-actions, the dashboard of GitHub Actions runners that is written in Go, and what
-- is proved of it.
--
-- The way of a delivery. A delivery comes in over HTTP (handlers/webhook_handler.go, Webhook.antt:
-- the signature check and Handle) or over a WebSocket relay (internal/services/ghws/subscriber.go,
-- Ghws.antt), and both hand it to Ingest (Webhook.antt), which makes an OrderedEvent of it and
-- puts it on the channel of the ordering service (internal/services/event_ordering_service.go,
-- Ordering.antt). The ingest worker gives each event to processOrderedEvent, which runs a handler
-- (handlers/workflow_job_handler.go, handlers/workflow_run_handler.go, Handlers.antt) that writes
-- workflow_jobs or workflow_runs (internal/database/workflow.go, Database/Jobs.antt and
-- Database/Runs.antt) and tells the clients (handlers/sse_handler.go, Sse.antt). What fails is
-- spilled to webhook_events (internal/database/event.go, Database/Events.antt) and replayed from
-- there.
--
-- Files. Base.antt holds the shared names, lists, tables and texts, Base/Keys.antt tables without
-- double keys, Base/Sort.antt what ORDER BY and LIMIT do, Base/Groups.antt and Base/Pigeon.antt
-- what GROUP BY does, Base/Split.antt texts that are cut and joined, and Failure.antt Go's errors.
-- Models.antt and Models/Status.antt are the package models. Database.antt has the tables and the
-- statements that all stores share; Database/Transition.antt has the transition rule that
-- AddOrUpdateJob and AddOrUpdateRun each write out, and the abstract rule of the lifecycle. The
-- stores' Refinement.antt files relate the methods to that rule, their Order.antt files say what
-- follows for sequences of calls. Database/Cleanup.antt has CleanupOldData and CleanupStaleJobs,
-- Database/Queries.antt the lists of the dashboard, Database/Snapshots.antt and
-- Database/Summary.antt the queries of internal/database/metrics.go, Database/Analytics.antt and
-- Database/LabelDemand.antt those of failures and labels, and Database/Migrations.antt
-- RunMigrations of internal/database/db.go, whose InitDB and buildDSN are in Database/Setup.antt.
-- Database/Events/Replay.antt and Queue.antt are about what a fetch of pending rows hands out.
-- Handlers/Frame.antt, Outcome.antt, Permanent.antt and Reliable.antt are about
-- processOrderedEvent. Ordering/Bounds.antt and Ordering/Schedule.antt are about the ingest
-- pipeline under any interleaving of its callers and its worker, Ordering/Drain.antt about
-- flushAll, and Pipeline.antt composes Ingest, both workers and Stop; Pipeline/Effect.antt and
-- Pipeline/Conclusions.antt follow a delivery through it to its job's row and to the counted
-- conclusions, by Handlers/Effect.antt and Handlers/Conclusions.antt. Sse/Stream.antt and
-- Sse/Delivery.antt follow an event to a client, and Server/Access.antt is about who may do what
-- over HTTP. Api.antt is handlers/api.go, with the origin checks in Api/Origin.antt, the charts in
-- Api/Analytics.antt and handlers/health_handler.go in Api/Ready.antt; Api/Pages.antt is about a
-- client that reads all pages. CleanupService.antt is internal/services/cleanup_service.go,
-- MetricsUpdate.antt internal/services/metrics_update_service.go. Logger.antt and Utils.antt are
-- pkg/logger and internal/utils. Config.antt and Config/Durations.antt are
-- internal/config/config.go, Ghws/Start.antt relates it to the subscriber's own check,
-- Ghws/Hooks.antt has the subscriber's requests, Metrics.antt and Metrics/Collectors.antt are
-- pkg/metrics, Middleware.antt is internal/middleware, and Server.antt has the shutdown of
-- cmd/server, Server/Routes.antt its middleware and routes, and Server/Lifecycle.antt SetupAndRun
-- from its start to its end, which leaves the HTTP server and the signal listener running. Tests.antt and its children run the model at concrete inputs.
--
-- State. The database is a record of four tables; a table with a primary key is a list of rows,
-- one for each key. Each call of the driver may fail: `faults` says which of the calls to come do,
-- and past its end none does. A transaction restores the tables when it does not commit. The
-- service is a record of its channel, its spill buffer and its limits, with the database, the
-- metrics and the SSE handler in `App`. Go methods that change state are functions from the state
-- to a result and the new state.
--
-- Conventions. Times are whole seconds in UTC, and 0 is Go's zero time. Timestamps in the tables
-- keep their format, RFC3339 or SQLite's own, because the code compares them as texts. A status is
-- a constructor for each constant of the package models, or any other text. Subtraction of a
-- period from the time of day stops at 0, which no real clock is near. The labels column stands
-- for its JSON array. An AddEvent call has its effect when it returns; locks only serialise, so
-- that each operation is one step. The coalescer's map is flushed in the order of its table, where
-- Go leaves it open.
--
-- The order of the groups of an SQL GROUP BY without ORDER BY is that of their first rows from the
-- end. Averages and rates are exact, where the code has floating-point numbers, the zone of the
-- process is UTC, and the rows of a table whose timestamps are equal keep an order that SQL leaves
-- open.
--
-- Parameters. JSON decoding (`Decoder`) and encoding, HMAC-SHA256, url.Parse, time.Parse, the
-- random token of a session, gin's router, whether a pool opens and answers a ping, the number of
-- processors, Prometheus' registerer, zap's order of levels, the files of the directory
-- internal/database/migrations and, in the subscriber, the answers of the remote side and the
-- ingester are arguments of the definitions that use them. The environment is a function.
--
-- Bounds. flushReadyEvents has the 20 iterations of the code. flushAll loops on fuel and answers
-- `none` where it runs out; one more than the pending rows is enough, since each round settles one
-- row at least. The client of the pages asks for one more page than there are runs at most. The
-- retries of StoreWebhookEvent are the 3 of the code.
--
-- Not modelled: the writing of the log, timing histograms, recovery from a panic, the embedded
-- files of the frontend, the gauges that closures give at a scrape, FormatDuration, which computes
-- with floating-point numbers, and the test double of the database. A failing RowsAffected and a
-- nil event in a batch are not modelled either.
pub mod Base
pub mod Models
pub mod Failure
pub mod Database
pub mod Logger
pub mod Metrics
pub mod Sse
pub mod Handlers
pub mod Api
pub mod Ordering
pub mod Utils
pub mod Webhook
mod Tests
pub mod Config
pub mod CleanupService
pub mod MetricsUpdate
pub mod Middleware
pub mod Server
pub mod Ghws
pub mod Pipeline
