-- ===== src/Lib.antt =====
-- pooml stores logs and metrics in SQLite and serves queries, live tails, dashboards and alerts
-- over them. Here its core is modelled: how logs and metrics travel from an HTTP request to
-- their rows, who may log in and stay logged in, which API keys are accepted, which queries are
-- run and how they are rewritten, and how a metrics query becomes SQL.
--
-- Ingestion (ingestion/)
--   Ingestion.Pipeline is ingestion/pipeline.go: the handlers in TryIngest, the parser workers,
--   the fan-out, the batch writer and Shutdown, each an atomic step of a thread on one state. A
--   blocked thread stays where it is, and a theorem about all lists of actions is one about all
--   schedules. The channels hold what was sent and not received; their sizes and the budget of
--   256 MiB are those of the code. Ingestion.BatchWriter is batchWriter and flushBatch; that an
--   INSERT fails is an argument, and a failed one stores nothing. Below the pipeline stand its
--   proofs: Budget for the byte counter, Closing for the order of Shutdown, Order for the path
--   behind the workers and Conservation for the whole. The payload parser is an argument of the
--   pipeline. Ingestion.Parsers, with Lines and Fluentbit below it, is ingestion/parsers.go and
--   ingestion/fluentbit.go: parsePayload down to each line. What these take from Go's standard
--   library (encoding/json, time.Parse, the two regular expressions, float64) is the record
--   Stdlib, of which nothing is assumed. A decoded object is an association list. The loop over
--   lines runs on fuel; its length plus one is enough, since each round takes a byte at least.
--   Ingestion.Broadcaster is ingestion/broadcaster.go: the fan-out hands every log to it, and
--   each subscriber has a buffer of 100; Delivery is about one call, Interleaved about many.
--   Common is StandardLog and ClampTimestamp of common/, the one value that passes through all
--   of these.
--
-- Services (services/)
--   Services.Throttling is services/throttling.go and Services.Sessions is
--   services/sessions.go. A Go map is an association list (Dict), whose order stands for the
--   order of one range over it. The mutex makes each call one step. Services.Alerts is evaluate
--   of services/alerts_evaluator.go with the updates of services/alerts.go, and
--   Services.Alerts.Tick its tick with the goroutines in flight: each round, evaluation and end
--   is a step. The clock is an argument, in milliseconds as a natural number: it is far below
--   2^63, so sums of it with the constants do not wrap. Event times of logs come from users, so
--   Common keeps them as int64 values with the wrap-around written out.
--   Services.ApiKeys is services/apikeys.go: calls of Create, Verify and Revoke as steps of one
--   state, each between two accesses to the database, the cache or the lock. Below it, Format
--   has the texts of keys and hashes, Secrets is about reading them back, Invariant and
--   Accepted about what Verify accepts, Gone and Revocation about revoked keys. The
--   cryptographic functions are the record Stdlib.
--   Services.Scraper is services/scraper.go from a response to the rows, with the targets'
--   table of services/scrapetargets.go in Services.ScrapeTargets. Services.Settings,
--   Services.Encryption and Services.Retention are the files of these names; the deletion of
--   expired rows runs on fuel, one for each round: a round that is not the last deletes 10000,
--   so that is enough which outweighs the expired rows that are there and those that arrive in
--   these rounds.
--
-- Endpoints (api/)
--   Api.Otlp is api/otlp.go, from the request to the rows that it pushes and the status of the
--   answer. Decoded messages are records of the fields that the code reads.
--
-- Queries (query/)
--   Query.Dsl is ParseDSL of query/dsl.go and Query.Dsl.Sql its generation of SQL. A query is
--   text as a list of code points (Strings has Go's string functions over them), errors stand
--   for their messages, and milliseconds are 64-bit patterns. The head expression is read by
--   hand, with the choices that Go's regexp makes.
--   Query.Ast is the tree that the SQL parser, a library, returns; nodes that the code does not
--   look at are one constructor. Query.Walk is the order in which its visitor sees the nodes.
--   Query.Validate is query/validate.go, Query.Rewrite is query/rewrite.go and Query.Execute is
--   query/execute.go. Below Query.Rewrite, Meaning reads a WHERE clause as a predicate of rows,
--   whose atoms are arguments.
--   Query.Fts is query/fts.go.
--
-- Metrics (metrics/)
--   Metrics.Pipeline is metrics/pipeline.go in the manner of the ingestion pipeline: TryPush,
--   the writer and Shutdown take turns on one state. Metrics.Writer is the writer's flush loop.
--   It runs on fuel; one more than the rows buffered is enough, since an INSERT that succeeds
--   takes a row at least. Metrics.Row is a row and what is bound for it; the OTLP endpoint and
--   the scraper make such rows.
--
-- Shared: Base (numbers, lists, Booleans, Int for signed integers), Bytes, Dict, Strings, and
-- Sql for the text of a multi-row INSERT. Tests and Services.Throttling.Tests hold concrete
-- runs.
--
-- Not modelled: the tickers, the loop that starts scrapes, dashboards, notifications, backups,
-- the other endpoints and the pages; nor the templates, which are generated; db/ and main.go,
-- which configure and start; SQLite, HTTP, JSON, regular expressions, cryptography and time
-- zones, which are libraries.
pub mod Base
pub mod Bytes
pub mod Dict
pub mod Common
pub mod Sql
pub mod Strings
pub mod Services
pub mod Api
pub mod Ingestion
pub mod Query
pub mod Metrics
mod Tests
