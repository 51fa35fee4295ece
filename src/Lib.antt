-- ===== src/Lib.antt =====
-- SilenceWatch: a model of the server's core (packages/server/src). A monitored job sends
-- heartbeats; the server records them, notices those that do not come, opens incidents and sends
-- alerts. The parts meet in the tables of the database (Tables.antt): ingestion writes the state of
-- a check and its next deadline, detection moves overdue checks and opens or resolves incidents,
-- and the queue turns incidents into alerts.
--
-- * RateLimiter (common/rate-limiter.ts): `hit`, `exceeded`, `size`, `reset` and the eviction, on
--   an association list in insertion order (OrderedMap), which stands for the source's Map.
-- * Schedule (schedule/next-due.ts): `compute_next_due_at` and `compute_deadline`. The search of
--   `cron-parser` for the next match is an argument, `Cron`.
-- * Cache (ingest/check-metadata.cache.ts): `get` in two halves, `get_cached` before the query and
--   `finish_load` after it, so that a second call can stand between them.
-- * Ingest (ingest/ingest.service.ts and ingest/ingest.plugin.ts): Values holds the helpers, Sql the
--   statement INGEST_SQL, Routes the routes and the responses, and the root the path of a heartbeat.
--   Node's UTF-8 decoder is an argument.
-- * Queue (notifications/notification-queue.service.ts): `enqueue` in the root and the delivery pass
--   in Queue/Drain. What the senders answer is a field of the pass.
-- * Detection (detection/detection.service.ts): `tick` and its three statements.
-- * Runner (common/interval-runner.ts): the repeating task, cut at its `await`.
-- * Sync (checks/check-sync.repository.ts and checks/check-sync.service.ts): the upsert of declared
--   checks, the orphan flag and the plan ceiling, and in Sync/Declaring the rows of a payload.
-- * Access (access/): who may touch which project.
-- * Quotas (quotas/quota.service.ts) and Quotas/Enforcer (quotas/quota-enforcer.service.ts): the
--   limits of a plan, and the loop that pauses and resumes checks.
-- * Billing (billing/stripe-events.ts, billing/billing.repository.ts, billing/stripe-signature.ts):
--   subscription events, and the signature of the requests that carry them.
-- * Recovery (ingest and detection): what a heartbeat means for an outage.
-- * Checks (checks/checks.service.ts, checks/check-schedule.ts, checks/checks.repository.ts): what
--   users do to checks, on the tables of the enforcer and the cache of ingestion.
-- * Pages (checks/pagination.ts, checks/check.mapper.ts) and Slugs (common/slug.util.ts,
--   checks/check-slug.ts): cursors, and names in URLs.
-- * CronSyntax (packages/shared/src/cron.ts): which cron expressions are accepted.
-- * SafeHttp (notifications/safe-http.service.ts): requests to URLs that users supply; the network
--   is an argument.
-- * Retention (retention/retention.service.ts): the purge of pings, incidents and deliveries.
-- * Signup (auth/signup/, with the hooks of auth/better-auth/auth.factory.ts): the networks of
--   addresses, the rules for new accounts, and the link of the administrator.
-- * Lockout (auth/lockout/login-lockout.service.ts): the lockout after wrong passwords.
--
-- Texts are lists of bytes, or of code units where white space is cut off; ids and instants are
-- numbers, an instant counts milliseconds since the epoch. A statement of the database is a
-- function of the tables, of its own `now()`, and, with SKIP LOCKED, of the rows that others hold;
-- the rows of one statement keep the order of the table.
-- A statement runs alone: what two of them do at once is the sequences of both orders, with rows
-- locked. Loops are recursive on their rows; the batches of `advance_overdue_checks` are counted by
-- the 25 of the source; the decimals of a message run on fuel that is the number itself.
--
-- Not modelled: a database that fails, logging, emails and audit entries, the timers that call the
-- passes, and the parts of the repository that are not listed above.
pub mod Prelude
pub mod OrderedMap
pub mod RateLimiter
pub mod Schedule
pub mod Tables
pub mod Cache
pub mod Ingest
pub mod Queue
pub mod Detection
pub mod Billing
pub mod Quotas
pub mod Access
pub mod Runner
pub mod SafeHttp
pub mod Sync
pub mod Lockout
pub mod Pages
pub mod Slugs
pub mod Checks
pub mod Retention
pub mod Signup
pub mod Recovery
pub mod CronSyntax
