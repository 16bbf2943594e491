-- ===== src/Lib.antt =====
-- The wallet of this repository: services/wallet-service, a Go service in front of stored procedures
-- that post money movements, and services/outbox-relay, which carries the events that the postings
-- leave in WLT_OUTBOX to Kafka. A request passes the middleware chain, which finds out who calls; a
-- handler calls the repository, which runs a stored procedure in a transaction and maps every error
-- of the driver to a domain error; the handler renders that as a problem body. The relay claims rows
-- of the outbox, publishes them and stamps the outcome, by polling or behind a CDC connector.
--
-- Which file models what (paths from services/wallet-service/internal unless given in full):
--
-- Errors: domain/errors.go; Errors/Codes: its code constants; Errors/Meta: domain/iso20022.go, the
--   registry `codeMeta` and MetaFor, IsClientSafeCode, TxStatusForMark, ReasonFor.
-- PgErrors: repo/errors.go, mapPgError with parseSPMessage and pgDomainError, and mapErrIfPg of
--   repo/postgres.go; PgErrors/Status: httpStatusFor; PgErrors/Mapping and PgErrors/Families hold the
--   laws.
-- Problem: http/dto/dto.go and renderError of http/handler/handler.go; laws in Problem/Leaks and
--   Problem/Raised.
-- Tx: repo/postgres.go, setAuditGUCs, runTx, withTx, readWithDEK; laws in Tx/Attempt and Tx/Retry.
-- Posting: repo/postgres.go, how a method runs one stored procedure with a result; Posting/Types:
--   domain/types.go; Posting/Finance: Topup, Transfer, Withdraw, MerchantWithdraw; Posting/Treasury:
--   Reverse and the marks; Posting/Reversals: repo/reversal.go; Posting/Fees: repo/fee.go and
--   MerchantDeposit of repo/group.go; Posting/Restraints and Posting/Journals: the writes of
--   repo/restraint.go and repo/manual_je.go; Posting/Metadata: orEmpty and withNarrative; laws in
--   Posting/Committed and Posting/Metadata/Narrative.
-- Service: usecase/wallet.go; Service/Reversals: reversal.go, fee.go and group.go; Service/Decisions:
--   restraint.go and manual_je.go. Requests: the rules and responses of http/dto and the validators of
--   http/server.go, with laws in Requests/Formats/Patterns and Requests/Binding. Handlers: http/handler,
--   from the bound request to the response, with laws in Handlers/Sent, Handlers/Posted,
--   Handlers/Answered and Handlers/Decided.
-- Janitor: janitor/withdraw.go, partition.go and retention.go; laws in Janitor/Retention/Drained.
-- Pages: the lists with a cursor: the clamp, the query parameters, the SELECT on the rows, and the
--   cursor; Pages/Journals: ListManualJE of manual_je.go in http/handler, usecase, repo and http/dto;
--   Pages/Restraints: ListRestraints of restraint.go there; Pages/Single: the reads by id;
--   laws in Pages/Walk, Pages/Journals/Cut and Pages/Journals/Followed.
-- Auth: http/middleware, with Auth/Tokens (gateway.go, jwt.go), Auth/Identity (middleware.go),
--   Auth/Roles (rbac.go) and Auth/Chain (the order of http/server.go); laws in Auth/Roles/Holders,
--   Auth/Tokens/Padding, Auth/Chain/Trust and Auth/Chain/Refusals.
-- Outbox: services/outbox-relay/internal/domain/outbox.go; Outbox/Table: repo/outbox.go, the statements
--   as functions on the rows, with laws in Claims, Order and Commits; Outbox/Backoff: the wait in the
--   claim;
--   Outbox/Polling: usecase/polling.go, with laws in Loop, Settled, Outcomes, Batches, Attempts and
--   Counts;
--   Outbox/Cdc: usecase/cdc.go and kafka/consumer.go, with laws in Redelivery.
-- Relay: services/outbox-relay/internal/config/config.go, the readers; Relay/Load: LoadConfig; law in
--   Relay/Loaded.
-- Debezium: services/outbox-relay/internal/debezium/connector.go; Debezium/Config: the configuration;
--   Debezium/Manager: Ensure, Status, Pause, Resume and Delete; law in Debezium/Registered.
-- Eod: eod/scheduler.go, parseClock and atoiRange; Eod/Schedule: New, nextFire and runOnce; laws in
--   Eod/Clock and Eod/Schedule/Daily.
-- Prelude: shared names, Boolean tests, lists over the native numbers, and Go strings.
-- Witnesses: the theorems at concrete inputs, and test data.
--
-- State is passed explicitly. An `error` is a value of `GoError`, with `nil` for none; a chain of
-- wrapped errors is the nesting of its constructors. The database, the broker, the clock, the
-- request's context, base64, JSON and the token parser are parameters: pgx is the record `Driver`,
-- whose calls return any error and any state; the stored procedures are the record `Procedures`, the
-- validation engine the record `Engine`, the pool of a janitor the record `Jobs`, the read pool of the
-- lists the records `Ledger` and `Store`, Kafka Connect the record `Client`, the floating-point
-- arithmetic of the claim the record `Floats`; a broker answers each publish with a position or a
-- text. The loop of withTx is recursion on the retries that are left, which the source bounds by
-- txMaxRetries, so no fuel is chosen; the loop of the purge is recursion on fuel, one more than the
-- aged rows, of which each round but the last removes at least one; the loops over events and messages
-- are recursion on the list. A client that follows the cursors of a list has fuel for one page more
-- than there are rows.
--
-- Times are numbers of nanoseconds, and where the source computes in an int64 (the total of a purge)
-- the wrap is written out. Identifiers, attempts and offsets are natural numbers; an id in a path may
-- be any integer of 64 bits.
--
-- Not modelled: the SQL of the schema and of the stored procedures, the other methods of the
-- repository and their handlers, which copy fields between structs, generated documentation, metrics
-- exporters, tracing, logging, process wiring and deployment. Of the middlewares, FlowID, WithTimeout,
-- Recovery and the choice of the key in buildKeyFunc are left out; of the relay, the goroutines around
-- processBatch; of the scheduler and of the janitors, the loops of their timers.
pub mod Auth
pub mod Debezium
pub mod Eod
pub mod Errors
pub mod Handlers
pub mod Janitor
pub mod Outbox
pub mod Pages
pub mod PgErrors
pub mod Posting
pub mod Prelude
pub mod Problem
pub mod Relay
pub mod Requests
pub mod Service
pub mod Tx
pub mod Witnesses
