-- ===== src/Lib.antt =====
-- The core of the QuantPro Collector, a Cloudflare Worker that serves quotes, portfolio state and a
-- research work queue: models of its modules under src/, and what is proved of them.
--
-- Workflow models src/research-workflow.ts. Rows has the rows of the D1 tables and the outcomes,
-- Tables the SELECTs and the predicates of the conditional writes. Claim, Submit (with
-- Submit/Handler) and Defer are claimResearchJob, submitResearchResultProposal and
-- deferResearchJob: programs of Db/Prog, that is sequences of accesses to the shared tables.
-- Between two accesses other calls may run, and any access may fail; a batch is one transaction.
-- Receipts is listResearchJobReceipts, after its cursor is decoded (Cursor) and with the mapping of
-- migrations/0007_research_receipt_order_v3.sql, which its triggers fill. Proposal and Canonical
-- are validateProposalStructure, canonicalJson and prepareProposal. Lifecycle says which steps the
-- job table may take, without any handler; Safety shows that the handlers take only these steps,
-- and Behaviour what single calls and batches answer and write.
--
-- Portfolio models src/portfolio-delta.ts: Codes the validators of hashes, timestamps and codes,
-- Delta the baseline, the delta and reducePortfolioUniverseDelta, Store the two keys of the KV
-- namespace and recordPortfolioUniverseObservation.
--
-- Quota models the quota modules: Dimensions src/quota-dimensions.ts, Admission
-- src/quota-admission.ts, Metering src/quota-metering.ts and the observer of
-- src/quota-resource-adapters.ts, Billing src/quota-billing.ts, and Entrypoints
-- src/quota-entrypoints.ts. Retry models src/research-read-retry.ts and
-- src/state-ledger-read-retry.ts. Kv models src/d1-oauth-kv.ts: its rows are those of the SQL
-- table, and a text is compared by its code points, as SQLite's bytes are.
--
-- State models src/state-gateway.ts and src/state-receipts.ts, again as programs of Db/Prog: Errors
-- the error codes and mapDomainError, Receipts the rows of state_write_receipts_v1, their lease and
-- reserveStateWrite, Close validateCloseDependencies, Batch validateStateBatch, and Gateway
-- appendStateBatch. Its proofs are History and Calls (what any calls leave of a receipt), Alone and
-- Outcome (a call with nothing in between), Lost (a failed update) and Chain (which CLOSE batches
-- pass). The schemas, the digests and the two remote ledgers with their validators are the record
-- Ledgers, of which nothing is assumed.
--
-- Runs models src/run-envelope.ts and what it uses of src/automation-run-ledger.ts: Rows the rows
-- of automation_runs_v3 and its statements, Envelope the envelope and the derivation of the
-- outcome, with Envelope/Identity, Envelope/Replay (stored runs and refusals) and Envelope/Process,
-- which is processRunEnvelope. The record Platform has the schema, the digests and the channels'
-- commands, which work on the rest of the store. Runs/History and Runs/Calls say what any calls
-- leave of a run, and Runs/Once what the second call with an envelope does.
--
-- Audit models beginAutomationRun, endAutomationRun and recordAutomationRunEvent of
-- src/automation-run-ledger.ts: Audit/Runs the rows and the first two calls, Audit/Events the older
-- events, Audit/Follows and Audit/History what any calls leave of a run, and Audit/Twice an end
-- that is called twice.
--
-- Issues models src/issue-bookkeeping.ts: Command the schema and the whitelist, Rows the data,
-- Submit submitIssueBookkeeping with GitHub as a parameter; Delivery and Twice are about when
-- GitHub is called.
--
-- Retention models src/research-retention.ts over the tables of the research replica, the object
-- bucket and the vector index: Rows the data, Mark retentionExpiryReason, captureVersions,
-- markExpiredDocument and listExpiredPendingPurge, Scan scanRetentionCandidates, Purge
-- purgeExpiredDocument, and Sweep runRetentionSweep with its audit row. Shared and Guard are about
-- the contents that a purge deletes, History, Calls and Swept about the retention table under any
-- calls, and Again about a document that comes back. The captured lists, which are stored as JSON,
-- are lists; a scan reads at most ten pages of 200 documents, as the code does.
--
-- An instant is a natural number of milliseconds; the normalised ISO texts that the code compares
-- are ordered as these numbers are. Date.parse, toISOString, the printing and parsing of JSON,
-- base64, SHA-256, the outbound payload check and random ids are parameters. Amounts of usage are
-- whole numbers of a fixed fraction of their unit, where the code adds floating-point numbers.
-- Loops are bounded by the code itself: a claim makes at most two attempts, a retry has one attempt
-- more than delays. A consumer of pages is given as many pages as there are rows left, which is
-- enough as every page but the last is full.
--
-- Not modelled: logging, error texts, the creation of tables with the import of older audit rows,
-- unique indexes that only colliding random ids could violate, the summaries of the state gateway
-- that only read, a whitelist entry named __proto__ (which would change what the whitelist
-- inherits), the proxies around the bindings, the deletion of a version's vectors in the semantic
-- index (a parameter of the purge), the classing of backend errors by their messages, and the
-- Worker's other modules, which are mostly requests to other services.
pub mod Prelude
pub mod Db
pub mod Json
pub mod Workflow
pub mod Portfolio
pub mod Quota
pub mod Retry
pub mod Kv
pub mod State
pub mod Runs
pub mod Issues
pub mod Retention
pub mod Audit
