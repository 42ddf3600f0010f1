-- ===== src/Lib.antt =====
-- The Balcony Agent Bridge: messages between two agent systems, kept in a durable store.
--
-- A node keeps its outgoing messages in an outbox and the received ones in an inbox, both tables of
-- one SQLite database (src/storage/database.ts). A worker leases outgoing messages and sends them,
-- and takes deliveries in; agents claim received messages under a token and a term, and settle
-- them, with a reply that goes to the outbox in the same transaction. A message that asks for a
-- resource is let through by a grant, or waits for a person's decision.
--
-- How the code is modelled. A table is a list of row records in insertion order (Store/Schema); an
-- UPDATE is `update` of the rows that pass the WHERE test, and its count of changed rows is
-- `count`; a SELECT with ORDER BY and LIMIT is `take`, `sort_by` and `select` (Base/Table). An
-- operation is a function from the database to a `Result`; an error leaves the database as it was,
-- as the transactions do. A stored envelope is the value whose JSON the row holds. Times are
-- milliseconds since the epoch, and are stored and compared as `toISOString` texts, as the code
-- does (Time). What the code takes from node:crypto and from the regular expression engine is the
-- record `Platform` (Contracts/Envelope), a parameter; the n-th random value is a function of n,
-- and the database counts the draws. The broker of the inbound handler is a function from the
-- settlement that is asked for to the error with which it fails; the transport of the outbound run
-- is one from the number of the send and the envelope, and the clock one from the reading's number.
-- The coordinator meets a `World`: functions for the answer of the child process and of the
-- evidence provider, and the clock after them. Its actions are functions from the database to a
-- result and a database, since one that throws keeps what was committed before. The signature
-- scheme of node:crypto is the record `Signatures`.
--
-- The files:
--   Base          shared names, lists, texts, and the tables with their laws
--   Time          `toISOString`, `Date.parse`, addSeconds
--   Contracts     src/contracts: identifiers, payload, canonical JSON, evidence; Envelope with the
--                 rules across its fields (Laws reads them independently), Fields with the checks
--                 of single fields, Creation with createEnvelope; RoundTrip and Kept are about them
--   Security      src/security/sanitize-error.ts: normalizeErrorCode; String.prototype.trim
--   Security/Authentication  sign and verify of src/security/message-authentication.ts; Soundness,
--                 Refusals and RoundTrip are about them
--   Store/Schema  the tables at schema version 9, and the errors of src/errors.ts
--   Store/Outbox  enqueueEnvelope, leaseOutbox, markOutboxSent, releaseOutboxLease,
--                 quarantineOutbox; Rows, Steps, Invariant, Idempotency, Leases, Exclusion are
--                 about them
--   Store/Inbox   persistIncoming; Reception is about repeated and foreign deliveries
--   Store/Claims  claimInbox, claimReadOnlyDispatchInbox, claimAutonomousConsultationInbox,
--                 renewClaim; Loop and Exclusion are about them
--   Store/Settlement  acknowledge, settleInboxWithReply; Authority, Queued, Replies, Once
--   Store/Lifecycle   a row of the inbox under all of these: Rows, Steps, Invariant
--   Store/System      outbox, inbox and authorization together: any order of operations; Answers
--   Store/Authorization  resources, grants, requests (Requests), authorizeClaimedResourceAccess
--                 (Access), and their history (Moves, Steps, History); Steps/Inbox and Steps/Effects
--                 say what they do to the inbox
--   Store/Consultation  ensureConsultationRun, saveConsultationRun; Contract has the checks of a
--                 run (src/contracts/consultation.ts), Versions is about them
--   Store/Queries single messages, replies, conversations, the inbox listing
--   Store/Status  heartbeats and getStatus; Counts and Heartbeats are about them
--   Store/Deliveries  recordDeliveryAttempt
--   Bridge/Inbound   processInboundDelivery of src/bridge/worker.ts; Custody is about it
--   Bridge/Outbound  runOutboundOnce of src/bridge/worker.ts; Total is about it
--   Application   src/application/agent-bridge-service.ts: send, reply, settleWithReply;
--                 Conversations has askAgent, continueAgent, getAgentThread, Results has
--                 getAgentResult; Sending and Threads are about them
--   Coordination  src/coordination/autonomous-consultation-coordinator.ts: Evidence and its Merging,
--                 Child (parseEvidenceOnlyChildResult), Run with its children Begin, Turn, Peer and
--                 Advance (runOnce and what it calls); Frames and Progress are about what a pass
--                 does to the stored runs
--   Samples       concrete messages for the tests
--
-- Bounds. Numbers of the code that are counts, limits and times are natural numbers here; the
-- guards that refuse zero are written out. No definition runs on fuel but the printing of decimal
-- numbers, which has sixteen digits, the most that a safe integer has. The texts of times are those
-- of the years 1970 to 9999.
--
-- Not modelled: the migrations, the listings of resources, grants, requests and the audit, and the
-- parts that are input and output: transport, processes, files, the command line, the MCP server
-- and the set-up programs. Of the schema library's checks, the forms of UUIDs and datetimes are
-- tests of the platform; those of paths and Git object identifiers are left out, and where a value
-- has been checked once the forms of its texts are not checked again. Keys are texts, and reading
-- and deriving them is left out. `localeCompare` is taken as the order of the codes, which it is on
-- times of one form and on UUIDs.
pub mod Base
pub mod Time
pub mod Contracts
pub mod Security
pub mod Store
pub mod Application
pub mod Bridge
pub mod Coordination
pub mod Samples
