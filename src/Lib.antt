-- ===== src/Lib.antt =====
-- Verification of the Asterism Node, the Rust crate under src/: the durable run registry, the
-- redaction that guards it, the remote command state beside it, and the updates of a Node.
--
-- The program. A Node runs agents for several projects. Every execution is a run with a status; the
-- registry stores runs, an append-only journal of their events, approval requests and a per-run
-- approval policy in SQLite. Whatever is stored passes redaction first. Commands arrive from a
-- Control Plane at least once over a connection that drops; the remote tables of the same database
-- make them execute at most once (inbox), keep answers until they are acknowledged (outbox), and
-- remember how far each run's events were acknowledged (subscriptions).
--
-- The files.
--   RunState     src/runstate.rs: `RunStatus`, `as_str`, `parse`, `validate_transition`,
--                `from_hermes_status`. Lifecycle has the steps that the code allows as
--                an indexed type; Drawn has the diagram of docs/phase-e-node-daemon.md.
--   RunPolicy    src/runpolicy.rs: `RunApprovalPolicy` and its default state.
--   Redact       src/redact.rs: `redact` and the recursive `walk`, which threads the `modified` flag
--                explicitly; Keys holds the tests of keys and values, Strings the cut of long texts.
--                Metadata builds safe metadata. Clean, Unmodified and Depth hold the proofs.
--   Registry     src/registry.rs: Tables (the rows), Requests (the records that go in and come out),
--                Fingerprint (`request_fingerprint`, FNV-1a on 64 bits), Runs (`create_run` and the
--                lookups), Updates (`apply_update`, `update_run`), Journal (`append_event`,
--                `events_since`), Approvals (approval records and the policy). Invariant, Preserve,
--                Steps, Reachable and History reason about sequences of operations; Idempotency,
--                Journal/Append, Journal/Replay, Approvals/Laws and Approvals/Frozen about
--                repeated calls.
--   Remote       src/remote.rs: Tables, Inbox, Outbox and Subscriptions, each with a child for its
--                guarantee over all sequences of calls.
--                Outbox/Queue compares the outbox with a queue that has no rows. A report of
--                `enqueue_report`, src/workdesk.rs, goes to the same table.
--                Scrub is the rewrite of stored device authorizations, over DeviceDelivery,
--                src/device_delivery.rs, which says what may be kept of them.
--   Sse          src/sse.rs: the incremental parser of server-sent events. Chars
--                compares its loop with a reader of single characters, Chunks, Render and Finish prove
--                what follows for streams.
--   Policy       src/policy.rs: the refusal of an unsafe runtime and the reader (Config) and
--                the writer (Config/Written) of its configuration file; the other children of Config
--                hold the proof that what is written is read back.
--   Convergence  src/convergence.rs: `classify`, `observe` and the loop of `converge`. A `Host` gives
--                what each look of each round sees, and the clock; Observed holds what a look
--                records. Settled and Proved follow a target
--                through the rounds, Deadline bounds their number.
--   UpdateOp     src/updateop.rs: the journal of an update and the cursor of what was delivered,
--                over the files of a Node home. Records holds the events. Journals and Sessions
--                reason about what is read back, Cursor about what is sent again, over Ordered, the
--                map of the cursor. UpdateFinish holds the records of src/updatefinish.rs that an
--                event carries.
--   UpdateRequest  src/updaterequest.rs: the file that asks the privileged updater for a release.
--                Released says what it may apply, Consumed follows a request that is made.
--   Attachments  src/attachments.rs: the images of a message; Parsed says what is accepted.
--   ChatHistory  src/chathistory.rs: the history that is sent with a continued run. Attempts and Built
--                show that the loop over retries ends, Window which turns are sent.
--   Protocol     src/protocol.rs: envelopes, commands, and the handshake, with Versions for the choice
--                of a version and Transcript for what a signature is made over.
--   Credentials  src/credentials.rs: the credentials of a Node; States holds what one credential
--                may be, Listing what is told of them. Adopted and Reconciled follow the two loops
--                of `reconcile`.
--   FilePaths    the operations of `std::path` that the code uses, on lists of components.
--   Text         UTF-8 texts as lists of Unicode scalar values, with Rust's `str` operations on them.
--   Json         `serde_json::Value`; objects keep their fields in the order of the map.
--   Prelude      shared names, Boolean tests, lists, tables, results and signed numbers.
--   Tests        the theorems at concrete inputs.
--
-- How the code is rendered. A table is the list of its rows in the order of their rowid; an SQL
-- statement is a function on it, and a uniqueness constraint is a test that refuses the
-- insertion. An operation takes the tables and returns a `Result` with the new tables: an error
-- carries none, since the transaction rolls back. The clock (`now_millis`) and the fresh run
-- identifier (`new_run_id`) are arguments, and one call reads the clock once. Identifiers and
-- status texts are native strings; free text is `Text`. Row numbers and times are natural
-- numbers; signed arguments of queries, which may be negative, are integers, so a negative
-- `LIMIT` means no limit, as in SQLite. `serde_json::to_string` and `from_str` are the parameter
-- `Serde`, for which nothing is assumed but where a theorem says so; the decimal printer of
-- `usize` is a parameter where a length is printed. The loops recurse on a list or on
-- a value; three have a bound. That of `SseParser::push` is the length of its buffer, and
-- Sse/Chars proves it large enough; the rounds of `converge` and of `attempt_chain` are an
-- argument, and Convergence/Deadline and ChatHistory/Built prove that enough of them give an answer.
--
-- What is not modelled. Of src/registry.rs: opening, file modes, migrations and the tables of
-- projects and tasks; operations run one after another, as the immediate transactions of the code
-- make them; `set_run_approval_policy` has no transaction, and that another connection writes
-- between its statements is not modelled, nor between those of `enqueue_outbox` but in
-- Outbox/Backlog. Of src/policy.rs: the reading of the file and the texts of errors. Of
-- src/credentials.rs: loading and saving the file of the registry. Of src/updatefinish.rs: when an
-- update may be finished. Of src/workdesk.rs: the cards and their cursors. Everything that drives
-- processes, sockets, files or the host, and the Control Plane in control-plane/, is outside. A
-- counter or a clock does not reach 2 ^ 63 in the model.
pub mod Prelude
pub mod Text
pub mod Json
pub mod Redact
pub mod RunState
pub mod RunPolicy
pub mod Registry
pub mod Remote
pub mod Sse
pub mod Policy
pub mod FilePaths
pub mod Convergence
pub mod UpdateFinish
pub mod UpdateOp
pub mod UpdateRequest
pub mod DeviceDelivery
pub mod Attachments
pub mod ChatHistory
pub mod Protocol
pub mod Credentials
pub mod Tests
