-- ===== src/Lib.antt =====
-- agent_db: the durable Operation Runtime of DopeDB (src-tauri/src/operations), verified.
--
-- Every change that an agent, a plugin or a person asks of a database is an operation. It is
-- planned, decided by a person where it may mutate its target, claimed, executed, and ended; each
-- transition rewrites one row of `operations` and appends one hash-linked row to
-- `operation_events`, in one SQLite transaction.
--
-- Files and the code they model:
--   Base, Base/*: shared names, Boolean tests, lists, texts and decidable equality.
--   Error: AppError and `?` (src-tauri/src/error.rs).
--   Json, Json/*: serde_json's Value; `canonical_value` of operations/canonicalize.rs.
--   Operations/Model, Model/Labels, Labels/Inverse: dopedb-protocol/src/operation.rs and the label
--     functions of operations/model.rs.
--   Operations/StateMachine, StateMachine/Graph and Walks: operations/state_machine.rs.
--   Operations/Canonicalize, Canonicalize/Laws: CanonicalJson of operations/canonicalize.rs.
--   Operations/Rows, Rows/Laws: the records of operations/model.rs, the tables of
--     store/migrations.rs and the row readers of operations/repository.rs.
--   Operations/Store, Store/Laws: the SQL statements of operations/repository.rs.
--   Operations/Ledger: append_event_tx, events, event_hash and the loop of verify_event_chain.
--   Operations/Repository: get, transition, claim_execution, decide_approval, append_progress and
--     verify_event_chain. Repository/Steps, Moves, Claim, Decide, Refusals and
--     ClaimRefusals are about them. Repository/Queries: find and approvals.
--   Operations/Planning: insert_planned, PreparedOperation and validate_new_operation;
--     Planning/SamePlan and Planning/Replay are about a taken idempotency key.
--   Operations/Recovery: recover_previous_runtimes.
--   Operations/Execute: ExecutionGrant and issue (operations/execute.rs).
--   Operations/Runtime: the facade of operations/runtime.rs. Runtime/Histories runs its calls in any
--     order; Runtime/Consent, Runtime/Durable and Runtime/Settled are about such histories.
--   Operations/Evolution, Evolution/*: every operation as a sequence of four kinds of change.
--   Operations/Invariant, Invariant/*: what holds of the tables between operations.
--   Operations/Examples: a concrete run.
--   Broker/Session, Session/Laws: broker/session.rs, the registry of terminal sessions. The random
--     source, the hex codec and `Duration::from_std` are parameters.
--   Safety/Gate: safety/l4_gate.rs.
--   Safety/Ast, Safety/Parse: safety/l1_parse.rs on the syntax trees of sqlparser. Parse/Dml and
--     Parse/Reads are about its answers and those of the gate on them.
--   SqlScript, SqlScript/Trim: sql_script/mod.rs on UTF-8 bytes. SqlScript/Tokens and
--     Tokens/* are about where it cuts.
--   Engine: the enum Engine of model.rs, and its labels and those of QueryKind in store/mod.rs.
--   Audit/Chain, Chain/Injective: audit/chain.rs. Audit/Log, Log/Verified, Log/Tampered: record,
--     snapshot, verify_chain and verify_entries of audit/mod.rs on the table audit_log.
--   Protocol/Limits, Limits/Exact, Limits/Ending: validate_json_limits of
--     dopedb-protocol/src/frame.rs.
--   Protocol/Frame, Frame/Writer, Frame/Decoding, Frame/RoundTrip: the rest of that file.
--   Protocol/Selector: ConnectionSelector of dopedb-protocol/src/connection.rs.
--   Protocol/Discovery: dopedb-protocol/src/discovery.rs.
--   Protocol/Version: dopedb-protocol/src/version.rs.
--   Examples, Audit/Examples, Protocol/Examples, Safety/Examples, SqlScript/Examples: concrete runs
--     of these.
--
-- State: the record Db of Operations/Store holds the three tables, each the list of its rows, newest
-- first. A transaction is a function from the tables to a result with the tables that it leaves; an
-- error drops its changes. The repository's `write_lock` makes its operations atomic, so that a
-- history is a list of calls. The clock readings and the ids that `Uuid::new_v4` draws are arguments,
-- and so arbitrary: nothing is assumed of their order or freshness.
--
-- Uuids and timestamps are numbers. The source compares timestamps as texts of one fixed-width
-- format, and orders ids by their texts, which agree with the order of the numbers.
--
-- Code of other crates (serde_json, sha2, uuid, chrono, and the derived serde implementation of the
-- provenance) is the record Crates, a parameter. Printing a Value does not fail.
--
-- Loops are structural recursion, over rows, texts and bytes, but for the worklist of
-- validate_json_limits: its fuel is one more than the values that it allows, and each round counts
-- one. The event number is checked for overflow of an i64 as in the source.
--
-- Not modelled: I/O failures of SQLite; the triggers of store/migrations.rs, which refuse statements
-- that the repository does not issue; foreign keys; and the rest of the application (drivers,
-- services, broker server, MCP, monitoring and user interface).
pub mod Audit
pub mod Base
pub mod Broker
pub mod Engine
pub mod Error
pub mod Examples
pub mod Json
pub mod Operations
pub mod Protocol
pub mod Safety
pub mod SqlScript
