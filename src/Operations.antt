-- ===== src/Operations.antt =====
-- src-tauri/src/operations: the durable Operation Runtime.
pub mod Model
pub mod Crates
pub mod Rows
pub mod Store
pub mod Ledger
pub mod Repository
pub mod Planning
pub mod Recovery
pub mod Evolution
pub mod Invariant
pub mod Execute
pub mod Runtime
mod Examples
pub mod Canonicalize
pub mod StateMachine
