-- ===== src/Audit.antt =====
-- src-tauri/src/audit: the append-only, hash-chained compliance log.
pub mod Chain
pub mod Log
mod Examples
