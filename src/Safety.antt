-- ===== src/Safety.antt =====
-- src-tauri/src/safety: the layers that a statement passes before it runs.
pub mod Gate
pub mod Ast
pub mod Parse
mod Examples
