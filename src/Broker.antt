-- ===== src/Broker.antt =====
-- src-tauri/src/broker: the local broker of the command line client.
pub mod Session
