-- ===== src/Protocol.antt =====
-- dopedb-protocol: what the client and the runtime agree on.
pub mod Version
pub mod Discovery
pub mod Selector
pub mod Limits
pub mod Frame
mod Examples
