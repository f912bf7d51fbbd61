-- ===== src/Gvret.antt =====
-- crates/wiretap-protocol/src/gvret.rs, both ends of the GVRET protocol.
pub mod Ids
pub mod Encode
pub mod Host
pub mod Server
mod Tests
