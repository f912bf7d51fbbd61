-- ===== src/TestPattern.antt =====
-- crates/wiretap-protocol/src/testpattern.rs: two endpoints that prove what a CAN link carries.
pub mod Message
pub mod Sweep
pub mod Sequence
pub mod Responder
pub mod Latency
mod Tests
