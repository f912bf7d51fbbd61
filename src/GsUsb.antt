-- ===== src/GsUsb.antt =====
-- crates/wiretap-protocol/src/gs_usb.rs, the candleLight USB protocol.
pub mod Frame
pub mod Control
pub mod Timing
mod Tests
