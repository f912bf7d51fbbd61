-- ===== src/Modbus.antt =====
-- crates/wiretap-catalog/src/modbus/protocol.rs and modbus_rtu_stream.rs: the facts of the wire
-- protocol, and the recovery of messages from an RTU byte stream.
pub mod Protocol
pub mod Rtu
mod Tests
