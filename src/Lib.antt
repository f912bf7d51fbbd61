-- ===== src/Lib.antt =====
-- A model of the protocol core of this repository: what its Rust crate `wiretap-protocol` puts on
-- the wire and reads off it, between a host, a device that bridges CAN buses, and a CAN bus; the
-- checksums of `wiretap-checksum`, the sweep for them and its samples; the Modbus RTU streams of
-- `wiretap-catalog`; and the bit fields and dates of `wiretap-decode`.
--
-- The parts, and how they meet. A CAN frame has an arbitration id of 11 or 29 bits, a data length
-- code and a payload. `Dlc` turns lengths into codes and back for all the others. `Gvret`,
-- `Socketcan` and `GsUsb` each carry such frames in a layout of their own: GVRET over a byte stream
-- that arrives in arbitrary pieces, `Slcan` in lines of text, the other two in buffers of fixed
-- size. `TestPattern` is a protocol inside CAN frames: an initiator sends numbered messages, and a
-- responder counts and answers them. `Modbus` finds messages in a stream of bytes, from a serial
-- line or out of CAN frames, by their lengths and the CRC of `Checksum`. `Decode` reads signals out
-- of a frame's bytes.
--
-- Which file models which part:
--   * ArbId: crates/wiretap-protocol/src/lib.rs and ingest.rs, the masks and flags of id words.
--   * Dlc: crates/wiretap-protocol/src/dlc.rs.
--   * Gvret: crates/wiretap-protocol/src/gvret.rs. Ids is the id word and the opcodes, Encode every
--     encoder, Server the `Decoder` at the device's end (`feed`, `scan_for_handshake`,
--     `take_transmit`), Host the `DeviceDecoder` at the host's end (`feed`, `take_frame`).
--   * Socketcan: crates/wiretap-protocol/src/socketcan.rs.
--   * GsUsb: crates/wiretap-protocol/src/gs_usb.rs. Frame is the host frames, Control the control
--     transfers, Timing `bittiming_for_bitrate` and `calculate_bittiming`.
--   * TestPattern: crates/wiretap-protocol/src/testpattern.rs. Message is the framed messages, Sweep
--     the unframed ones, Sequence the `SequenceTracker`, Responder the
--     `Responder`, Latency the round-trip statistics.
--   * Slcan: crates/wiretap-protocol/src/slcan.rs, the ASCII line protocol: frames as lines, the
--     bit-rate commands; Lines the `LineDecoder`, Version the reply to a version query. A text is
--     the list of its bytes, all of them ASCII.
--   * Checksum: crates/wiretap-checksum, another crate. Checksum is src/algorithms.rs, the sums and
--     CRCs that frames carry, without the algorithms' names as strings; Frame is src/frame.rs, a
--     checksum at offsets that count from either end; Spec is src/spec.rs, `sweep_specs`; Sampling is
--     src/sampling.rs, the choice of frames to solve against, with `chosen` as the list built so far.
--   * Modbus: the catalog crate's Modbus wire protocol. Protocol is
--     crates/wiretap-catalog/src/modbus/protocol.rs with `RegisterType` of model.rs; Rtu and its
--     Stream are crates/wiretap-catalog/src/modbus_rtu_stream.rs: the layouts that a message may have
--     (`candidates`, `is_plausible`, `build`) and `ModbusRtuStream` with its operations.
--   * Decode: crates/wiretap-decode/src/lib.rs: `extract_bits` up to the conversion to a float,
--     `apply_word_swap`, `decode_text`, `format_hex`, and in Time `civil_from_unix`.
--   * Base: bits as arithmetic, lists, bytes, and the loops that take messages off a buffer.
--
-- A method that changes its object is a function from the object's record to the new record and the
-- method's result; a `Vec<u8>` is a list of natural numbers, `Option` stays `Option`. A byte or a
-- word keeps its wrap-around written out. A field or parameter that the source calls `data` is
-- `payload` here. Indexing stands behind the same length tests as in the source; the model reads 0
-- out of range, except in the Modbus stream, where it gives no result. What a buffer reserves beyond
-- its length is left out.
--
-- The loops of the two GVRET decoders run on fuel, as much as the buffer has bytes. Every round that
-- goes on takes at least one byte, so that is enough: the rounds end by the loop's own return. The
-- loop of the Modbus stream has one round more than bytes, and gives no result if it ran out or if an
-- index were out of bounds. The selection of samples goes round as often as samples are missing to
-- the limit. All other loops follow a list.
--
-- Bounds: counters of 64 bits are natural numbers, as no run is long enough to wrap one, except
-- where the source tests for it (the frame rate of a status report). The products of
-- `calculate_bittiming`, the sum of latencies and the accumulator of a signal wrap at their 32, 64
-- and 128 bits, as in a release build, and the theorems say where they do not. A checksum's width is
-- such that an offset and it do not wrap 64 bits, and a timestamp such that no sum leaves 64 bits.
--
-- Parameters: the order in which a standard hash map is gone through, for the checksum sweep, as a
-- permutation of its entries; the machine's byte order, for SocketCAN; and the arithmetic on the
-- sample point, an `f32`, for the bit timing (the record SamplePoint), of which nothing is assumed;
-- and the conversion of an integer to an `f64`, which a signal ends with.
--
-- Not modelled: the search for checksums but the sweep and the samples, the catalog with its formats
-- (TOML, DBC, the Modbus manifest), the scaling of signals, the format of times,
-- and the analysis of captures.
mod Base
pub mod ArbId
pub mod Dlc
pub mod Gvret
pub mod Socketcan
pub mod GsUsb
pub mod TestPattern
pub mod Slcan
pub mod Checksum
pub mod Modbus
pub mod Decode
