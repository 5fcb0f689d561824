-- ===== src/Modbus.antt =====
-- Src/adapters/modbus_protocol: MBAP framing, request PDUs, response decoding, and the client
-- operations over a transaction function. A byte is a number below 256. `hi << 8 | lo` on bytes is
-- `hi * 256 + lo`, and `b & 0x80` is `b / 128 % 2`.
pub mod Frame
pub mod Pdu
pub mod Response
pub mod FrameRoundTrip
pub mod Registers
pub mod Bits
pub mod BitTable
mod Tests
