-- ===== src/BinaryFrame.antt =====
-- src/kernel/binary_frame.c: the framing of the binary management protocol.
pub mod Crc
pub mod Parser
pub mod Encoder
pub mod RoundTrip
mod Examples
