-- ===== src/BinaryFrame/RoundTrip.antt =====
-- The bytes of `binary_frame_encode` as input of `binary_frame_parser_feed`.
mod Steps
mod Header
mod Payload
pub mod BeforeCrc
pub mod Delivery
