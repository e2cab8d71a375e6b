-- ===== src/NodeLink.antt =====
-- shared/node_link: the Deus Node Link codec, byte stream, worker and controller.
pub mod Crc
pub mod MessageType
pub mod ErrorCode
pub mod Frame
pub mod Codec
pub mod Stream
pub mod Worker
pub mod Controller
pub mod Exchange
pub mod Handshake
mod Examples
