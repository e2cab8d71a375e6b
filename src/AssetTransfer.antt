-- ===== src/AssetTransfer.antt =====
-- src/kernel/asset_transfer.c: the session in which a host transfers an asset.
pub mod Session
pub mod Handlers
pub mod Frames
pub mod Steps
pub mod InStep
pub mod Requests
pub mod Retry
mod Examples
