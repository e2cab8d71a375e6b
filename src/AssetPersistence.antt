-- ===== src/AssetPersistence.antt =====
-- The persistent assets: src/kernel/asset_persistence.c over src/drivers/flash_persistence.c, with
-- src/kernel/oled_ui_layout_config_v1.c, which validates and activates their payload.
pub mod Layout
pub mod Record
pub mod State
pub mod Candidate
pub mod Slots
pub mod Ends
pub mod Staged
pub mod Commit
pub mod Prepare
pub mod Write
pub mod Copy
pub mod Accepted
pub mod Counts
pub mod Closes
pub mod Underway
pub mod Delivery
pub mod Booted
pub mod Startup
pub mod Examples
mod Ambiguous
