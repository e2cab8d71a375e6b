-- ===== src/AppRuntime.antt =====
-- The application runtime of src/kernel/application_runtime.c.
pub mod View
pub mod Runtime
pub mod Operations
pub mod Ownership
pub mod Failure
pub mod Rows
mod SelfTest
mod Examples
