-- ===== src/Tests.antt =====
-- The theorems applied to concrete inputs, and runs of the code on some.
pub mod Frames
pub mod Registry
pub mod Consent
pub mod Files
pub mod Interactions
pub mod Database
pub mod Commands
