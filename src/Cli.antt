-- ===== src/Cli.antt =====
-- The command line's client (portus-window-cli/src).
pub mod Args
pub mod Paths
pub mod Validate
pub mod Actions
pub mod Sessions
pub mod Windows
pub mod Request
pub mod Transport
pub mod Main
