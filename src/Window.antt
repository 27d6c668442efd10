-- ===== src/Window.antt =====
-- The window core of the host (portus-window/src/window_core.rs).
pub mod Errors
pub mod Validate
pub mod Bounded
pub mod Registry
pub mod Target
pub mod Untouched
pub mod Calls
pub mod Invariant
