-- ===== src/Ipc.antt =====
-- The host's side of the local IPC (portus-window/src/ipc.rs, as built for Linux).
pub mod Reading
pub mod Connection
