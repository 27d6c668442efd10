-- ===== src/Protocol.antt =====
-- The protocol that the host and the controller share: portus-window-protocol/src/lib.rs.
pub mod Limits
pub mod Windows
pub mod Auth
pub mod Interaction
pub mod Requests
pub mod Responses
pub mod Frame
pub mod History
