-- ===== src/Auth.antt =====
-- Authenticated sessions: what a client may ask for, and who may grant it
-- (portus-window/src/auth_session).
pub mod Domain
pub mod Authority
