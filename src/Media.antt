-- ===== src/Media.antt =====
-- Local media: which files windows may show, and how their bytes are served
-- (portus-window/src/media.rs).
pub mod Ranges
pub mod Serve
pub mod Registry
pub mod Http
