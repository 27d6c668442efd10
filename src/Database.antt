-- ===== src/Database.antt =====
-- The history of windows and the configuration, kept in SQLite (portus-window/src/database.rs and
-- portus-window/src/database/service.rs).
pub mod Rows
pub mod Sessions
pub mod Config
pub mod Worker
pub mod History
pub mod Agreement
pub mod Commands
pub mod Service
pub mod Schema
