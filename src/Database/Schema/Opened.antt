-- ===== src/Database/Schema/Opened.antt =====
-- What opening a database comes to (portus-window/src/database.rs).
use portus_window.Base.{◌≡◌, refl, []}
use portus_window.Base.Int.{pos}
use portus_window.Database.Rows.{Codecs, Faults, Statement, Timestamp}
use portus_window.Database.Worker.{DbWorker, initialize}
use portus_window.Database.Worker.Closed.{IsQuiet}
use portus_window.Database.Schema.{
  blank, open_database, inspect_database_schema, inspect_version, initialize_schema,
  initialize_content, left_on_disk,
}

module _ (c : Codecs) (faults : Faults) (now : Timestamp) (quiet : IsQuiet faults) where
  -- A new database is opened like one with both tables empty.
  open_database-blank :
      open_database c faults now (record { user_version = pos 0; content = blank })
      ≡ initialize c faults now [] []
  unfolding open_database inspect_database_schema inspect_version initialize_schema
      initialize_content
  open_database-blank =
      rw (quiet Statement.prepare) (rw (quiet Statement.begin) (rw (quiet Statement.commit) refl))

  -- What a worker has left is opened as it is.
  open_database-left_on_disk :
      (w : DbWorker)
      → open_database c faults now (left_on_disk w) ≡ initialize c faults now w.sessions w.settings
  unfolding open_database inspect_database_schema inspect_version initialize_schema
      initialize_content
  open_database-left_on_disk w = rw (quiet Statement.prepare) refl
