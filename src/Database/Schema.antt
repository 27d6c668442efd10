-- ===== src/Database/Schema.antt =====
-- The schema of the database, and how it is opened (portus-window/src/database.rs and
-- `DbWorker::initialize` of portus-window/src/database/service.rs).
pub mod Opened
use portus_window.Base.{
  ℕ, ◌+◌, Bool, true, false, List, [], ◌++◌, if◌then◌else◌, ◌==◌, decimal, Text, text, Result, ok,
  err, ◌>>=◌,
}
use portus_window.Base.Int.{ℤ, pos, negsuc}
use portus_window.Database.Rows.{
  PersistenceError, storage, Stored, Timestamp, Table, Codecs, Faults, Statement, exec,
}
use portus_window.Database.Config.{Settings}
use portus_window.Database.Worker.{DbWorker, attempt, initialize}

abbrev database_schema_version : ℕ
database_schema_version = 3

-- What a database holds: nothing of a user's, these two tables, or something else.
pub data Content : Type 0 where
  blank : Content
  tables : (sessions : Table) → (settings : Settings) → Content
  foreign : Content

-- `user_version` is an `i64`, zero in a new database.
pub record DatabaseFile : Type 0 where
  pub user_version : ℤ
  pub content : Content

pub data DatabaseSchemaState : Type 0 where
  fresh current : DatabaseSchemaState

abbrev has_user_objects : Content → Bool
has_user_objects blank = false
has_user_objects (tables sessions settings) = true
has_user_objects foreign = true

unfoldable version_text : ℤ → Text
version_text (pos n) = decimal n
version_text (negsuc n) = text "-" ++ decimal (n + 1)

unfoldable unsupported : ℤ → PersistenceError
unfolding version_text
unsupported version = storage (
    text "database schema version "
    ++ (version_text version
        ++ (text " is unsupported; expected version " ++ decimal database_schema_version)))

unfoldable inspect_version : Bool → ℤ → Stored DatabaseSchemaState
unfolding unsupported
inspect_version used (pos version) =
    if version == 0
    then (if used
        then err (
            storage (
              text "database is unversioned and not empty; expected schema version "
              ++ decimal database_schema_version))
        else ok fresh)
    else if version == database_schema_version
    then ok current
    else err (unsupported (pos version))
inspect_version used (negsuc n) = err (unsupported (negsuc n))

unfoldable inspect_database_schema : Faults → DatabaseFile → Stored DatabaseSchemaState
unfolding inspect_version
inspect_database_schema faults file = attempt (faults Statement.prepare) >>= λ t.
    inspect_version (has_user_objects file.content) file.user_version

-- The transaction that creates both tables.
unfoldable initialize_schema : Faults → DatabaseSchemaState → DatabaseFile → Stored DatabaseFile
initialize_schema faults current file = ok file
initialize_schema faults fresh file = attempt (faults Statement.begin) >>= λ t.
    attempt (faults Statement.commit) >>= λ u.
    ok (record { user_version = pos database_schema_version; content = tables [] [] })

-- The rest of `DbWorker::initialize`, which fails without the tables.
unfoldable initialize_content : Codecs → Faults → Timestamp → Content → Stored DbWorker
initialize_content c faults now (tables sessions settings) =
    initialize c faults now sessions settings
initialize_content c faults now blank = err (storage (text "no such table: config"))
initialize_content c faults now foreign = err (storage (text "no such table: config"))

unfoldable open_database : Codecs → Faults → Timestamp → DatabaseFile → Stored DbWorker
unfolding inspect_database_schema initialize_schema initialize_content
open_database c faults now file = inspect_database_schema faults file >>= λ state.
    initialize_schema faults state file >>= λ ready. initialize_content c faults now ready.content

-- What the worker leaves on the disk.
abbrev left_on_disk : DbWorker → DatabaseFile
left_on_disk w = record {
  user_version = pos database_schema_version;
  content = tables w.sessions w.settings;
}
