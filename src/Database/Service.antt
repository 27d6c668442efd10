-- ===== src/Database/Service.antt =====
-- `DatabaseService`: the handle that the host's other threads have of the database's thread
-- (portus-window/src/database/service.rs and portus-window/src/database.rs).
pub mod Passed
use portus_window.Base.{
  ℕ, Bool, true, false, Option, none, some, List, Text, Result, ok, err, ◌>>=◌,
}
use portus_window.Protocol.Windows.{ActiveWindow, CloseReason, ConfigAction}
use portus_window.Protocol.Frame.{Json}
use portus_window.Protocol.History.{
  Configuration, HistoricalWindow, HistoryResult, ClearHistoryResult,
}
use portus_window.Database.Rows.{
  PersistenceError, worker_unavailable, Stored, Timestamp, Codecs, Faults,
}
use portus_window.Database.Config.{validate_history_query, validate_config_action}
use portus_window.Database.Worker.{DbWorker}
use portus_window.Database.Commands.{
  DbCommand, opens, aborts, syncs, closes, queries, clears, configures, flushes, shuts_down,
  Arrival, Reply, nothing, found, cleared, configuration, react,
}

-- The thread, unless it has ended.
abbrev Service : Type 0
Service = Option DbWorker

-- What a call returns, and the thread behind it.
abbrev Answer : Type 0 → Type 0
Answer A = Stored A × Service

abbrev as_nothing : Reply → Stored (Unit {0})
as_nothing (nothing r) = r
as_nothing _ = err worker_unavailable

abbrev as_found : Reply → Stored HistoryResult
as_found (found r) = r
as_found _ = err worker_unavailable

abbrev as_cleared : Reply → Stored ClearHistoryResult
as_cleared (cleared r) = r
as_cleared _ = err worker_unavailable

abbrev as_configuration : Reply → Stored Configuration
as_configuration (configuration r) = r
as_configuration _ = err worker_unavailable

module _ (c : Codecs) (lower : Text → Text) (json : Json HistoricalWindow) where
  -- `send` and `recv`: the channel is closed once the thread has ended. `now`, `uuids` and `faults`
  -- are those of the command, as the thread takes it.
  unfoldable call :
      {A : Type 0}
      → DbCommand
      → (ℕ → Text)
      → Timestamp
      → Faults
      → (Reply → Stored A)
      → Service
      → Answer A
  call command uuids now faults reply none = (err worker_unavailable, none)
  call command uuids now faults reply (some w) =
      let a : Arrival = record { command = command; now = now; uuids = uuids; faults = faults } in
      let r = react c lower json command a w in (reply r.0, some r.1)

  module _ (uuids : ℕ → Text) (now : Timestamp) (faults : Faults) where
    unfoldable track_open_with_mode : ActiveWindow → Bool → Service → Answer (Unit {0})
    unfolding call
    track_open_with_mode window reset = call (opens window reset) uuids now faults as_nothing

    unfoldable track_open : ActiveWindow → Service → Answer (Unit {0})
    unfolding track_open_with_mode
    track_open window = track_open_with_mode window false

    unfoldable service_abort_open : Text → Service → Answer (Unit {0})
    unfolding call
    service_abort_open id = call (aborts id) uuids now faults as_nothing

    unfoldable service_sync : ActiveWindow → Service → Answer (Unit {0})
    unfolding call
    service_sync window = call (syncs window) uuids now faults as_nothing

    unfoldable service_close : ActiveWindow → CloseReason → Service → Answer (Unit {0})
    unfolding call
    service_close window reason = call (closes window reason) uuids now faults as_nothing

    -- The calls that do not wait log an error and drop it.
    unfoldable sync_async : ActiveWindow → Service → Service
    unfolding service_sync
    sync_async window service = (service_sync window service).1

    unfoldable close_async : ActiveWindow → CloseReason → Service → Service
    unfolding service_close
    close_async window reason service = (service_close window reason service).1

    unfoldable service_history : Option Text → Service → Answer HistoryResult
    unfolding call
    service_history query service = elim (validate_history_query query) [
      | err e ↦ (err e, service)
      | ok valid ↦ call (queries valid) uuids now faults as_found service
    ]

    unfoldable service_clear_history : Service → Answer ClearHistoryResult
    unfolding call
    service_clear_history = call clears uuids now faults as_cleared

    unfoldable service_config : ConfigAction → List ActiveWindow → Service → Answer Configuration
    unfolding call
    service_config action windows service = elim (validate_config_action action) [
      | err e ↦ (err e, service)
      | ok t ↦ call (configures action windows) uuids now faults as_configuration service
    ]

    unfoldable flush : Service → Answer (Unit {0})
    unfolding call
    flush = call flushes uuids now faults as_nothing

-- When the last handle is dropped.
unfoldable drop_service : Service → Service
drop_service service = none
