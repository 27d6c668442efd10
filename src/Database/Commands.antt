-- ===== src/Database/Commands.antt =====
-- The commands that the database thread takes from its channel: `DbCommand` and `DbWorker::run`
-- (portus-window/src/database.rs and portus-window/src/database/service.rs).
pub mod Reach
pub mod Restart
pub mod Disabled
use portus_window.Base.{
  ℕ, true, false, if◌then◌else◌, Bool, Option, List, [], ◌∷◌, Text, Result, ok,
}
use portus_window.Protocol.Windows.{ActiveWindow, CloseReason, ConfigAction}
use portus_window.Protocol.Frame.{Json}
use portus_window.Protocol.History.{
  Configuration, HistoricalWindow, HistoryResult, ClearHistoryResult,
}
use portus_window.Database.Rows.{Stored, Timestamp, Codecs, Faults}
use portus_window.Database.Worker.{
  DbWorker, open_session, abort_open, sync_window, close_session, clear_history, apply_config,
}
use portus_window.Database.History.{history}

pub data DbCommand : Type 0 where
  opens : (window : ActiveWindow) → (reset_timeline : Bool) → DbCommand
  aborts : (window_session_id : Text) → DbCommand
  syncs : (window : ActiveWindow) → DbCommand
  closes : (window : ActiveWindow) → (reason : CloseReason) → DbCommand
  queries : (query : Option Text) → DbCommand
  clears : DbCommand
  configures : (action : ConfigAction) → (active_windows : List ActiveWindow) → DbCommand
  flushes : DbCommand
  shuts_down : DbCommand

-- A command as it is taken: the time, what `Uuid::new_v4` draws, and the statements that fail.
pub record Arrival : Type 0 where
  pub command : DbCommand
  pub now : Timestamp
  pub uuids : ℕ → Text
  pub faults : Faults

-- What is sent back.
pub data Reply : Type 0 where
  nothing : Stored (Unit {0}) → Reply
  found : Stored HistoryResult → Reply
  cleared : Stored ClearHistoryResult → Reply
  configuration : Stored Configuration → Reply

unfoldable is_shutdown : DbCommand → Bool
is_shutdown shuts_down = true
is_shutdown _ = false

module _ (c : Codecs) (lower : Text → Text) (json : Json HistoricalWindow) where
  -- One round of the loop, for a command other than the last.
  unfoldable pub react : DbCommand → Arrival → DbWorker → Reply × DbWorker
  unfolding open_session abort_open sync_window close_session clear_history apply_config history
  react (opens window reset) a w =
      let r = open_session c a.faults (a.uuids 0) a.now window reset w in (nothing r.0, r.1)
  react (aborts id) a w = let r = abort_open c a.faults id w in (nothing r.0, r.1)
  react (syncs window) a w = let r = sync_window c a.faults window w in (nothing r.0, r.1)
  react (closes window reason) a w =
      let r = close_session c a.faults a.now window reason w in (nothing r.0, r.1)
  react (queries query) a w = (found (history c lower json a.faults query w), w)
  react clears a w = let r = clear_history c a.faults w in (cleared r.0, r.1)
  react (configures action windows) a w =
      let r = apply_config c a.faults a.uuids a.now action windows w in (configuration r.0, r.1)
  react flushes a w = (nothing (ok tt), w)
  react shuts_down a w = (nothing (ok tt), w)

  -- The worker behind the commands that arrive; `Shutdown` ends the loop.
  unfoldable pub run : List Arrival → DbWorker → DbWorker
  unfolding react is_shutdown
  run [] w = w
  run (a ∷ arrivals) w =
      let rest = run arrivals (react a.command a w).1 in if is_shutdown a.command then w else rest
