-- ===== src/Database/Commands/Reach.antt =====
-- Whatever the database thread is asked, and whatever fails, it stays in step with its tables
-- (portus-window/src/database/service.rs).
use portus_window.Base.{
  if_holds, ◌≡◌, false, some, List, [], ◌∷◌, ok, Text, All, Bool-cases, inl, inr,
}
use portus_window.Base.OrdMap.{get, text_key}
use portus_window.Base.OrdMap.Entries.{IsOrdered}
use portus_window.Protocol.Frame.{Json}
use portus_window.Protocol.History.{HistoricalWindow}
use portus_window.Database.Rows.{Codecs, Row, Table, Faults, Timestamp}
use portus_window.Database.Sessions.{ActiveSession, is_open}
use portus_window.Database.Config.{Settings, load_config}
use portus_window.Database.Config.Loading.{IsStored-load_config}
use portus_window.Database.Worker.{DbWorker, initialize}
use portus_window.Database.Agreement.{Agree}
use portus_window.Database.Worker.Synced.{
  IsSynced, open_session-IsSynced, abort_open-IsSynced, sync_window-IsSynced,
  close_session-IsSynced,
}
use portus_window.Database.Worker.Configured.{
  IsDistinct, clear_history-IsSynced, apply_config-IsSynced,
}
use portus_window.Database.Worker.Started.{initialize-IsSynced}
use portus_window.Database.Commands.{
  is_shutdown, DbCommand, opens, aborts, syncs, closes, queries, clears, configures, flushes,
  shuts_down, Arrival, react, run,
}

-- The windows that a configuration is given are those of the registry, each once.
abbrev pub IsProper : DbCommand → Type 0
IsProper (configures action windows) = IsDistinct windows
IsProper _ = Unit

module _ (c : Codecs) (lower : Text → Text) (json : Json HistoricalWindow) where
  react-IsSynced :
      (command : DbCommand) (a : Arrival) (w : DbWorker)
      → IsProper command
      → IsSynced w
      → IsSynced (react c lower json command a w).1
  unfolding react
  react-IsSynced (opens window reset) a w p h =
      open_session-IsSynced c a.faults (a.uuids 0) a.now window reset w h
  react-IsSynced (aborts id) a w p h = abort_open-IsSynced c a.faults id w h
  react-IsSynced (syncs window) a w p h = sync_window-IsSynced c a.faults window w h
  react-IsSynced (closes window reason) a w p h =
      close_session-IsSynced c a.faults a.now window reason w h
  react-IsSynced (queries query) a w p h = h
  react-IsSynced clears a w p h = clear_history-IsSynced c a.faults w h
  react-IsSynced (configures action windows) a w p h =
      apply_config-IsSynced c a.faults a.uuids a.now action windows w p h
  react-IsSynced flushes a w p h = h
  react-IsSynced shuts_down a w p h = h

  pub run-IsSynced :
      (arrivals : List Arrival) (w : DbWorker)
      → All (λ a. IsProper a.command) arrivals
      → IsSynced w
      → IsSynced (run c lower json arrivals w)
  unfolding run
  run-IsSynced [] w p h = h
  run-IsSynced (a ∷ arrivals) w p h =
      if_holds IsSynced (is_shutdown a.command) (λ last. h)
        λ more. run-IsSynced arrivals _ p.1 (react-IsSynced a.command a w p.0 h)

  -- From any tables, in the order of their keys, with which it starts, and whatever it is asked
  -- and whatever statements fail, the database thread keeps its memory and its tables together:
  -- each session that it holds has one row, which is open and names its window, and each open row
  -- has such a session; the stored configuration is the one in force; and while the history is
  -- disabled, no row is open. The windows that come with a change of the configuration have
  -- different identities.
  pub run-initialize-IsSynced :
      (faults : Faults) (now : Timestamp) (rows : Table) (settings : Settings) (w : DbWorker)
      (arrivals : List Arrival)
      → IsOrdered rows
      → All (λ a. IsProper a.command) arrivals
      → initialize c faults now rows settings ≡ ok w
      → let v = run c lower json arrivals w in
        Agree v.sessions v.active_sessions
        × (load_config v.settings ≡ ok v.config)
        × (v.config.history_enabled ≡ false
            → (k : Text) (r : Row) → get k v.sessions ≡ some r
            → is_open r ≡ false)
  run-initialize-IsSynced faults now rows settings w arrivals sorted p started =
      let h =
        run-IsSynced arrivals w p
          (initialize-IsSynced c faults now rows settings w sorted started) in
      (h.agree, IsStored-load_config _ _ h.settled, λ off k r e. none_open _ h off k r e)
    where
      empty : (r : Row) (s : ActiveSession) → get r.window_session_id [] ≡ some s → ⊥
      empty r s e = unfold get in cc

      none_open :
          (v : DbWorker)
          → IsSynced v
          → v.config.history_enabled ≡ false
          → (k : Text) (r : Row) → get k v.sessions ≡ some r
          → is_open r ≡ false
      none_open v h off k r e = elim (Bool-cases (is_open r)) [
        | inr closed ↦ closed
        | inl still ↦
            let (s, found, _) = h.agree.owned k r e still in
            absurd (empty r s (rw (h.idle off) at found))
      ]
