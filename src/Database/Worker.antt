-- ===== src/Database/Worker.antt =====
-- The thread that owns the database: `DbWorker` and its commands
-- (portus-window/src/database/service.rs).
pub mod Transactions
pub mod Synced
pub mod Configured
pub mod Started
pub mod Closed
use portus_window.Base.{
  ℕ, suc, ◌-◌, ◌+◌, Bool, true, false, not, Option, none, some, List, [], ◌∷◌, ◌++◌, map,
  if◌then◌else◌, ◌==◌, length, is_some, Text, text, Result, ok, err, ◌>>=◌,
}
use portus_window.Base.OrdMap.{OrdMap, get, insert, remove, modify, contains_key, text_key}
use portus_window.Protocol.Windows.{
  ActiveWindow, CloseReason, abrupt_termination, ConfigAction, show, set_history_enabled,
  set_retention_days,
}
use portus_window.Protocol.History.{Configuration, ClearHistoryResult}
use portus_window.Database.Rows.{
  PersistenceError, storage, Stored, Timestamp, Row, Table, Codecs, Faults, Statement, exec,
  close_reason_str,
}
use portus_window.Database.Sessions.{
  ActiveSession, new_session, observe, is_open, delete_where, delete_open_row, insert_session,
  update_session, close_session_row, prune_closed,
}
use portus_window.Database.Config.{
  Settings, enabled_key, days_key, load_config, initialize_config, enabled_text, days_text,
  validate_config_action,
}

pub record DbWorker : Type 0 where
  pub sessions : Table
  pub settings : Settings
  pub config : Configuration
  pub active_sessions : OrdMap Text ActiveSession

-- What a call returns, and the worker behind it.
abbrev pub Call : Type 0 → Type 0
Call A = Stored A × DbWorker

unfoldable pub same_flag : Bool → Bool → Bool
same_flag true b = b
same_flag false b = not b

unfoldable same_days : Option ℕ → Option ℕ → Bool
same_days none none = true
same_days none (some n) = false
same_days (some m) none = false
same_days (some m) (some n) = m == n

-- A change that is made if its statements succeed.
unfoldable settle : {A B S : Type 0} → Stored S → (S → B) → (S → A) → A → Stored B × A
settle (ok s) result change old = (ok (result s), change s)
settle (err e) result change old = (err e, old)

-- A statement that returns nothing.
abbrev pub attempt : Option Text → Stored (Unit {0})
attempt fault = exec fault tt

abbrev done : {A : Type 0} → A → Unit {0}
done a = tt

-- What `apply_config` answers once the action is done.
abbrev pub configured : Call (Unit {0}) → Call Configuration
configured (ok t, w) = (ok w.config, w)
configured (err e, w) = (err e, w)

-- What a terminated process has left open is closed.
unfoldable pub close_abruptly : Timestamp → Row → Row
close_abruptly now r =
    if is_open r
    then record r {
      closed_at = some now;
      close_reason = some (close_reason_str abrupt_termination);
    }
    else r

module _ (c : Codecs) (faults : Faults) where
  -- `uuid` is what `Uuid::new_v4` draws, `now` the time.
  unfoldable pub open_session : Text → Timestamp → ActiveWindow → Bool → DbWorker → Call (Unit {0})
  unfolding settle
  open_session uuid now window reset w =
      let id = window.window_session_id in
      let inserted =
        insert_session c (faults (Statement.insert 0)) uuid window now reset w.sessions in
      if not w.config.history_enabled
      then (ok tt, w)
      else if contains_key id w.active_sessions
      then (
        err (storage (text "window '" ++ (id ++ text "' already has an active persisted session"))),
        w,
      )
      else settle inserted done
          (λ rows. record w {
            sessions = rows;
            active_sessions = insert id (new_session uuid window reset) w.active_sessions;
          })
          w

  unfoldable pub abort_open : Text → DbWorker → Call (Unit {0})
  unfolding settle
  abort_open id w = elim (get id w.active_sessions) [
    | none ↦ (ok tt, w)
    | some session ↦
        settle (exec (faults Statement.delete_open) (delete_open_row session.session_id w.sessions))
          done (λ rows. record w { sessions = rows; active_sessions = remove id w.active_sessions })
          w
  ]

  -- The session has observed the window also if its row cannot be updated.
  unfoldable pub sync_window : ActiveWindow → DbWorker → Call (Unit {0})
  unfolding settle
  sync_window window w =
      let id = window.window_session_id in
      if not w.config.history_enabled then (ok tt, w) else elim (get id w.active_sessions) [
        | none ↦ (ok tt, w)
        | some session ↦
            let seen = record w {
              active_sessions = modify id (observe window) w.active_sessions;
            } in
            settle (update_session c faults (observe window session) window w.sessions) done
              (λ rows. record seen { sessions = rows }) seen
      ]

  -- The transaction of `close_session`.
  unfoldable close_rows :
      ActiveSession → ActiveWindow → CloseReason → Timestamp → DbWorker → Stored Table
  close_rows session window reason now w = attempt (faults Statement.begin) >>= λ _.
      close_session_row c faults session window reason now w.sessions >>= λ closed.
      prune_closed faults w.config now closed >>= λ pruned. exec (faults Statement.commit) pruned.1

  unfoldable pub close_session : Timestamp → ActiveWindow → CloseReason → DbWorker → Call (Unit {0})
  unfolding settle close_rows
  close_session now window reason w =
      let id = window.window_session_id in
      if not w.config.history_enabled then (ok tt, w) else elim (get id w.active_sessions) [
        | none ↦ (ok tt, w)
        | some session ↦
            settle (close_rows (observe window session) window reason now w) done
              (λ rows. record w { sessions = rows; active_sessions = remove id w.active_sessions })
              w
      ]

  unfoldable pub clear_history : DbWorker → Call ClearHistoryResult
  unfolding settle
  clear_history w =
      let kept = delete_where (λ e. not (is_open e.1)) w.sessions in
      settle (exec (faults Statement.delete_closed) kept)
        (λ rows. record { deleted = length w.sessions - length rows })
        (λ rows. record w { sessions = rows }) w

  -- The loop of `enable_history` over the windows from one index on.
  unfoldable insert_all :
      (ℕ → Text)
      → Timestamp
      → ℕ
      → List ActiveWindow
      → Table × OrdMap Text ActiveSession
      → Stored (Table × OrdMap Text ActiveSession)
  insert_all uuids now i [] s = ok s
  insert_all uuids now i (window ∷ windows) s =
      elim (insert_session c (faults (Statement.insert i)) (uuids i) window now true s.0) [
        | err e ↦ err e
        | ok rows ↦
            insert_all uuids now (suc i) windows
              (rows, insert window.window_session_id (new_session (uuids i) window true) s.1)
      ]

  set_config_value : Text → Text → Settings → Stored Settings
  set_config_value key value s = exec (faults Statement.set_value) (insert key value s)

  -- The transaction of `enable_history`.
  unfoldable enable_rows :
      (ℕ → Text)
      → Timestamp
      → List ActiveWindow
      → DbWorker
      → Stored (Settings × Table × OrdMap Text ActiveSession)
  unfolding set_config_value insert_all
  enable_rows uuids now windows w = attempt (faults Statement.begin) >>= λ _.
      set_config_value enabled_key (enabled_text true) w.settings >>= λ settings.
      insert_all uuids now 0 windows (w.sessions, []) >>= λ s.
      exec (faults Statement.commit) (settings, s.0, s.1)

  unfoldable enable_history :
      (ℕ → Text) → Timestamp → List ActiveWindow → DbWorker → Call (Unit {0})
  unfolding settle enable_rows
  enable_history uuids now windows w =
      settle (enable_rows uuids now windows w) done
        (λ s. record w {
          settings = s.0;
          sessions = s.1;
          active_sessions = s.2;
          config = record w.config { history_enabled = true };
        })
        w

  -- The transaction that disables the history.
  unfoldable disable_rows : DbWorker → Stored (Settings × Table)
  unfolding set_config_value
  disable_rows w = attempt (faults Statement.begin) >>= λ _.
      exec (faults Statement.delete_all_open) (delete_where (λ e. is_open e.1) w.sessions)
      >>= λ rows. set_config_value enabled_key (enabled_text false) w.settings >>= λ settings.
          exec (faults Statement.commit) (settings, rows)

  unfoldable disable_history : DbWorker → Call (Unit {0})
  unfolding settle disable_rows
  disable_history w =
      settle (disable_rows w) done
        (λ s. record w {
          settings = s.0;
          sessions = s.1;
          active_sessions = [];
          config = record w.config { history_enabled = false };
        })
        w

  -- The transaction that sets the days of retention.
  unfoldable retain_rows : Configuration → Timestamp → DbWorker → Stored (Settings × Table)
  unfolding set_config_value
  retain_rows config now w = attempt (faults Statement.begin) >>= λ _.
      set_config_value days_key (days_text config.retention_days) w.settings >>= λ settings.
      prune_closed faults config now w.sessions >>= λ pruned.
      exec (faults Statement.commit) (settings, pruned.1)

  unfoldable set_days : Timestamp → Option ℕ → DbWorker → Call (Unit {0})
  unfolding settle retain_rows
  set_days now days w =
      let config = record w.config { retention_days = days } in
      settle (retain_rows config now w) done
        (λ s. record w { settings = s.0; sessions = s.1; config = config }) w

  unfoldable pub act :
      (ℕ → Text) → Timestamp → ConfigAction → List ActiveWindow → DbWorker → Call (Unit {0})
  unfolding enable_history disable_history set_days same_days
  act uuids now show windows w = (ok tt, w)
  act uuids now (set_history_enabled enabled) windows w =
      if same_flag enabled w.config.history_enabled
      then (ok tt, w)
      else if enabled
      then enable_history uuids now windows w
      else disable_history w
  act uuids now (set_retention_days days) windows w =
      if same_days days w.config.retention_days then (ok tt, w) else set_days now days w

  unfoldable pub apply_config :
      (ℕ → Text) → Timestamp → ConfigAction → List ActiveWindow → DbWorker → Call Configuration
  unfolding act
  apply_config uuids now action windows w = elim (validate_config_action action) [
    | err e ↦ (err e, w)
    | ok t ↦ configured (act uuids now action windows w)
  ]

  -- `DbWorker::initialize` on the tables of a database with the current schema.
  unfoldable pub initialize : Timestamp → Table → Settings → Stored DbWorker
  unfolding close_abruptly
  initialize now rows settings =
      let stored = initialize_config settings in
      attempt (faults Statement.set_value) >>= λ _. load_config stored >>= λ config.
      exec (faults Statement.close_row) (map (λ e. (e.0, close_abruptly now e.1)) rows)
      >>= λ closed. prune_closed faults config now closed >>= λ pruned.
          ok (record {
            sessions = pruned.1;
            settings = stored;
            config = config;
            active_sessions = [];
          })
