-- ===== src/Database/Commands/Disabled.antt =====
-- While the history is disabled, nothing is recorded (portus-window/src/database/service.rs).
use mathlib.Core.Path.{subst}
use portus_window.Base.{
  not-false, ap, ◌≡◌, refl, ◌∙◌, sym, Bool, true, false, not, Option, none, some, [], arith, Text,
  if_holds,
}
use portus_window.Base.OrdMap.{get, text_key}
use portus_window.Base.OrdMap.Retained.{if_kept}
use portus_window.Protocol.Windows.{ActiveWindow, CloseReason}
use portus_window.Protocol.Frame.{Json}
use portus_window.Protocol.History.{HistoricalWindow}
use portus_window.Database.Rows.{Codecs, Faults, Timestamp, Row, Table, Statement, exec}
use portus_window.Database.Sessions.{ActiveSession, is_open, delete_where}
use portus_window.Database.Worker.{
  Call, DbWorker, open_session, abort_open, sync_window, close_session, clear_history,
}
use portus_window.Database.Agreement.Kept.{get-delete_where}
use portus_window.Database.Sessions.Effects.{exec-ok}
use portus_window.Database.Worker.Transactions.{settle_holds}
use portus_window.Database.Worker.Synced.{IsSynced, clash}
use portus_window.Database.Commands.{
  DbCommand, opens, aborts, syncs, closes, queries, clears, configures, flushes, shuts_down,
  Arrival, react,
}

-- Every row of the second table stands in the first.
abbrev pub IsPart : Table → Table → Type 0
IsPart rows rows' = (k : Text) (r : Row) → get k rows' ≡ some r → get k rows ≡ some r

abbrev is_configuring : DbCommand → Bool
is_configuring (configures action windows) = true
is_configuring _ = false

unchanged : (w v : DbWorker) → v ≡ w → IsPart w.sessions v.sessions
unchanged w v e k r h = subst (λ (u : DbWorker). get k u.sessions ≡ some r) e h

module _ (c : Codecs) (faults : Faults) where
  open_session-disabled :
      (uuid : Text) (now : Timestamp) (window : ActiveWindow) (reset : Bool) (w : DbWorker)
      → w.config.history_enabled ≡ false
      → (open_session c faults uuid now window reset w).1 ≡ w
  unfolding open_session
  open_session-disabled uuid now window reset w off =
      if_holds (λ (r : Call (Unit {0})). r.1 ≡ w) (not w.config.history_enabled) (λ skip. refl)
        (λ on. absurd (clash (not-false _ on) off))

  sync_window-disabled :
      (window : ActiveWindow) (w : DbWorker)
      → w.config.history_enabled ≡ false
      → (sync_window c faults window w).1 ≡ w
  unfolding sync_window
  sync_window-disabled window w off =
      if_holds (λ (r : Call (Unit {0})). r.1 ≡ w) (not w.config.history_enabled) (λ skip. refl)
        (λ on. absurd (clash (not-false _ on) off))

  close_session-disabled :
      (now : Timestamp) (window : ActiveWindow) (reason : CloseReason) (w : DbWorker)
      → w.config.history_enabled ≡ false
      → (close_session c faults now window reason w).1 ≡ w
  unfolding close_session
  close_session-disabled now window reason w off =
      if_holds (λ (r : Call (Unit {0})). r.1 ≡ w) (not w.config.history_enabled) (λ skip. refl)
        (λ on. absurd (clash (not-false _ on) off))

  abort_open-idle :
      (id : Text) (w : DbWorker) → w.active_sessions ≡ [] → (abort_open c faults id w).1 ≡ w
  unfolding abort_open
  abort_open-idle id w none_held =
      let e : get id w.active_sessions ≡ none = ap (get id) none_held ∙ nothing_there id in
      rw (e, abort_open) refl
    where
      nothing_there : (id : Text) → get {V = ActiveSession} id [] ≡ none
      nothing_there id = unfold get in refl

  clear_history-IsPart :
      (w : DbWorker) → IsSynced w → IsPart w.sessions (clear_history c faults w).1.sessions
  unfolding clear_history
  clear_history-IsPart w h =
      settle_holds (λ (v : DbWorker). IsPart w.sessions v.sessions)
        (exec (faults Statement.delete_closed) (delete_where (λ d. not (is_open d.1)) w.sessions)) _
        _ w (λ k r e. e)
        λ rows q k r e. left k r (get k w.sessions) (
          sym (get-delete_where (λ d. not (is_open d.1)) k w.sessions h.agree.ordered)
          ∙ ap (get k) (exec-ok (faults Statement.delete_closed) _ rows q)
          ∙ e)
    where
      left :
          (k : Text) (r : Row) (o : Option Row)
          → if_kept (λ d. not (not (is_open d.1))) k o ≡ some r
          → o ≡ some r
      left k r none e = cc
      left k r (some x) e = ground arith

module _ (c : Codecs) (lower : Text → Text) (json : Json HistoricalWindow) where
  -- In a thread whose memory and tables are together, while the history is disabled, no command
  -- but one that changes the configuration adds or changes a row.
  pub react-IsPart :
      (command : DbCommand) (a : Arrival) (w : DbWorker)
      → IsSynced w
      → w.config.history_enabled ≡ false
      → is_configuring command ≡ false
      → IsPart w.sessions (react c lower json command a w).1.sessions
  unfolding react
  react-IsPart (opens window reset) a w h off other =
      unchanged w _ (open_session-disabled c a.faults (a.uuids 0) a.now window reset w off)
  react-IsPart (aborts id) a w h off other =
      unchanged w _ (abort_open-idle c a.faults id w (h.idle off))
  react-IsPart (syncs window) a w h off other =
      unchanged w _ (sync_window-disabled c a.faults window w off)
  react-IsPart (closes window reason) a w h off other =
      unchanged w _ (close_session-disabled c a.faults a.now window reason w off)
  react-IsPart (queries query) a w h off other = λ k r e. e
  react-IsPart clears a w h off other = clear_history-IsPart c a.faults w h
  react-IsPart (configures action windows) a w h off other = absurd (contradiction other)
    where
      contradiction : true ≡ false → ⊥
      contradiction e = cc
  react-IsPart flushes a w h off other = λ k r e. e
  react-IsPart shuts_down a w h off other = λ k r e. e
