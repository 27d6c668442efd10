-- ===== src/Database/Worker/Closed.antt =====
-- What closing a session leaves where no statement fails (portus-window/src/database/service.rs).
use portus_window.Base.{
  ℕ, ◌-◌, ◌*◌, ◌≡◌, refl, length, ◌∙◌, Bool, true, false, Option, none, some, [], arith, ok, ◌>>=◌,
  Text,
}
use portus_window.Base.OrdMap.{get, text_key}
use portus_window.Base.OrdMap.Entries.{IsOrdered}
use portus_window.Base.OrdMap.Laws.{get-modify, get-remove}
use portus_window.Protocol.Windows.{ActiveWindow, CloseReason}
use portus_window.Protocol.History.{Configuration}
use portus_window.Database.Rows.{Row, Table, Codecs, Faults, Statement, Timestamp}
use portus_window.Database.Sessions.{
  ActiveSession, observe, is_open, is_expired, delete_where, Timelines, timelines, update_open,
  closed_row, close_session_row, prune_closed,
}
use portus_window.Database.Sessions.Effects.{observe-session_id, update_open-IsOrdered}
use portus_window.Database.Worker.{DbWorker, settle, close_rows, close_session}
use portus_window.Database.Worker.Synced.{IsSynced}
use portus_window.Database.Agreement.Kept.{get-delete_where}

abbrev pub IsQuiet : Faults → Type 0
IsQuiet faults = (s : Statement) → faults s ≡ none

-- What pruning leaves.
abbrev left : Option ℕ → Timestamp → Table → Table
left none now rows = rows
left (some days) now rows = delete_where (λ e. is_expired (now - days * 86400) e.1) rows

prune_closed-quiet :
    (faults : Faults) (config : Configuration) (now : Timestamp) (rows : Table)
    → IsQuiet faults
    → (n : ℕ) × (prune_closed faults config now rows ≡ ok (n, left config.retention_days now rows))
unfolding prune_closed
prune_closed-quiet faults config now rows quiet = go config.retention_days refl
  where
    go :
        (days : Option ℕ)
        → config.retention_days ≡ days
        → (n : ℕ) × (prune_closed faults config now rows ≡ ok (n, left days now rows))
    go none e = (0, rw e refl)
    go (some days) e =
        (length rows - length (left (some days) now rows), rw (e, quiet Statement.prune) refl)

-- A row that is closed now has not expired.
get-left :
    (days : Option ℕ) (now : Timestamp) (rows : Table) (k : Text) (r : Row)
    → IsOrdered rows
    → get k rows ≡ some r
    → r.closed_at ≡ some now
    → get k (left days now rows) ≡ some r
get-left none now rows k r sorted e closed = e
get-left (some days) now rows k r sorted e closed =
    get-delete_where (λ d. is_expired (now - days * 86400) d.1) k rows sorted ∙ rw (e, fresh) refl
  where
    fresh : is_expired (now - days * 86400) r ≡ false
    fresh = unfold is_expired in rw closed (ground arith)

module _ (c : Codecs) (faults : Faults) (now : Timestamp) (window : ActiveWindow)
    (reason : CloseReason) where
  -- The table behind the closing.
  abbrev closed_table : ActiveSession → Timelines → DbWorker → Table
  closed_table s t w =
      left w.config.retention_days now
        (update_open s.session_id (closed_row s window reason now t) w.sessions)

  close_rows-quiet :
      (s : ActiveSession) (t : Timelines) (w : DbWorker)
      → IsQuiet faults
      → timelines c s ≡ ok t
      → close_rows c faults s window reason now w ≡ ok (closed_table s t w)
  unfolding close_rows close_session_row
  close_rows-quiet s t w quiet written =
      let (n, p) =
        prune_closed-quiet faults w.config now
          (update_open s.session_id (closed_row s window reason now t) w.sessions) quiet in
      rw (quiet Statement.begin, ◌>>=◌)
        (rw (written, ◌>>=◌)
          (rw (quiet Statement.close_row, ◌>>=◌)
            (rw (p, ◌>>=◌) (rw (quiet Statement.commit) refl))))

  -- In a thread whose memory and tables are together, where no statement fails and the timelines
  -- can be written, closing a window whose session is held succeeds: the session's row, which was
  -- open, is closed now for this reason and with the window's last state, no retention prunes it,
  -- and the session is released.
  pub close_session-closes :
      (w : DbWorker) (s : ActiveSession) (t : Timelines)
      → IsSynced w
      → IsQuiet faults
      → get window.window_session_id w.active_sessions ≡ some s
      → timelines c (observe window s) ≡ ok t
      → let closing = close_session c faults now window reason w in
        (r : Row) × (closing.0 ≡ ok tt)
        × (get s.session_id w.sessions ≡ some r)
        × (is_open r ≡ true)
        × (get s.session_id closing.1.sessions
            ≡ some (closed_row (observe window s) window reason now t r))
        × (get window.window_session_id closing.1.active_sessions ≡ none)
  unfolding close_session settle
  close_session-closes w s t h quiet held written =
      let (r, there, _, open_row) = h.agree.held window.window_session_id s held in
      let rows = close_rows-quiet (observe window s) t w quiet written in
      rw (enabled w.config.history_enabled refl) (
        rw held (
          rw rows (
            r,
            refl,
            there,
            open_row,
            get-left w.config.retention_days now _ s.session_id _
                (update_open-IsOrdered _ _ w.sessions h.agree.ordered) (found r there open_row)
                (closed r),
            get-remove window.window_session_id window.window_session_id w.active_sessions
                ∙ rw (text_key.eq_refl window.window_session_id) refl,
          )))
    where
      no_session : get window.window_session_id [] ≡ some s → ⊥
      no_session e = unfold get in cc

      enabled : (b : Bool) → w.config.history_enabled ≡ b → w.config.history_enabled ≡ true
      enabled true e = e
      enabled false e = absurd (no_session (rw (h.idle e) at held))

      found :
          (r : Row)
          → get s.session_id w.sessions ≡ some r
          → is_open r ≡ true
          → get s.session_id (
              update_open
                (observe window s).session_id
                (closed_row (observe window s) window reason now t)
                w.sessions)
            ≡ some (closed_row (observe window s) window reason now t r)
      found r there open_row =
          unfold update_open in
          rw (observe-session_id window s) (
            get-modify s.session_id s.session_id _ w.sessions
            ∙ rw (text_key.eq_refl s.session_id, there, open_row) refl)

      closed :
          (r : Row) → (closed_row (observe window s) window reason now t r).closed_at ≡ some now
      closed r = unfold closed_row in refl
