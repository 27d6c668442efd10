-- ===== src/Database/Worker/Synced.antt =====
-- The worker's memory, its tables and its configuration stay together, whatever fails
-- (portus-window/src/database/service.rs).
use mathlib.Core.Path.{subst}
use portus_window.Base.{
  ◌≡◌, refl, sym, ap, inl, inr, Bool, true, false, not, Option, none, some, [], arith, Option-cases,
  ok, bind-ok, Text, if_holds, not-false,
}
use portus_window.Base.OrdMap.{get, insert, remove, modify, text_key, contains_key}
use portus_window.Protocol.Windows.{ActiveWindow, CloseReason}
use portus_window.Database.Rows.{Table, Codecs, Faults, Statement, Timestamp, exec}
use portus_window.Database.Sessions.{
  ActiveSession, new_session, observe, is_open, insert_session, opened_row, timelines,
  update_session, update_open, updated, delete_open_row, closed_row,
}
use portus_window.Database.Sessions.Effects.{
  exec-ok, insert_session-ok, new_session-session_id, observe-session_id,
}
use portus_window.Database.Config.Loading.{IsStored}
use portus_window.Database.Worker.{
  Call, DbWorker, done, open_session, abort_open, sync_window, close_rows, close_session,
}
use portus_window.Database.Worker.Transactions.{settle_holds, close_rows-ok}
use portus_window.Database.Agreement.{Agree, Active, Agree-opened_at, Agree-observed}
use portus_window.Database.Agreement.Kept.{update_open-Agree, prune_closed-Agree}
use portus_window.Database.Agreement.Ended.{delete_open_row-Agree, update_open-ended}

-- While the history is disabled, no session is kept.
pub record IsSynced (w : DbWorker) : Type 0 where
  pub agree : Agree w.sessions w.active_sessions
  pub idle : w.config.history_enabled ≡ false → w.active_sessions ≡ []
  pub settled : IsStored w.settings w.config

pub clash : {b : Bool} → b ≡ true → b ≡ false → ⊥
clash t f = cc

absent : (id : Text) (active : Active) → contains_key id active ≡ false → get id active ≡ none
unfolding contains_key
absent id active h = ground arith

pub inserted-Agree :
    (c : Codecs) (fault : Option Text) (uuid : Text) (now : Timestamp) (window : ActiveWindow)
    (reset : Bool) (rows rows' : Table) (active : Active)
    → get window.window_session_id active ≡ none
    → insert_session c fault uuid window now reset rows ≡ ok rows'
    → Agree rows active
    → Agree rows' (insert window.window_session_id (new_session uuid window reset) active)
unfolding opened_row is_open
inserted-Agree c fault uuid now window reset rows rows' active free e a =
    let s = new_session uuid window reset in
    let (t, _, fresh, q) = insert_session-ok c fault uuid window now reset rows rows' e in
    rw q (
      Agree-opened_at rows active (opened_row s window t now) s uuid
        (new_session-session_id uuid window reset) fresh free refl a)

update_session-Agree :
    (c : Codecs) (faults : Faults) (s : ActiveSession) (window : ActiveWindow) (rows rows' : Table)
    (active : Active)
    → update_session c faults s window rows ≡ ok rows'
    → Agree rows active
    → Agree rows' active
unfolding update_session updated
update_session-Agree c faults s window rows rows' active h a =
    let (t, _, q) = bind-ok (timelines c s) _ _ h in
    rw (sym (exec-ok (faults Statement.update) _ rows' q))
      (update_open-Agree s.session_id (updated s window t) rows active (λ r. (refl, refl)) a)

close_rows-Agree :
    (c : Codecs) (faults : Faults) (s : ActiveSession) (window : ActiveWindow)
    (reason : CloseReason) (now : Timestamp) (w : DbWorker) (rows : Table) (id : Text)
    → close_rows c faults (observe window s) window reason now w ≡ ok rows
    → get id w.active_sessions ≡ some s
    → Agree w.sessions w.active_sessions
    → Agree rows (remove id w.active_sessions)
unfolding closed_row is_open
close_rows-Agree c faults s window reason now w rows id h found a =
    let seen = observe window s in
    let (t, p, _, pruned, q) = close_rows-ok c faults seen window reason now w rows h in
    let close = closed_row seen window reason now t in
    let ended =
      subst (λ k. Agree (update_open k close w.sessions) (remove id w.active_sessions))
        (sym (observe-session_id window s))
        (update_open-ended close w.sessions w.active_sessions id s (λ r. refl) found a) in
    rw q (prune_closed-Agree faults w.config now _ p (remove id w.active_sessions) pruned ended)

module _ (c : Codecs) (faults : Faults) where
  pub open_session-IsSynced :
      (uuid : Text) (now : Timestamp) (window : ActiveWindow) (reset : Bool) (w : DbWorker)
      → IsSynced w
      → IsSynced (open_session c faults uuid now window reset w).1
  unfolding open_session
  open_session-IsSynced uuid now window reset w h =
      if_holds (λ (r : Call (Unit {0})). IsSynced r.1) (not w.config.history_enabled) (λ off. h)
        λ on.
          if_holds (λ (r : Call (Unit {0})). IsSynced r.1)
            (contains_key window.window_session_id w.active_sessions) (λ taken. h)
            λ free.
              settle_holds IsSynced _ done _ w h
                (λ rows e. opened (not-false _ on) (absent _ _ free) rows e)
    where
      opened :
          w.config.history_enabled ≡ true
          → get window.window_session_id w.active_sessions ≡ none
          → (rows : Table)
          → insert_session c (faults (Statement.insert 0)) uuid window now reset w.sessions
            ≡ ok rows
          → IsSynced (record w {
            sessions = rows;
            active_sessions =
                insert window.window_session_id (new_session uuid window reset) w.active_sessions;
          })
      opened on free rows e = record {
        agree =
            inserted-Agree c (faults (Statement.insert 0)) uuid now window reset w.sessions rows
              w.active_sessions free e h.agree;
        idle = λ off. absurd (clash on off);
        settled = h.settled;
      }

  pub abort_open-IsSynced :
      (id : Text) (w : DbWorker) → IsSynced w → IsSynced (abort_open c faults id w).1
  unfolding abort_open remove
  abort_open-IsSynced id w h = elim (Option-cases (get id w.active_sessions)) [
    | inl e ↦ rw (e, abort_open) h
    | inr (s, e) ↦
        rw (e, abort_open)
          (settle_holds IsSynced
            (exec (faults Statement.delete_open) (delete_open_row s.session_id w.sessions)) done _ w
            h (λ rows q. removed s e rows (exec-ok (faults Statement.delete_open) _ rows q)))
  ]
    where
      removed :
          (s : ActiveSession)
          → get id w.active_sessions ≡ some s
          → (rows : Table) → delete_open_row s.session_id w.sessions ≡ rows
          → IsSynced (record w { sessions = rows; active_sessions = remove id w.active_sessions })
      removed s e rows q = record {
        agree = rw (sym q) (delete_open_row-Agree w.sessions w.active_sessions id s e h.agree);
        idle = λ off. ap (remove id) (h.idle off);
        settled = h.settled;
      }

  pub sync_window-IsSynced :
      (window : ActiveWindow) (w : DbWorker)
      → IsSynced w
      → IsSynced (sync_window c faults window w).1
  unfolding sync_window
  sync_window-IsSynced window w h =
      if_holds (λ (r : Call (Unit {0})). IsSynced r.1) (not w.config.history_enabled) (λ off. h)
        λ on. elim (Option-cases (get window.window_session_id w.active_sessions)) [
          | inl e ↦ rw (e, sync_window) h
          | inr (s, e) ↦
              rw (e, sync_window)
                (settle_holds IsSynced
                  (update_session c faults (observe window s) window w.sessions) done _ _
                  (seen w.sessions h.agree (not-false _ on))
                  (λ rows q.
                    seen rows
                      (update_session-Agree c faults (observe window s) window w.sessions rows
                        w.active_sessions q h.agree)
                      (not-false _ on)))
        ]
    where
      seen :
          (rows : Table)
          → Agree rows w.active_sessions
          → w.config.history_enabled ≡ true
          → IsSynced (record w {
            sessions = rows;
            active_sessions = modify window.window_session_id (observe window) w.active_sessions;
          })
      seen rows a on = record {
        agree =
            Agree-observed rows w.active_sessions window.window_session_id (observe window)
              (observe-session_id window) a;
        idle = λ off. absurd (clash on off);
        settled = h.settled;
      }

  pub close_session-IsSynced :
      (now : Timestamp) (window : ActiveWindow) (reason : CloseReason) (w : DbWorker)
      → IsSynced w
      → IsSynced (close_session c faults now window reason w).1
  unfolding close_session remove
  close_session-IsSynced now window reason w h =
      if_holds (λ (r : Call (Unit {0})). IsSynced r.1) (not w.config.history_enabled) (λ off. h)
        λ on. elim (Option-cases (get window.window_session_id w.active_sessions)) [
          | inl e ↦ rw (e, close_session) h
          | inr (s, e) ↦
              rw (e, close_session)
                (settle_holds IsSynced (close_rows c faults (observe window s) window reason now w)
                  done _ w h (λ rows q. closed s e rows q))
        ]
    where
      closed :
          (s : ActiveSession)
          → get window.window_session_id w.active_sessions ≡ some s
          → (rows : Table) → close_rows c faults (observe window s) window reason now w ≡ ok rows
          → IsSynced (record w {
            sessions = rows;
            active_sessions = remove window.window_session_id w.active_sessions;
          })
      closed s e rows q = record {
        agree =
            close_rows-Agree c faults s window reason now w rows window.window_session_id q e
              h.agree;
        idle = λ off. ap (remove window.window_session_id) (h.idle off);
        settled = h.settled;
      }
