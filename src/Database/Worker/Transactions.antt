-- ===== src/Database/Worker/Transactions.antt =====
-- What a transaction that is committed has made of the tables
-- (portus-window/src/database/service.rs).
use portus_window.Base.{ℕ, ◌≡◌, ◌∙◌, refl, sym, ap, true, false, List, [], ok, err, bind-ok, Text}
use portus_window.Base.OrdMap.{OrdMap, insert, text_key}
use portus_window.Protocol.Windows.{ActiveWindow, CloseReason}
use portus_window.Protocol.History.{Configuration}
use portus_window.Database.Rows.{Table, Codecs, Faults, Statement, Stored, Timestamp}
use portus_window.Database.Sessions.{
  ActiveSession, is_open, Timelines, timelines, update_open, close_session_row, closed_row,
  delete_where, prune_closed,
}
use portus_window.Database.Sessions.Effects.{exec-ok}
use portus_window.Database.Config.{Settings, enabled_key, days_key, enabled_text, days_text}
use portus_window.Database.Worker.{
  DbWorker, settle, attempt, close_rows, insert_all, set_config_value, enable_rows, disable_rows,
  retain_rows,
}

-- Either the statements have succeeded and the change is made, or the worker is the old one.
pub settle_holds :
    {A B S : Type 0} (P : A → Type 0) (r : Stored S) (result : S → B) (change : S → A) (old : A)
    → P old
    → ((s : S) → r ≡ ok s → P (change s))
    → P (settle r result change old).1
unfolding settle
settle_holds P (ok s) result change old h k = k s refl
settle_holds P (err e) result change old h k = h

module _ (c : Codecs) (faults : Faults) where
  -- The transaction that closes a session: the row is closed, and the table pruned.
  pub close_rows-ok :
      (s : ActiveSession) (window : ActiveWindow) (reason : CloseReason) (now : Timestamp)
      (w : DbWorker) (rows : Table)
      → close_rows c faults s window reason now w ≡ ok rows
      → (t : Timelines) × (p : ℕ × Table) × (timelines c s ≡ ok t)
        × (prune_closed faults w.config now
              (update_open s.session_id (closed_row s window reason now t) w.sessions)
            ≡ ok p)
        × (rows ≡ p.1)
  unfolding close_rows close_session_row
  close_rows-ok s window reason now w rows h =
      let (_, _, h1) = bind-ok (attempt (faults Statement.begin)) _ _ h in
      let (closed, e, h2) =
        bind-ok (close_session_row c faults s window reason now w.sessions) _ _ h1 in
      let (p, pruned, h3) = bind-ok (prune_closed faults w.config now closed) _ _ h2 in
      let (t, written, q) = bind-ok (timelines c s) _ _ e in
      (
        t,
        p,
        written,
        rw (exec-ok (faults Statement.close_row) _ closed q) pruned,
        sym (exec-ok (faults Statement.commit) _ rows h3),
      )

  set_config_value-ok :
      (key value : Text) (s t : Settings)
      → set_config_value c faults key value s ≡ ok t
      → t ≡ insert key value s
  unfolding set_config_value
  set_config_value-ok key value s t h = sym (exec-ok (faults Statement.set_value) _ t h)

  pub enable_rows-ok :
      (uuids : ℕ → Text) (now : Timestamp) (windows : List ActiveWindow) (w : DbWorker)
      (s : Settings × Table × OrdMap Text ActiveSession)
      → enable_rows c faults uuids now windows w ≡ ok s
      → (s.0 ≡ insert enabled_key (enabled_text true) w.settings)
        × (insert_all c faults uuids now 0 windows (w.sessions, []) ≡ ok (s.1, s.2))
  unfolding enable_rows
  enable_rows-ok uuids now windows w s h =
      let (_, _, h1) = bind-ok (attempt (faults Statement.begin)) _ _ h in
      let (settings, set, h2) =
        bind-ok (set_config_value c faults enabled_key (enabled_text true) w.settings) _ _ h1 in
      let (t, inserted, h3) =
        bind-ok (insert_all c faults uuids now 0 windows (w.sessions, [])) _ _ h2 in
      let q = exec-ok (faults Statement.commit) _ s h3 in
      (
        sym (ap (λ (u : Settings × Table × OrdMap Text ActiveSession). u.0) q)
            ∙ set_config_value-ok enabled_key (enabled_text true) w.settings settings set,
        inserted ∙ ap (λ (u : Settings × Table × OrdMap Text ActiveSession). ok (u.1, u.2)) q,
      )

  pub disable_rows-ok :
      (w : DbWorker) (s : Settings × Table)
      → disable_rows c faults w ≡ ok s
      → (s.0 ≡ insert enabled_key (enabled_text false) w.settings)
        × (s.1 ≡ delete_where (λ e. is_open e.1) w.sessions)
  unfolding disable_rows
  disable_rows-ok w s h =
      let (_, _, h1) = bind-ok (attempt (faults Statement.begin)) _ _ h in
      let (rows, deleted, h2) = bind-ok _ _ _ h1 in
      let (settings, set, h3) =
        bind-ok (set_config_value c faults enabled_key (enabled_text false) w.settings) _ _ h2 in
      let q = exec-ok (faults Statement.commit) _ s h3 in
      (
        sym (ap (λ (u : Settings × Table). u.0) q)
            ∙ set_config_value-ok enabled_key (enabled_text false) w.settings settings set,
        sym (ap (λ (u : Settings × Table). u.1) q)
            ∙ sym (exec-ok (faults Statement.delete_all_open) _ rows deleted),
      )

  pub retain_rows-ok :
      (config : Configuration) (now : Timestamp) (w : DbWorker) (s : Settings × Table)
      → retain_rows c faults config now w ≡ ok s
      → (n : ℕ) × (s.0 ≡ insert days_key (days_text config.retention_days) w.settings)
        × (prune_closed faults config now w.sessions ≡ ok (n, s.1))
  unfolding retain_rows
  retain_rows-ok config now w s h =
      let (_, _, h1) = bind-ok (attempt (faults Statement.begin)) _ _ h in
      let (settings, set, h2) =
        bind-ok (set_config_value c faults days_key (days_text config.retention_days) w.settings) _
          _ h1 in
      let (p, pruned, h3) = bind-ok (prune_closed faults config now w.sessions) _ _ h2 in
      let q = exec-ok (faults Statement.commit) _ s h3 in
      (
        p.0,
        sym (ap (λ (u : Settings × Table). u.0) q)
            ∙ set_config_value-ok days_key (days_text config.retention_days) w.settings settings
                set,
        pruned ∙ ap (λ (u : Settings × Table). ok (p.0, u.1)) q,
      )
