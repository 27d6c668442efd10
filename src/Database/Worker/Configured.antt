-- ===== src/Database/Worker/Configured.antt =====
-- The calls that change the configuration or delete history keep the worker together
-- (portus-window/src/database/service.rs).
use mathlib.Core.Path.{subst}
use portus_window.Base.{
  ok_injective, ℕ, suc, ◌≡◌, refl, ◌∙◌, sym, inl, inr, Bool, true, false, not, Option, none, some,
  List, [], ◌∷◌, arith, Result-cases, ok, err, Text, text_eq, All, Pairwise, if_holds,
}
use portus_window.Base.OrdMap.{OrdMap, get, insert, text_key}
use portus_window.Base.OrdMap.Laws.{get-insert_other}
use portus_window.Base.OrdMap.Retained.{if_kept}
use portus_window.Protocol.Windows.{
  ActiveWindow, ConfigAction, show, set_history_enabled, set_retention_days,
}
use portus_window.Database.Rows.{
  Row, Table, Codecs, Faults, Statement, Timestamp, exec, PersistenceError,
}
use portus_window.Database.Sessions.{
  ActiveSession, new_session, is_open, insert_session, delete_where,
}
use portus_window.Database.Sessions.Effects.{exec-ok}
use portus_window.Database.Config.{Settings, validate_config_action, is_bad_days}
use portus_window.Database.Config.Loading.{IsRetention, IsStored, IsStored-enabled, IsStored-days}
use portus_window.Database.Worker.{
  Call, DbWorker, done, clear_history, insert_all, enable_rows, enable_history, disable_rows,
  disable_history, retain_rows, set_days, act, same_flag, same_days, configured, apply_config,
}
use portus_window.Database.Worker.Transactions.{
  settle_holds, enable_rows-ok, disable_rows-ok, retain_rows-ok,
}
use portus_window.Database.Agreement.{Agree, Active}
use portus_window.Database.Agreement.Kept.{
  delete_where-Agree, prune_closed-Agree, get-delete_where, delete_where-IsOrdered,
}
use portus_window.Database.Worker.Synced.{IsSynced, inserted-Agree, clash}

-- The windows of a list have identities of their own.
abbrev pub IsDistinct : List ActiveWindow → Type 0
IsDistinct = Pairwise λ v w. text_eq v.window_session_id w.window_session_id ≡ false

-- Without open rows there is nothing to hold.
none_open-Agree :
    (rows : Table) (active : Active)
    → Agree rows active
    → Agree (delete_where (λ e. is_open e.1) rows) []
none_open-Agree rows active a = record {
  ordered = delete_where-IsOrdered (λ e. is_open e.1) rows a.ordered;
  held = λ id s h. absurd (missing id s h);
  owned = λ k r h still. absurd (
      gone k r (get k rows) (sym (get-delete_where (λ e. is_open e.1) k rows a.ordered) ∙ h) still);
}
  where
    missing : (id : Text) (s : ActiveSession) → get {V = ActiveSession} id [] ≡ some s → ⊥
    missing id s h = unfold get in cc

    gone :
        (k : Text) (r : Row) (o : Option Row)
        → if_kept (λ e. not (is_open e.1)) k o ≡ some r
        → is_open r ≡ true
        → ⊥
    gone k r none h still = cc
    gone k r (some x) h still = ground arith

validate_config_action-IsRetention :
    (days : Option ℕ) → validate_config_action (set_retention_days days) ≡ ok tt → IsRetention days
unfolding validate_config_action is_bad_days
validate_config_action-IsRetention none h = tt
validate_config_action-IsRetention (some days) h = ground arith

module _ (c : Codecs) (faults : Faults) where
  pub clear_history-IsSynced : (w : DbWorker) → IsSynced w → IsSynced (clear_history c faults w).1
  unfolding clear_history
  clear_history-IsSynced w h =
      settle_holds IsSynced
        (exec (faults Statement.delete_closed) (delete_where (λ e. not (is_open e.1)) w.sessions)) _
        _ w h
        λ rows q. record {
          agree = rw (sym (exec-ok (faults Statement.delete_closed) _ rows q)) (
              delete_where-Agree (λ e. not (is_open e.1)) w.sessions w.active_sessions
                (λ k r still. rw still refl) h.agree);
          idle = h.idle;
          settled = h.settled;
        }

  -- The sessions of all windows are inserted.
  insert_all-Agree :
      (uuids : ℕ → Text) (now : Timestamp) (i : ℕ) (windows : List ActiveWindow)
      (s t : Table × OrdMap Text ActiveSession)
      → insert_all c faults uuids now i windows s ≡ ok t
      → IsDistinct windows
      → All (λ w. get w.window_session_id s.1 ≡ none) windows
      → Agree s.0 s.1
      → Agree t.0 t.1
  unfolding insert_all
  insert_all-Agree uuids now i [] s t h distinct free a =
      subst (λ u. Agree u.0 u.1) (ok_injective h) a
  insert_all-Agree uuids now i (window ∷ windows) s t h distinct free a =
      elim (Result-cases
        (insert_session c (faults (Statement.insert i)) (uuids i) window now true s.0)) [
          | inr (e, q) ↦ absurd (no_table (rw (q, insert_all) at h))
          | inl (rows, q) ↦
              let new = new_session (uuids i) window true in
              insert_all-Agree uuids now (suc i) windows
                (rows, insert window.window_session_id new s.1) t (rw (q, insert_all) at h)
                distinct.1 (still_free new windows distinct.0 free.1)
                (inserted-Agree c (faults (Statement.insert i)) (uuids i) now window true s.0 rows
                  s.1 free.0 q a)
        ]
    where
      no_table : {e : PersistenceError} → err e ≡ ok t → ⊥
      no_table q = cc

      still_free :
          (new : ActiveSession) (others : List ActiveWindow)
          → All (λ w. text_eq window.window_session_id w.window_session_id ≡ false) others
          → All (λ w. get w.window_session_id s.1 ≡ none) others
          → All
              (λ w. get w.window_session_id (insert window.window_session_id new s.1) ≡ none)
              others
      still_free new [] d f = tt
      still_free new (w ∷ others) d f = (
        get-insert_other window.window_session_id w.window_session_id new s.1 d.0 ∙ f.0,
        still_free new others d.1 f.1,
      )

  enable_history-IsSynced :
      (uuids : ℕ → Text) (now : Timestamp) (windows : List ActiveWindow) (w : DbWorker)
      → IsDistinct windows
      → w.config.history_enabled ≡ false
      → IsSynced w
      → IsSynced (enable_history c faults uuids now windows w).1
  unfolding enable_history
  enable_history-IsSynced uuids now windows w distinct off h =
      settle_holds IsSynced (enable_rows c faults uuids now windows w) done _ w h enabled
    where
      free :
          (others : List ActiveWindow)
          → All (λ v. get {V = ActiveSession} v.window_session_id [] ≡ none) others
      free [] = tt
      free (v ∷ others) = (unfold get in refl, free others)

      enabled :
          (s : Settings × Table × OrdMap Text ActiveSession)
          → enable_rows c faults uuids now windows w ≡ ok s
          → IsSynced (record w {
            settings = s.0;
            sessions = s.1;
            active_sessions = s.2;
            config = record w.config { history_enabled = true };
          })
      enabled s e =
          let (set, inserted) = enable_rows-ok c faults uuids now windows w s e in
          record {
            agree =
                insert_all-Agree uuids now 0 windows (w.sessions, []) (s.1, s.2) inserted distinct
                  (free windows) (subst (λ active. Agree w.sessions active) (h.idle off) h.agree);
            idle = λ never. absurd (clash refl never);
            settled =
                subst (λ settings. IsStored settings (record w.config { history_enabled = true }))
                  (sym set) (IsStored-enabled true w.settings w.config h.settled);
          }

  disable_history-IsSynced : (w : DbWorker) → IsSynced w → IsSynced (disable_history c faults w).1
  unfolding disable_history
  disable_history-IsSynced w h = settle_holds IsSynced (disable_rows c faults w) done _ w h disabled
    where
      disabled :
          (s : Settings × Table)
          → disable_rows c faults w ≡ ok s
          → IsSynced (record w {
            settings = s.0;
            sessions = s.1;
            active_sessions = [];
            config = record w.config { history_enabled = false };
          })
      disabled s e =
          let (set, deleted) = disable_rows-ok c faults w s e in
          record {
            agree =
                subst (λ rows. Agree rows []) (sym deleted)
                  (none_open-Agree w.sessions w.active_sessions h.agree);
            idle = λ off. refl;
            settled =
                subst (λ settings. IsStored settings (record w.config { history_enabled = false }))
                  (sym set) (IsStored-enabled false w.settings w.config h.settled);
          }

  set_days-IsSynced :
      (now : Timestamp) (days : Option ℕ) (w : DbWorker)
      → IsRetention days
      → IsSynced w
      → IsSynced (set_days c faults now days w).1
  unfolding set_days
  set_days-IsSynced now days w allowed h =
      settle_holds IsSynced (retain_rows c faults (record w.config { retention_days = days }) now w)
        done _ w h set
    where
      set :
          (s : Settings × Table)
          → retain_rows c faults (record w.config { retention_days = days }) now w ≡ ok s
          → IsSynced (record w {
            settings = s.0;
            sessions = s.1;
            config = record w.config { retention_days = days };
          })
      set s e =
          let config = record w.config { retention_days = days } in
          let (n, stored, pruned) = retain_rows-ok c faults config now w s e in
          record {
            agree =
                prune_closed-Agree faults config now w.sessions (n, s.1) w.active_sessions pruned
                  h.agree;
            idle = h.idle;
            settled =
                subst (λ settings. IsStored settings config) (sym stored)
                  (IsStored-days days w.settings w.config allowed h.settled);
          }

  act-IsSynced :
      (uuids : ℕ → Text) (now : Timestamp) (action : ConfigAction) (windows : List ActiveWindow)
      (w : DbWorker)
      → validate_config_action action ≡ ok tt
      → IsDistinct windows
      → IsSynced w
      → IsSynced (act c faults uuids now action windows w).1
  unfolding act same_flag same_days
  act-IsSynced uuids now show windows w valid distinct h = h
  act-IsSynced uuids now (set_history_enabled enabled) windows w valid distinct h =
      if_holds (λ (r : Call (Unit {0})). IsSynced r.1) (same_flag enabled w.config.history_enabled)
        (λ same. h)
        λ other.
          if_holds (λ (r : Call (Unit {0})). IsSynced r.1) enabled
            (λ on.
              enable_history-IsSynced uuids now windows w distinct
                (opposite enabled w.config.history_enabled other on) h)
            (λ off. disable_history-IsSynced w h)
    where
      opposite : (a b : Bool) → same_flag a b ≡ false → a ≡ true → b ≡ false
      opposite true b e on = e
      opposite false b e on = cc
  act-IsSynced uuids now (set_retention_days days) windows w valid distinct h =
      if_holds (λ (r : Call (Unit {0})). IsSynced r.1) (same_days days w.config.retention_days)
        (λ same. h)
        λ other. set_days-IsSynced now days w (validate_config_action-IsRetention days valid) h

  pub apply_config-IsSynced :
      (uuids : ℕ → Text) (now : Timestamp) (action : ConfigAction) (windows : List ActiveWindow)
      (w : DbWorker)
      → IsDistinct windows
      → IsSynced w
      → IsSynced (apply_config c faults uuids now action windows w).1
  unfolding apply_config
  apply_config-IsSynced uuids now action windows w distinct h =
      elim (Result-cases (validate_config_action action)) [
        | inr (e, q) ↦ rw (q, apply_config) h
        | inl (t, q) ↦
            rw (q, apply_config)
              (answered (act c faults uuids now action windows w)
                (act-IsSynced uuids now action windows w q distinct h))
      ]
    where
      answered : (r : Call (Unit {0})) → IsSynced r.1 → IsSynced (configured r).1
      answered (ok t, w) k = k
      answered (err e, w) k = k
