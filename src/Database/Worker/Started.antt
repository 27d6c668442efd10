-- ===== src/Database/Worker/Started.antt =====
-- How the database thread starts: `DbWorker::initialize` (portus-window/src/database/service.rs).
use mathlib.Core.Path.{subst}
use mathlib.Core.Option
use portus_window.Base.{
  some_injective, ℕ, ◌≡◌, ◌∙◌, sym, false, none, some, [], arith, ok, bind-ok, ok_injective, Text,
  map, Option, ap,
}
use portus_window.Base.OrdMap.{get, text_key}
use portus_window.Base.OrdMap.Entries.{IsOrdered}
use portus_window.Base.OrdMap.Laws.{get-map}
use portus_window.Base.{map-Pairwise}
use portus_window.Database.Rows.{Codecs, Row, Table, Faults, Timestamp, Statement}
use portus_window.Database.Sessions.{ActiveSession, is_open, prune_closed}
use portus_window.Database.Sessions.Effects.{exec-ok}
use portus_window.Database.Config.{Settings, initialize_config, load_config}
use portus_window.Database.Config.Loading.{load_config-IsStored}
use portus_window.Database.Worker.{DbWorker, initialize, close_abruptly, attempt}
use portus_window.Database.Agreement.{Agree}
use portus_window.Database.Agreement.Kept.{prune_closed-Agree}
use portus_window.Database.Worker.Synced.{IsSynced, clash}

close_abruptly-closed : (now : Timestamp) (r : Row) → is_open (close_abruptly now r) ≡ false
unfolding close_abruptly is_open
close_abruptly-closed now r = ground arith

-- The table behind the `UPDATE` of all open rows.
abbrev pub abrupt : Timestamp → Table → Table
abrupt now rows = map (λ e. (e.0, close_abruptly now e.1)) rows

-- Where a row of this table comes from.
get-abrupt :
    (now : Timestamp) (k : Text) (rows : Table) (r : Row)
    → get k (abrupt now rows) ≡ some r
    → is_open r ≡ false
get-abrupt now k rows r h = changed (get k rows) (sym (get-map (close_abruptly now) k rows) ∙ h)
  where
    changed : (o : Option Row) → Option.map (close_abruptly now) o ≡ some r → is_open r ≡ false
    changed none q = absurd cc
    changed (some x) q = rw (sym (some_injective q)) (close_abruptly-closed now x)

pub abrupt-Agree : (now : Timestamp) (rows : Table) → IsOrdered rows → Agree (abrupt now rows) []
abrupt-Agree now rows sorted = record {
  ordered = map-Pairwise (λ e. (e.0, close_abruptly now e.1)) _ _ (λ a b lt. lt) rows sorted;
  held = λ id s h. absurd (missing id s h);
  owned = λ k r h still. absurd (clash still (get-abrupt now k rows r h));
}
  where
    missing : (id : Text) (s : ActiveSession) → get {V = ActiveSession} id [] ≡ some s → ⊥
    missing id s h = unfold get in cc

-- `initialize` behind its statements.
pub initialize-ok :
    (c : Codecs) (faults : Faults) (now : Timestamp) (rows : Table) (settings : Settings)
    (w : DbWorker)
    → initialize c faults now rows settings ≡ ok w
    → (load_config (initialize_config settings) ≡ ok w.config)
      × (w.settings ≡ initialize_config settings)
      × (w.active_sessions ≡ [])
      × ((n : ℕ) × (prune_closed faults w.config now (abrupt now rows) ≡ ok (n, w.sessions)))
unfolding initialize
initialize-ok c faults now rows settings w h =
    let (_, _, h1) = bind-ok (attempt (faults Statement.set_value)) _ _ h in
    let (config, loaded, h2) = bind-ok (load_config (initialize_config settings)) _ _ h1 in
    let (closed, updated, h3) = bind-ok _ _ _ h2 in
    let (p, pruned, h4) = bind-ok (prune_closed faults config now closed) _ _ h3 in
    let q = ok_injective h4 in
    (
      loaded ∙ ap (λ (v : DbWorker). ok v.config) q,
      sym (ap (λ (v : DbWorker). v.settings) q),
      sym (ap (λ (v : DbWorker). v.active_sessions) q),
      (
        p.0,
        subst
            (λ (v : DbWorker).
              prune_closed faults v.config now (abrupt now rows) ≡ ok (p.0, v.sessions))
            q
            (subst (λ t. prune_closed faults config now t ≡ ok p)
              (sym (exec-ok (faults Statement.close_row) _ closed updated)) pruned),
      ),
    )

pub initialize-IsSynced :
    (c : Codecs) (faults : Faults) (now : Timestamp) (rows : Table) (settings : Settings)
    (w : DbWorker)
    → IsOrdered rows
    → initialize c faults now rows settings ≡ ok w
    → IsSynced w
initialize-IsSynced c faults now rows settings w sorted h =
    let (loaded, stored, idle, (n, pruned)) = initialize-ok c faults now rows settings w h in
    let a =
      prune_closed-Agree faults w.config now (abrupt now rows) (n, w.sessions) [] pruned
        (abrupt-Agree now rows sorted) in
    record {
      agree = subst (λ active. Agree w.sessions active) (sym idle) a;
      idle = λ off. idle;
      settled = load_config-IsStored w.settings w.config (rw stored loaded);
    }
