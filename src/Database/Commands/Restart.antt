-- ===== src/Database/Commands/Restart.antt =====
-- What a restart of the database thread brings back (portus-window/src/database/service.rs).
use mathlib.Core.Path.{subst}
use portus_window.Base.{
  ℕ, ◌-◌, ◌*◌, ◌≤◌, ◌≡◌, refl, ◌∙◌, sym, true, false, not, Option, none, some, List, arith, inl,
  inr, ok, bind-ok, ok_injective, Text, text, All, Option-cases, is_some,
}
use portus_window.Base.OrdMap.{get, text_key, contains_key}
use portus_window.Base.OrdMap.Entries.{IsOrdered}
use portus_window.Base.OrdMap.Laws.{get-map}
use portus_window.Base.OrdMap.Retained.{if_kept}
use portus_window.Protocol.Frame.{Json}
use portus_window.Protocol.History.{HistoricalWindow, Configuration}
use portus_window.Database.Rows.{close_reason_str, Codecs, Row, Table, Faults, Timestamp}
use portus_window.Database.Sessions.{is_open, is_expired}
use portus_window.Database.Sessions.Effects.{prune_closed-ok}
use portus_window.Database.Config.{
  Settings, enabled_key, days_key, initialize_config, insert_or_ignore, config_value,
}
use portus_window.Database.Config.Loading.{IsStored, load_config-IsStored}
use portus_window.Database.Worker.{DbWorker, initialize, close_abruptly}
use portus_window.Database.Agreement.Kept.{get-delete_where}
use portus_window.Database.Worker.Started.{initialize-ok, abrupt, abrupt-Agree}
use portus_window.Database.Commands.{Arrival, run}
use portus_window.Database.Commands.Reach.{IsProper, run-initialize-IsSynced}

-- The retention keeps a row: it is open, or was closed no longer ago than the days that are set.
abbrev pub IsRetained : Configuration → Timestamp → Row → Type 0
IsRetained config now r =
    (days : ℕ) (t : Timestamp)
    → config.retention_days ≡ some days
    → r.closed_at ≡ some t
    → now - days * 86400 ≤ t

-- What stands under the identity of a row behind the start: the row of a closed session as it was,
-- or that of an open one closed now, as a process that ended abruptly leaves it.
abbrev pub IsRestored : Timestamp → Row → Option Row → Type 0
IsRestored now r o =
    ((t : Timestamp) → r.closed_at ≡ some t → o ≡ some r)
    × (r.closed_at ≡ none
        → o
          ≡ some
              (record r { closed_at = some now; close_reason = some (text "abrupt_termination") }))

close_abruptly-IsRestored :
    (now : Timestamp) (r : Row) (o : Option Row)
    → o ≡ some (close_abruptly now r)
    → IsRestored now r o
unfolding close_abruptly is_open close_reason_str
close_abruptly-IsRestored now r o e = (λ t closed. e ∙ rw closed refl, λ opened. e ∙ rw opened refl)

config_value-present :
    (key value : Text) (s : Settings) → config_value key s ≡ ok value → is_some (get key s) ≡ true
unfolding config_value
config_value-present key value s h = ground arith

-- A stored configuration has both keys, so nothing is written over it.
initialize_config-IsStored :
    (s : Settings) (config : Configuration) → IsStored s config → initialize_config s ≡ s
unfolding initialize_config insert_or_ignore contains_key
initialize_config-IsStored s config h =
    let (enabled, e, _) = bind-ok (config_value enabled_key s) _ _ h.enabled in
    let (days, d, _) = bind-ok (config_value days_key s) _ _ h.days in
    rw (config_value-present enabled_key enabled s e)
      (rw (config_value-present days_key days s d) refl)

unexpired :
    (cutoff now : Timestamp) (r : Row)
    → ((t : Timestamp) → r.closed_at ≡ some t → cutoff ≤ t)
    → cutoff ≤ now
    → is_expired cutoff (close_abruptly now r) ≡ false
unfolding is_expired close_abruptly is_open
unexpired cutoff now r kept le = elim (Option-cases r.closed_at) [
  | inl e ↦ ground arith
  | inr (t, e) ↦ ground (arith, kept t e)
]

-- A row behind the start.
initialize-get :
    (c : Codecs) (faults : Faults) (now : Timestamp) (rows : Table) (settings : Settings)
    (w : DbWorker) (k : Text) (r : Row)
    → IsOrdered rows
    → initialize c faults now rows settings ≡ ok w
    → get k rows ≡ some r
    → IsRetained w.config now r
    → get k w.sessions ≡ some (close_abruptly now r)
initialize-get c faults now rows settings w k r sorted h there kept =
    let (_, _, _, (n, pruned)) = initialize-ok c faults now rows settings w h in
    let sorted' = (abrupt-Agree now rows sorted).ordered in
    let found : get k (abrupt now rows) ≡ some (close_abruptly now r) =
      get-map (close_abruptly now) k rows ∙ rw there refl in
    elim (prune_closed-ok faults w.config now (abrupt now rows) (n, w.sessions) pruned) [
      | inl (_, e) ↦ rw e found
      | inr (days, set, e) ↦ rw e (
          get-delete_where (λ d. is_expired (now - days * 86400) d.1) k (abrupt now rows) sorted'
          ∙ survives days
              (unexpired (now - days * 86400) now r (λ t closed. kept days t set closed)
                (omega arith))
              (get k (abrupt now rows)) found)
    ]
  where
    survives :
        (days : ℕ)
        → is_expired (now - days * 86400) (close_abruptly now r) ≡ false
        → (o : Option Row) → o ≡ some (close_abruptly now r)
        → if_kept (λ d. not (is_expired (now - days * 86400) d.1)) k o ≡ some (close_abruptly now r)
    survives days fresh o e = rw (e, fresh) refl

module _ (c : Codecs) (lower : Text → Text) (json : Json HistoricalWindow) where
  -- A start from the tables that a thread has left, if it succeeds, brings back the configuration
  -- that was in force, and every row that the retention keeps: those of closed sessions as they
  -- were, and those of the windows that were open closed as terminated abruptly. The thread had
  -- started from tables in the order of their keys, and the windows that came with a change of its
  -- configuration had different identities.
  pub initialize-run-restores :
      (faults : Faults) (now : Timestamp) (rows : Table) (settings : Settings) (w : DbWorker)
      (arrivals : List Arrival) (faults' : Faults) (now' : Timestamp) (w' : DbWorker)
      → IsOrdered rows
      → All (λ a. IsProper a.command) arrivals
      → initialize c faults now rows settings ≡ ok w
      → let v = run c lower json arrivals w in
        initialize c faults' now' v.sessions v.settings ≡ ok w'
        → (w'.config ≡ v.config)
          × ((k : Text) (r : Row)
              → get k v.sessions ≡ some r
              → IsRetained v.config now' r
              → IsRestored now' r (get k w'.sessions))
  initialize-run-restores faults now rows settings w arrivals faults' now' w' sorted p started
        again =
      let v = run c lower json arrivals w in
      let (agree, loaded, _) =
        run-initialize-IsSynced c lower json faults now rows settings w arrivals sorted p started in
      let (loaded', _, _, _) = initialize-ok c faults' now' v.sessions v.settings w' again in
      let same =
        initialize_config-IsStored v.settings v.config
          (load_config-IsStored v.settings v.config loaded) in
      let config : w'.config ≡ v.config = ok_injective (sym (rw same at loaded') ∙ loaded) in
      (
        config,
        λ k r there kept. close_abruptly-IsRestored now' r (get k w'.sessions) (
            initialize-get c faults' now' v.sessions v.settings w' k r agree.ordered again there
              (subst (λ config. IsRetained config now' r) (sym config) kept)),
      )
