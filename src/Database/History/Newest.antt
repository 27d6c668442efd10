-- ===== src/Database/History/Newest.antt =====
-- Which rows a query of the history reads, and in which order (the statement of `history`,
-- portus-window/src/database/service.rs).
use mathlib.Core.Path.{fun_ext}
use mathlib.Core.Bool.{not-not}
use mathlib.Core.List.{Perm, reverse, reverse_perm}
use mathlib.Core.List.Perm
use portus_window.Base.{
  ◌≤◌, ◌≡◌, sym, ap, not, some, is_some, List, [], ◌∷◌, Text, All-map, Pairwise, retain,
  sort_desc-perm, sort_desc-IsDesc, IsDesc,
}
use portus_window.Database.Rows.{Row, Table, Timestamp}
use portus_window.Database.Sessions.{is_open}
use portus_window.Database.History.{closing_time, closed_rows}

-- The one row was closed no earlier than the other.
abbrev pub IsNewer : Text × Row → Text × Row → Type 0
IsNewer a b = (t u : Timestamp) → a.1.closed_at ≡ some t → b.1.closed_at ≡ some u → u ≤ t

-- The rows with a time of closing, each of them once, and the last that were closed first.
abbrev pub AreNewest : Table → List (Text × Row) → Type 0
AreNewest rows listed =
    Perm listed (retain (λ e. is_some e.1.closed_at) rows) × Pairwise IsNewer listed

closing_time-IsNewer : (a b : Text × Row) → closing_time b ≤ closing_time a → IsNewer a b
unfolding closing_time
closing_time-IsNewer a b le t u p q = rw (q, p) at le

IsDesc-IsNewer : (rows : List (Text × Row)) → IsDesc closing_time rows → Pairwise IsNewer rows
IsDesc-IsNewer [] h = tt
IsDesc-IsNewer (a ∷ rows) h = (All-map (closing_time-IsNewer a) rows h.0, IsDesc-IsNewer rows h.1)

-- Both tests keep the same rows.
retain-is_some :
    (rows : Table) → retain (λ e. is_some e.1.closed_at) rows ≡ retain (λ e. not (is_open e.1)) rows
unfolding is_open
retain-is_some rows = ap (λ p. retain p rows) (fun_ext (λ e. sym (not-not (is_some e.1.closed_at))))

pub closed_rows-AreNewest : (rows : Table) → AreNewest rows (closed_rows rows)
unfolding closed_rows
closed_rows-AreNewest rows =
    let kept = retain (λ e. not (is_open e.1)) rows in
    (
      Perm.trans (sort_desc-perm closing_time (reverse kept))
          (rw (retain-is_some rows) (reverse_perm kept)),
      IsDesc-IsNewer (closed_rows rows) (sort_desc-IsDesc closing_time (reverse kept)),
    )
