-- ===== src/Database/Agreement/Kept.antt =====
-- Statements that keep the open rows (portus-window/src/database.rs).
use portus_window.Base.{
  ℕ, ◌-◌, ◌*◌, ◌≡◌, refl, ◌∙◌, sym, ap, ◌⊎◌, inl, inr, Bool, true, false, not, Option, none, some,
  arith, Bool-cases, ok, Text, if◌then◌else◌,
}
use portus_window.Base.OrdMap.{get, text_key}
use portus_window.Base.OrdMap.Entries.{IsOrdered}
use portus_window.Base.OrdMap.Laws.{get-modify-some, get-modify_there}
use portus_window.Base.OrdMap.Retained.{get-retain, retain-IsOrdered, if_kept}
use portus_window.Protocol.History.{Configuration}
use portus_window.Database.Rows.{Row, Table, Faults, Timestamp}
use portus_window.Database.Sessions.{is_open, update_open, delete_where, prune_closed, is_expired}
use portus_window.Database.Sessions.Effects.{update_open-IsOrdered, prune_closed-ok}
use portus_window.Database.Agreement.{Agree, Active, Agree-covered}

-- The row of a key behind `DELETE`.
pub get-delete_where :
    (p : Text × Row → Bool) (k : Text) (rows : Table)
    → IsOrdered rows
    → get k (delete_where p rows) ≡ if_kept (λ e. not (p e)) k (get k rows)
unfolding delete_where
get-delete_where p k rows h = get-retain (λ e. not (p e)) k rows h

pub delete_where-IsOrdered :
    (p : Text × Row → Bool) (rows : Table) → IsOrdered rows → IsOrdered (delete_where p rows)
unfolding delete_where
delete_where-IsOrdered p rows h = retain-IsOrdered (λ e. not (p e)) rows h

-- A deletion of closed rows.
pub delete_where-Agree :
    (p : Text × Row → Bool) (rows : Table) (active : Active)
    → ((k : Text) (r : Row) → is_open r ≡ true → p (k, r) ≡ false)
    → Agree rows active
    → Agree (delete_where p rows) active
delete_where-Agree p rows active closed a =
    Agree-covered rows (delete_where p rows) active (delete_where-IsOrdered p rows a.ordered)
      (λ k r e still. (
        r,
        get-delete_where p k rows a.ordered ∙ kept k r (get k rows) e (closed k r still),
        refl,
        still,
      ))
      (λ k r e still.
        (r, found k r (get k rows) (sym (get-delete_where p k rows a.ordered) ∙ e), refl, still))
      a
  where
    kept :
        (k : Text) (r : Row) (o : Option Row)
        → o ≡ some r
        → p (k, r) ≡ false
        → if_kept (λ e. not (p e)) k o ≡ some r
    kept k r o e f = rw (e, f) refl

    found :
        (k : Text) (r : Row) (o : Option Row) → if_kept (λ e. not (p e)) k o ≡ some r → o ≡ some r
    found k r none h = cc
    found k r (some x) h = ground arith

abbrev step_open : (Row → Row) → Row → Row
step_open f r = if is_open r then f r else r

stepped :
    (f : Row → Row) (r : Row)
    → (f r).window_session_id ≡ r.window_session_id
    → (f r).closed_at ≡ r.closed_at
    → ((step_open f r).window_session_id ≡ r.window_session_id)
      × (is_open (step_open f r) ≡ is_open r)
unfolding is_open
stepped f r window closed = elim (Bool-cases (is_open r)) [
  | inl e ↦ rw e (window, rw closed e)
  | inr e ↦ rw e (refl, e)
]

unexpired : (t : Timestamp) (r : Row) → is_open r ≡ true → is_expired t r ≡ false
unfolding is_open is_expired
unexpired t r still = ground arith

-- An update of one open row that leaves it open and with its window.
pub update_open-Agree :
    (id : Text) (f : Row → Row) (rows : Table) (active : Active)
    → ((r : Row)
        → ((f r).window_session_id ≡ r.window_session_id) × ((f r).closed_at ≡ r.closed_at))
    → Agree rows active
    → Agree (update_open id f rows) active
unfolding update_open
update_open-Agree id f rows active keep a =
    Agree-covered rows (update_open id f rows) active (update_open-IsOrdered id f rows a.ordered)
      (λ k r e still.
        let (x, there, origin) = get-modify_there id k (step_open f) rows r e in
        let (window, open_row) = same r x origin in (x, there, window, open_row ∙ still))
      (λ k x e still.
        let (r, there, origin) = get-modify-some id k (step_open f) rows x e in
        let (window, open_row) = same r x origin in (r, there, sym window, sym open_row ∙ still))
      a
  where
    same :
        {P Q : Type 0} (r x : Row)
        → (P × (x ≡ step_open f r)) ⊎ (Q × (x ≡ r))
        → (x.window_session_id ≡ r.window_session_id) × (is_open x ≡ is_open r)
    same r x (inl (_, e)) =
        let (window, open_row) = stepped f r (keep r).0 (keep r).1 in
        (ap (λ (u : Row). u.window_session_id) e ∙ window, ap is_open e ∙ open_row)
    same r x (inr (_, e)) = (ap (λ (u : Row). u.window_session_id) e, ap is_open e)

-- A pruning.
pub prune_closed-Agree :
    (faults : Faults) (config : Configuration) (now : Timestamp) (rows : Table) (p : ℕ × Table)
    (active : Active)
    → prune_closed faults config now rows ≡ ok p
    → Agree rows active
    → Agree p.1 active
prune_closed-Agree faults config now rows p active h a =
    elim (prune_closed-ok faults config now rows p h) [
      | inl (_, e) ↦ rw e a
      | inr (days, _, e) ↦ rw e (
          delete_where-Agree (λ e. is_expired (now - days * 86400) e.1) rows active
            (λ k r still. unexpired (now - days * 86400) r still) a)
    ]
