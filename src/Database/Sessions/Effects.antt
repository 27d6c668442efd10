-- ===== src/Database/Sessions/Effects.antt =====
-- What each statement makes of the table, if it succeeds (portus-window/src/database.rs).
use portus_window.Base.{
  ℕ, ◌-◌, ◌*◌, ◌≡◌, refl, sym, ap, ◌⊎◌, inl, inr, Bool, true, false, Option, none, some, arith,
  Option-cases, ok, bind-ok, Text,
}
use portus_window.Base.OrdMap.{get, insert, text_key, contains_key}
use portus_window.Base.OrdMap.Entries.{IsOrdered, modify-IsOrdered}
use portus_window.Protocol.Windows.{ActiveWindow}
use portus_window.Protocol.History.{Configuration}
use portus_window.Database.Rows.{Row, Table, Codecs, Faults, Statement, Stored, Timestamp, exec}
use portus_window.Database.Sessions.{
  ActiveSession, new_session, observe, observe_url, observe_workspace, insert_session, insert_row,
  opened_row, Timelines, timelines, update_open, delete_where, prune_closed, is_expired,
}

pub exec-ok : {A : Type 0} (fault : Option Text) (a b : A) → exec fault a ≡ ok b → a ≡ b
exec-ok none a b h = cc
exec-ok (some m) a b h = absurd cc

insert_row-ok :
    (fault : Option Text) (id : Text) (row : Row) (rows rows' : Table)
    → insert_row fault id row rows ≡ ok rows'
    → (get id rows ≡ none) × (rows' ≡ insert id row rows)
unfolding insert_row contains_key
insert_row-ok none id row rows rows' h = ground arith
insert_row-ok (some m) id row rows rows' h = absurd (ground arith)

pub insert_session-ok :
    (c : Codecs) (fault : Option Text) (uuid : Text) (window : ActiveWindow) (now : Timestamp)
    (reset : Bool) (rows rows' : Table)
    → insert_session c fault uuid window now reset rows ≡ ok rows'
    → (t : Timelines) × (timelines c (new_session uuid window reset) ≡ ok t)
      × (get uuid rows ≡ none)
      × (rows' ≡ insert uuid (opened_row (new_session uuid window reset) window t now) rows)
unfolding insert_session
insert_session-ok c fault uuid window now reset rows rows' h =
    let (t, e, q) = bind-ok (timelines c (new_session uuid window reset)) _ _ h in
    let (fresh, p) = insert_row-ok fault uuid _ rows rows' q in (t, e, fresh, p)

pub new_session-session_id :
    (uuid : Text) (window : ActiveWindow) (reset : Bool)
    → (new_session uuid window reset).session_id ≡ uuid
unfolding new_session
new_session-session_id uuid window true = refl
new_session-session_id uuid window false = refl

pub observe-session_id :
    (window : ActiveWindow) (s : ActiveSession) → (observe window s).session_id ≡ s.session_id
unfolding observe observe_url observe_workspace
observe-session_id window s = ground arith

-- An update finds its row open, and what it writes keeps what it does not name.
pub update_open-IsOrdered :
    (id : Text) (f : Row → Row) (rows : Table) → IsOrdered rows → IsOrdered (update_open id f rows)
unfolding update_open
update_open-IsOrdered id f rows h = modify-IsOrdered id _ rows h

pub prune_closed-ok :
    (faults : Faults) (config : Configuration) (now : Timestamp) (rows : Table) (p : ℕ × Table)
    → prune_closed faults config now rows ≡ ok p
    → ((config.retention_days ≡ none) × (p.1 ≡ rows))
      ⊎ ((days : ℕ) × (config.retention_days ≡ some days)
          × (p.1 ≡ delete_where (λ e. is_expired (now - days * 86400) e.1) rows))
unfolding prune_closed
prune_closed-ok faults config now rows p h = elim (Option-cases config.retention_days) [
  | inl e ↦ inl (e, same (rw (e, prune_closed) at h))
  | inr (days, e) ↦ inr (
    days,
    e,
    sym (
        ap (λ (q : ℕ × Table). q.1)
          (exec-ok (faults Statement.prune) _ p (rw (e, prune_closed) at h))),
  )
]
  where
    same : {n : ℕ} → ◌≡◌ {A = Stored (ℕ × Table)} (ok (n, rows)) (ok p) → p.1 ≡ rows
    same q = cc
