-- ===== src/Database/Agreement/Ended.antt =====
-- Statements that end a session (portus-window/src/database.rs).
use portus_window.Base.{
  ◌≡◌, refl, ◌∙◌, sym, ap, ◌⊎◌, inl, inr, true, false, not, ◌&&◌, Option, none, some, arith,
  Bool-cases, Text, text_eq, text_eq-eq, text_eq_refl, if◌then◌else◌,
}
use portus_window.Base.OrdMap.{get, remove, text_key}
use portus_window.Base.OrdMap.Laws.{get-modify-some, get-modify}
use portus_window.Base.OrdMap.Retained.{if_kept}
use portus_window.Database.Rows.{Row, Table}
use portus_window.Database.Sessions.{ActiveSession, is_open, update_open, delete_open_row}
use portus_window.Database.Sessions.Effects.{update_open-IsOrdered}
use portus_window.Database.Agreement.{Agree, Active, Agree-ended}
use portus_window.Database.Agreement.Kept.{get-delete_where, delete_where-IsOrdered}

-- A deleted row.
pub delete_open_row-Agree :
    (rows : Table) (active : Active) (id : Text) (s : ActiveSession)
    → get id active ≡ some s
    → Agree rows active
    → Agree (delete_open_row s.session_id rows) (remove id active)
unfolding delete_open_row
delete_open_row-Agree rows active id s found a =
    Agree-ended rows _ active id s (delete_where-IsOrdered _ rows a.ordered) found
      (λ k other. get-delete_where _ k rows a.ordered ∙ untouched k other (get k rows))
      (λ r there.
        gone r (get s.session_id rows)
          (sym (get-delete_where _ s.session_id rows a.ordered) ∙ there))
      a
  where
    untouched :
        (k : Text)
        → text_eq s.session_id k ≡ false
        → (o : Option Row) → if_kept (λ e. not (text_eq e.0 s.session_id && is_open e.1)) k o ≡ o
    untouched k other none = refl
    untouched k other (some r) = ground (arith, text_eq-eq k s.session_id, text_eq_refl k)

    gone :
        (r : Row) (o : Option Row)
        → if_kept (λ e. not (text_eq e.0 s.session_id && is_open e.1)) s.session_id o ≡ some r
        → is_open r ≡ false
    gone r none h = absurd cc
    gone r (some x) h = ground (arith, text_eq_refl s.session_id)

-- A row that is closed.
pub update_open-ended :
    (f : Row → Row) (rows : Table) (active : Active) (id : Text) (s : ActiveSession)
    → ((r : Row) → is_open (f r) ≡ false)
    → get id active ≡ some s
    → Agree rows active
    → Agree (update_open s.session_id f rows) (remove id active)
unfolding update_open
update_open-ended f rows active id s closed found a =
    Agree-ended rows (update_open s.session_id f rows) active id s
      (update_open-IsOrdered s.session_id f rows a.ordered) found
      (λ k other. get-modify s.session_id k _ rows ∙ rw other refl)
      (λ r there.
        let (x, e, origin) = get-modify-some s.session_id s.session_id _ rows r there in
        ended r x origin)
      a
  where
    never : false ≡ true → ⊥
    never e = cc

    ended :
        (r x : Row)
        → ((s.session_id ≡ s.session_id) × (r ≡ (if is_open x then f x else x)))
          ⊎ ((text_eq s.session_id s.session_id ≡ false) × (r ≡ x))
        → is_open r ≡ false
    ended r x (inl (_, e)) = elim (Bool-cases (is_open x)) [
      | inl still ↦ ap is_open (rw still at e) ∙ closed x
      | inr not_open ↦ ap is_open (rw not_open at e) ∙ not_open
    ]
    ended r x (inr (n, _)) = absurd (never (sym n ∙ text_eq_refl s.session_id))
