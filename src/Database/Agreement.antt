-- ===== src/Database/Agreement.antt =====
-- The rows of open sessions agree with the sessions that the worker holds in memory
-- (portus-window/src/database/service.rs).
pub mod Kept
pub mod Ended
use mathlib.Core.Path.{subst}
use portus_window.Base.{
  ◌≡◌, refl, ◌∙◌, sym, ap, ◌⊎◌, inl, inr, Bool, true, false, Option, none, some, List, [], ◌∷◌,
  arith, Bool-cases, Text, text_eq, text_eq-eq, text_eq_refl,
}
use portus_window.Base.OrdMap.{OrdMap, get, insert, remove, modify, text_key}
use portus_window.Base.OrdMap.Entries.{IsOrdered, insert-IsOrdered, modify-IsOrdered}
use portus_window.Base.OrdMap.Laws.{
  get-insert-some, get-insert_same, get-insert_other, get-remove-some, get-remove_other,
  get-modify-some, get-modify_there,
}
use portus_window.Database.Rows.{Row, Table}
use portus_window.Database.Sessions.{ActiveSession, is_open}

abbrev pub Active : Type 0
Active = OrdMap Text ActiveSession

-- The row of a session is open and names its window.
abbrev IsHeld : Table → Text → ActiveSession → Type 0
IsHeld rows id s =
    (r : Row) × (get s.session_id rows ≡ some r) × (r.window_session_id ≡ id) × (is_open r ≡ true)

-- The window of an open row has its session.
abbrev IsOwned : Active → Text → Row → Type 0
IsOwned active k r =
    (s : ActiveSession) × (get r.window_session_id active ≡ some s) × (s.session_id ≡ k)

pub record Agree (rows : Table) (active : Active) : Type 0 where
  pub ordered : IsOrdered rows
  pub held : (id : Text) (s : ActiveSession) → get id active ≡ some s → IsHeld rows id s
  pub owned : (k : Text) (r : Row) → get k rows ≡ some r → is_open r ≡ true → IsOwned active k r

-- Every open row is there again, open and of the same window.
abbrev Covers : Table → Table → Type 0
Covers rows rows' =
    (k : Text) (r : Row)
    → get k rows ≡ some r
    → is_open r ≡ true
    → (r' : Row) × (get k rows' ≡ some r')
      × (r'.window_session_id ≡ r.window_session_id)
      × (is_open r' ≡ true)

Agree-covered :
    (rows rows' : Table) (active : Active)
    → IsOrdered rows'
    → Covers rows rows'
    → Covers rows' rows
    → Agree rows active
    → Agree rows' active
Agree-covered rows rows' active sorted there back a = record {
  ordered = sorted;
  held = λ id s h.
      let (r, e, window, open_row) = a.held id s h in
      let (r', e', window', open_row') = there s.session_id r e open_row in
      (r', e', window' ∙ window, open_row');
  owned = λ k r e open_row.
      let (r', e', window', open_row') = back k r e open_row in
      let (s, found, key) = a.owned k r' e' open_row' in (s, rw (sym window') found, key);
}

-- A session changes and keeps its row.
pub Agree-observed :
    (rows : Table) (active : Active) (id : Text) (g : ActiveSession → ActiveSession)
    → ((s : ActiveSession) → (g s).session_id ≡ s.session_id)
    → Agree rows active
    → Agree rows (modify id g active)
Agree-observed rows active id g keep a = record {
  ordered = a.ordered;
  held = λ j s h.
      let (t, e, origin) = get-modify-some id j g active s h in
      let (r, there, window, still) = a.held j t e in
      (r, rw (changed t s origin) there, window, still);
  owned = λ k r h still.
      let (s, found, key) = a.owned k r h still in
      let (t, there, origin) = get-modify_there id r.window_session_id g active s found in
      (t, there, changed s t origin ∙ key);
}
  where
    changed :
        {P Q : Type 0} (t s : ActiveSession)
        → (P × (s ≡ g t)) ⊎ (Q × (s ≡ t))
        → s.session_id ≡ t.session_id
    changed t s (inl (_, q)) = ap (λ u. u.session_id) q ∙ keep t
    changed t s (inr (_, q)) = ap (λ u. u.session_id) q

-- A new row and its session.
Agree-opened :
    (rows : Table) (active : Active) (row : Row) (s : ActiveSession)
    → get s.session_id rows ≡ none
    → get row.window_session_id active ≡ none
    → is_open row ≡ true
    → Agree rows active
    → Agree (insert s.session_id row rows) (insert row.window_session_id s active)
Agree-opened rows active row s fresh idle open_row a = record {
  ordered = insert-IsOrdered s.session_id row rows a.ordered;
  held = λ id t h. elim (get-insert-some row.window_session_id id s t active h) [
    | inl (window, e) ↦ (
      row,
      rw (ap (λ u. u.session_id) (sym e)) (get-insert_same s.session_id row rows),
      window,
      open_row,
    )
    | inr (other, e) ↦
        let (r, found, window, still) = a.held id t e in
        (
          r,
          get-insert_other s.session_id t.session_id row rows (differ t.session_id r found) ∙ found,
          window,
          still,
        )
  ];
  owned = λ k r h still. elim (get-insert-some s.session_id k row r rows h) [
    | inl (key, e) ↦ (
      s,
      rw (ap (λ u. u.window_session_id) (sym e)) (get-insert_same row.window_session_id s active),
      key,
    )
    | inr (other, e) ↦
        let (t, found, key) = a.owned k r e still in
        (
          t,
          get-insert_other row.window_session_id r.window_session_id s active
                (apart r.window_session_id t found)
              ∙ found,
          key,
        )
  ];
}
  where
    clash : {A : Type 0} {x : A} → none ≡ some x → ⊥
    clash h = cc

    differ : (k : Text) (r : Row) → get k rows ≡ some r → text_eq s.session_id k ≡ false
    differ k r found = elim (Bool-cases (text_eq s.session_id k)) [
      | inl same ↦
          let e = text_eq-eq s.session_id k same in
          absurd (clash (sym fresh ∙ (rw (sym e) at found)))
      | inr other ↦ other
    ]

    apart :
        (id : Text) (t : ActiveSession)
        → get id active ≡ some t
        → text_eq row.window_session_id id ≡ false
    apart id t found = elim (Bool-cases (text_eq row.window_session_id id)) [
      | inl same ↦
          let e = text_eq-eq row.window_session_id id same in
          absurd (clash (sym idle ∙ (rw (sym e) at found)))
      | inr other ↦ other
    ]

pub Agree-opened_at :
    (rows : Table) (active : Active) (row : Row) (s : ActiveSession) (k : Text)
    → s.session_id ≡ k
    → get k rows ≡ none
    → get row.window_session_id active ≡ none
    → is_open row ≡ true
    → Agree rows active
    → Agree (insert k row rows) (insert row.window_session_id s active)
Agree-opened_at rows active row s k key fresh idle open_row a =
    subst
      (λ k. get k rows ≡ none → Agree (insert k row rows) (insert row.window_session_id s active))
      key (λ unused. Agree-opened rows active row s unused idle open_row a) fresh

-- A session goes, and its row goes or is closed.
Agree-ended :
    (rows rows' : Table) (active : Active) (id : Text) (s : ActiveSession)
    → IsOrdered rows'
    → get id active ≡ some s
    → ((k : Text) → text_eq s.session_id k ≡ false → get k rows' ≡ get k rows)
    → ((r : Row) → get s.session_id rows' ≡ some r → is_open r ≡ false)
    → Agree rows active
    → Agree rows' (remove id active)
Agree-ended rows rows' active id s sorted found rest closed a = record {
  ordered = sorted;
  held = λ j t h.
      let (other, e) = get-remove-some id j t active h in
      let (r, there, window, still) = a.held j t e in
      (r, rest t.session_id (differ j t other e) ∙ there, window, still);
  owned = λ k r h still. elim (Bool-cases (text_eq s.session_id k)) [
    | inl same ↦
        let e = text_eq-eq s.session_id k same in absurd (clash (closed r (rw (sym e) at h)) still)
    | inr other ↦
        let (t, there, key) = a.owned k r (sym (rest k other) ∙ h) still in
        (
          t,
          get-remove_other id r.window_session_id active (apart r t there k key other) ∙ there,
          key,
        )
  ];
}
  where
    clash : {b : Bool} → b ≡ false → b ≡ true → ⊥
    clash f t = cc

    same_window : (x y : Row) → some x ≡ some y → x.window_session_id ≡ y.window_session_id
    same_window x y p = cc

    same_id : (x y : ActiveSession) → some x ≡ some y → x.session_id ≡ y.session_id
    same_id x y p = cc

    differ :
        (j : Text) (t : ActiveSession)
        → text_eq id j ≡ false
        → get j active ≡ some t
        → text_eq s.session_id t.session_id ≡ false
    differ j t other e = elim (Bool-cases (text_eq s.session_id t.session_id)) [
      | inr apart ↦ apart
      | inl same ↦
          let q = text_eq-eq s.session_id t.session_id same in
          let (r, there, window, _) = a.held j t e in
          let (r2, there2, window2, _) = a.held id s found in
          let p : some r2 ≡ some r = sym there2 ∙ rw q there in
          let w : id ≡ j = sym window2 ∙ same_window r2 r p ∙ window in
          absurd (clash other (rw w (text_eq_refl j)))
    ]

    apart :
        (r : Row) (t : ActiveSession)
        → get r.window_session_id active ≡ some t
        → (k : Text) → t.session_id ≡ k
        → text_eq s.session_id k ≡ false
        → text_eq id r.window_session_id ≡ false
    apart r t there k key other = elim (Bool-cases (text_eq id r.window_session_id)) [
      | inr distinct ↦ distinct
      | inl same ↦
          let q = text_eq-eq id r.window_session_id same in
          let p : some s ≡ some t = sym found ∙ rw q there in
          absurd (clash other (rw (same_id s t p ∙ key) (text_eq_refl k)))
    ]
