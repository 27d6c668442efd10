-- ===== src/Window/Target/Resolved.antt =====
-- What a target resolves to in a well-formed registry.
use mathlib.Core.Path.{subst}
use portus_window.Base.{
  ◌++◌, decimal, ap, text_eq, ◌<◌, ◌≡◌, ◌≢◌, ◌∙◌, refl, sym, Bool, true, false, ◌⊎◌, inl, inr, ℕ,
  [], ◌∷◌, arith, Text, text, Memᴰ, starts_with, ok, err, All, All-map, All-at, retain, retain-All,
  retain-Pairwise, retain-Mem, All-retain, Bool-cases,
}
use portus_window.Base.OrdMap.{text_key, contains_key}
use portus_window.Window.Errors.{target_not_found, target_ambiguous, Checked}
use portus_window.Window.Registry.{WindowRegistry}
use portus_window.Window.Target.{
  Entry, order, is_match, resolve_target, is_on_workspace, resolve_workspace_index,
}
use portus_window.Window.Target.Newest.{AreMatches, Outcome, pick-Outcome}
use portus_window.Window.Invariant.{Inv, IsTimely}

-- A window of the registry that passes a test, and had the focus later than any other that does.
abbrev pub IsLastOf : (Entry → Bool) → WindowRegistry → Entry → Type 0
IsLastOf p r e =
    Memᴰ e r.windows
    × (p e ≡ true)
    × All (λ d. p d ≡ true → (d ≡ e) ⊎ (order d < order e)) r.windows

-- Two or more windows pass the test, none of which ever had the focus.
abbrev pub IsUndecided : (Entry → Bool) → WindowRegistry → Type 0
IsUndecided p r =
    All (λ d. p d ≡ true → order d ≡ 0) r.windows
    × ((e : Entry) → retain p r.windows ≢ e ∷ [])
    × (retain p r.windows ≢ [])

-- No window passes the test; the answer is the one that had the focus last; or it is undecided.
abbrev pub IsResolved : (Entry → Bool) → WindowRegistry → Text → Checked Text → Type 0
IsResolved p r target answer =
    (All (λ d. p d ≡ true → ⊥) r.windows × (answer ≡ err (target_not_found target)))
    ⊎ (((e : Entry) × IsLastOf p r e × (answer ≡ ok e.0))
        ⊎ (IsUndecided p r × (answer ≡ err (target_ambiguous target))))

matches : (p : Entry → Bool) (r : WindowRegistry) → Inv r → AreMatches (retain p r.windows)
matches p r v = record {
  ordered = retain-Pairwise p _ r.windows v.ordered;
  filed = retain-All p _ r.windows (All-map (λ e h. h.0) r.windows v.filed);
  apart = retain-Pairwise p _ r.windows v.apart;
}

-- The same of all windows of the registry.
picked :
    (p : Entry → Bool) (r : WindowRegistry) (target : Text) (answer : Checked Text)
    → Outcome target (retain p r.windows) answer
    → IsResolved p r target answer
picked p r target answer (inl (none_left, a)) =
    inl (All-retain p (λ x. ⊥) r.windows (subst (All λ x. ⊥) (sym none_left) tt), a)
picked p r target answer (inr (inl (e, m, new, a))) =
    let here = All-at _ m (retain-Mem p r.windows) in
    inr (inl (e, (here.0, here.1, All-retain p _ r.windows new), a))
picked p r target answer (inr (inr (a, zeros, some_left, many))) =
    inr (inr ((All-retain p _ r.windows zeros, many, some_left), a))

-- In a well-formed registry, an identity that is open resolves to itself, and one that is not is
-- not found, whatever the windows' texts mention. Any other target resolves to the matching window
-- that had the focus last; it is not found exactly when no window matches, and ambiguous only when
-- two or more match and none of them ever had the focus.
pub resolve_target-IsResolved :
    (to_lowercase : Text → Text) (r : WindowRegistry) (target : Text)
    → Inv r
    → let answer = resolve_target to_lowercase r target in
      ((contains_key target r.windows ≡ true) × (answer ≡ ok target))
      ⊎ (((contains_key target r.windows ≡ false)
            × (starts_with target (text "wsess_") ≡ true)
            × (answer ≡ err (target_not_found target)))
          ⊎ ((contains_key target r.windows ≡ false)
              × (starts_with target (text "wsess_") ≡ false)
              × IsResolved (is_match to_lowercase (to_lowercase target)) r target answer))
unfolding resolve_target
resolve_target-IsResolved to_lowercase r target v =
    elim (Bool-cases (contains_key target r.windows)) [
      | inl known ↦ inl (known, rw known refl)
      | inr closed ↦ elim (Bool-cases (starts_with target (text "wsess_"))) [
        | inl exact ↦ inr (inl (closed, exact, rw (closed, exact) refl))
        | inr words ↦
            let p = is_match to_lowercase (to_lowercase target) in
            inr (
              inr (
                closed,
                words,
                rw (closed, words) (picked p r target _ (pick-Outcome target _ (matches p r v))),
              ))
      ]
    ]

-- In a well-formed registry, a workspace index names the window that had the focus last among those
-- on that workspace and those on all of them; it is not found exactly when there is none, and
-- ambiguous only when there are several and none of them ever had the focus.
pub resolve_workspace_index-IsResolved :
    (r : WindowRegistry) (index : ℕ)
    → Inv r
    → IsResolved
        (is_on_workspace index)
        r
        (text "workspace:" ++ decimal index)
        (resolve_workspace_index r index)
unfolding resolve_workspace_index
resolve_workspace_index-IsResolved r index v =
    let p = is_on_workspace index in picked p r _ _ (pick-Outcome _ _ (matches p r v))

only_focused :
    (r : WindowRegistry) (e d : Entry)
    → IsTimely r.focus_counter e
    → IsTimely r.focus_counter d
    → (d ≡ e) ⊎ (order d < order e)
    → e.1.window.is_focused ≡ true
    → d.1.window.is_focused ≡ true
    → d ≡ e
only_focused r e d te td (inr earlier) he hd = absurd (omega (arith, (te.1 he).0, (td.1 hd).0))
only_focused r e d te td (inl same) he hd = same

-- In a well-formed registry, `focused` names the window that has the focus.
pub resolve_target-focused :
    (to_lowercase : Text → Text) (r : WindowRegistry) (e : Entry)
    → to_lowercase (text "focused") ≡ text "focused"
    → Inv r
    → contains_key (text "focused") r.windows ≡ false
    → Memᴰ e r.windows
    → e.1.window.is_focused ≡ true
    → resolve_target to_lowercase r (text "focused") ≡ ok e.0
unfolding is_match text_eq starts_with
resolve_target-focused to_lowercase r e lower v closed m h =
    elim (resolve_target-IsResolved to_lowercase r (text "focused") v) [
      | inl (known, _) ↦ cc
      | inr (inl (_, exact, _)) ↦ cc
      | inr (inr (_, _, inl (nobody, _))) ↦ absurd (All-at _ m nobody (rw lower h))
      | inr (inr (_, _, inr (inl (d, (md, hd, last), a)))) ↦
          a
          ∙ ap (λ x. ok x.0)
              (sym (
                only_focused r d e (All-at _ md v.timely) (All-at _ m v.timely)
                  (All-at _ m last (rw lower h)) (rw lower at hd) h))
      | inr (inr (_, _, inr (inr ((zeros, _, _), _)))) ↦
          absurd (omega (arith, All-at _ m zeros (rw lower h), (All-at _ m v.timely).1 h))
    ]
