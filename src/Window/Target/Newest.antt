-- ===== src/Window/Target/Newest.antt =====
-- Which of the matching windows `pick` names.
use mathlib.Core.Path.{subst}
use portus_window.Base.{
  ℕ, ◌<◌, ◌==◌, ◌≡◌, ◌≢◌, ◌∙◌, refl, sym, ap, true, false, ◌⊎◌, inl, inr, List, [], ◌∷◌, arith,
  Text, Memᴰ, text_eq, text_eq-eq, text_lt, text_lt_irrefl, ok, err, All, Pairwise, All-map,
  All-Mem, sort_desc, sort_desc-All, All-sort_desc, sort_desc-Pairwise, sort_desc-IsDesc,
  Bool-cases, IsDesc,
}
use portus_window.Base.OrdMap.{text_key}
use portus_window.Base.OrdMap.Entries.{IsOrdered}
use portus_window.Window.Errors.{target_not_found, target_ambiguous, Checked}
use portus_window.Window.Target.{Entry, order, newest, pick}
use portus_window.Window.Invariant.{IsApart}

abbrev pub IsNamed : Entry → Type 0
IsNamed e = e.1.window.window_session_id ≡ e.0

-- Matches in the order of their identities, each under its own, with the focus at different times.
pub record AreMatches (ms : List Entry) : Type 0 where
  pub ordered : IsOrdered ms
  pub filed : All IsNamed ms
  pub apart : Pairwise IsApart ms

-- Every other match had the focus earlier.
abbrev pub IsNewest : List Entry → Entry → Type 0
IsNewest ms e = All (λ d. (d ≡ e) ⊎ (order d < order e)) ms

-- The outcome: no match; the one match, or the one that had the focus last; or several that never
-- had it.
abbrev pub Outcome : Text → List Entry → Checked Text → Type 0
Outcome target ms r =
    ((ms ≡ []) × (r ≡ err (target_not_found target)))
    ⊎ (((e : Entry) × Memᴰ e ms × IsNewest ms e × (r ≡ ok e.0))
        ⊎ ((r ≡ err (target_ambiguous target))
            × All (λ d. order d ≡ 0) ms
            × (ms ≢ [])
            × ((e : Entry) → ms ≢ e ∷ [])))

abbrev Differ : Entry → Entry → Type 0
Differ d e = d.0 ≢ e.0

lt→ne : (s t : Text) → text_lt s t ≡ true → s ≢ t
lt→ne s t h e = cc (text_lt_irrefl s)

ordered-Differ : (ms : List Entry) → IsOrdered ms → Pairwise Differ ms
ordered-Differ [] h = tt
ordered-Differ (e ∷ ms) h = (All-map (λ d lt. lt→ne e.0 d.0 lt) ms h.0, ordered-Differ ms h.1)

IsApart-sym : (x y : Entry) → IsApart x y → IsApart y x
IsApart-sym x y n h = h ∙ n (sym h)

-- The same of the sorted matches.
newest-cases :
    (target : Text) (a b : Entry) (t : List Entry)
    → All IsNamed (a ∷ b ∷ t)
    → Pairwise Differ (a ∷ b ∷ t)
    → Pairwise IsApart (a ∷ b ∷ t)
    → IsDesc order (a ∷ b ∷ t)
    → (IsNewest (a ∷ b ∷ t) a × (newest target (a ∷ b ∷ t) ≡ ok a.0))
      ⊎ ((newest target (a ∷ b ∷ t) ≡ err (target_ambiguous target))
          × All (λ d. order d ≡ 0) (a ∷ b ∷ t))
unfolding newest
newest-cases target a b t filed differ apart desc = elim (nat_tie (order b) (order a)) [
  | inl (tie, same) ↦
      let none_yet = apart.0.0 (sym same) in
      inr (rw (tie, other) refl, (none_yet, (omega arith, All-map (λ d h. omega arith) t desc.0.1)))
  | inr (tie, below) ↦ inl (
    (inl refl, (inr (omega arith), All-map (λ d h. inr (omega arith)) t desc.1.0)),
    rw (tie, filed.0) refl,
  )
]
  where
    other : text_eq b.1.window.window_session_id a.1.window.window_session_id ≡ false
    other = elim (Bool-cases (text_eq b.1.window.window_session_id a.1.window.window_session_id)) [
      | inl h ↦ absurd (differ.0.0 (sym filed.0 ∙ sym (text_eq-eq _ _ h) ∙ filed.1.0))
      | inr h ↦ h
    ]

    nat_tie : (m n : ℕ) → (((m == n) ≡ true) × (m ≡ n)) ⊎ (((m == n) ≡ false) × (m ≢ n))
    nat_tie m n = ground arith

-- Two or more matches, by what their sorted list is.
sorted-Outcome :
    (target : Text) (e d : Entry) (rest s : List Entry)
    → sort_desc order (e ∷ d ∷ rest) ≡ s
    → AreMatches (e ∷ d ∷ rest)
    → Outcome target (e ∷ d ∷ rest) (newest target s)
sorted-Outcome target e d rest [] q m =
    absurd ((All-sort_desc order (λ x. ⊥) (e ∷ d ∷ rest) (rw q tt)).0)
sorted-Outcome target e d rest (a ∷ []) q m =
    let same = All-sort_desc order (λ x. x ≡ a) (e ∷ d ∷ rest) (rw q (refl, tt)) in
    absurd (lt→ne e.0 d.0 m.ordered.0.0 (ap (λ x. x.0) (same.0 ∙ sym same.1.0)))
sorted-Outcome target e d rest (a ∷ b ∷ t) q m =
    let ms = e ∷ d ∷ rest in
    let member = subst (All λ x. Memᴰ x ms) q (sort_desc-All order _ ms (All-Mem ms)) in
    let filed = subst (All IsNamed) q (sort_desc-All order _ ms m.filed) in
    let differ =
      subst (Pairwise Differ) q
        (sort_desc-Pairwise order _ (λ x y n h. n (sym h)) ms (ordered-Differ ms m.ordered)) in
    let apart = subst (Pairwise IsApart) q (sort_desc-Pairwise order _ IsApart-sym ms m.apart) in
    let desc = subst (IsDesc order) q (sort_desc-IsDesc order ms) in
    elim (newest-cases target a b t filed differ apart desc) [
      | inl (new, r) ↦ inr (
          inl (
            a,
            member.0,
            All-sort_desc order (λ x. (x ≡ a) ⊎ (order x < order a)) ms (rw q new),
            r,
          ))
      | inr (r, zeros) ↦
          inr (inr (r, All-sort_desc order (λ x. order x ≡ 0) ms (rw q zeros), λ h. cc, λ x h. cc))
    ]

-- What `pick` makes of matches.
pub pick-Outcome :
    (target : Text) (ms : List Entry) → AreMatches ms → Outcome target ms (pick target ms)
unfolding pick
pick-Outcome target [] m = inl (refl, refl)
pick-Outcome target (e ∷ []) m = inr (inl (e, Memᴰ.head refl, (inl refl, tt), refl))
pick-Outcome target (e ∷ d ∷ rest) m = sorted-Outcome target e d rest _ refl m
