-- ===== src/Window/Invariant/Focus.antt =====
-- Focus changes keep the registry well formed, while the counter does not wrap.
use portus_window.Base.{
  ℕ, ◌+◌, ◌^◌, ◌<◌, ◌≡◌, refl, Bool, true, false, [], ◌∷◌, arith, map, Text, All, Pairwise, All-map,
  map-All, map-Pairwise, Bool-cases, inl, inr, if◌then◌else◌,
}
use portus_window.Base.OrdMap.{text_key, OrdMap, modify, contains_key}
use portus_window.Base.OrdMap.Entries.{
  IsOrdered, modify-cases, modify-All, modify-IsOrdered, modify_below,
}
use portus_window.Window.Registry.{WindowRecord, WindowRegistry, update_window}
use portus_window.Window.Registry.Focus.{next_focus, set_focused, focus_window, record_focus}
use portus_window.Window.Registry.Pages.{is_web_source}
use portus_window.Protocol.Windows.{ActiveWindow}
use portus_window.Window.Target.{Entry, order}
use portus_window.Window.Invariant.{IsSound, IsFiled, IsTimely, IsApart, Inv}
use portus_window.Window.Invariant.Changes.{Keeps, update_window-Inv}

abbrev unfocused : Entry → Entry
unfocused e = (e.0, set_focused false e.1)

abbrev focused_at : ℕ → WindowRecord → WindowRecord
focused_at n rec = record { window = record (rec.window) { is_focused = true }; focus_order = n }

-- One window of the map gets an order that is newer than all.
modify-IsApart_newest :
    (n k : _) (m : OrdMap Text WindowRecord)
    → IsOrdered m
    → All (λ e. order e < n) m
    → Pairwise IsApart m
    → Pairwise IsApart (modify k (focused_at n) m)
modify-IsApart_newest n k [] sorted old h = unfold modify in tt
modify-IsApart_newest n k (e ∷ m) sorted old h = elim (modify-cases k (focused_at n) e m) [
  | inl (q, same) ↦
      rw (q, modify_below k (focused_at n) m (rw same at sorted.0))
        (All-map (λ b lt p. absurd (omega arith)) m old.1, h.1)
  | inr q ↦ rw q (
    modify-All (IsApart e) k (focused_at n) m (λ v a p. absurd (omega arith)) h.0,
    modify-IsApart_newest n k m sorted.1 old.1 h.1,
  )
]

is_focused-IsSound :
    (w : ActiveWindow) (b : Bool) → IsSound w → IsSound (record w { is_focused = b })
unfolding is_web_source
is_focused-IsSound w b h = ground arith

unfocus-Keeps : Keeps (λ w. record w { is_focused = false })
unfocus-Keeps = record {
  sound = λ w. is_focused-IsSound w false;
  same_id = λ w. refl;
  same_focus = λ w p. cc;
}

module _ (r : WindowRegistry) (id : Text) (v : Inv r) (room : r.focus_counter + 1 < 2 ^ 64) where
  next_focus-eq : next_focus r.focus_counter ≡ r.focus_counter + 1
  unfolding next_focus
  next_focus-eq = omega arith

  abbrev cleared : OrdMap Text WindowRecord
  cleared = map unfocused r.windows

  cleared-IsOrdered : IsOrdered cleared
  cleared-IsOrdered = map-Pairwise unfocused _ _ (λ a b h. h) r.windows v.ordered

  abbrev now : ℕ
  now = next_focus r.focus_counter

  focus_window-Inv : Inv (focus_window r id)
  unfolding focus_window
  focus_window-Inv = record {
    ordered = modify-IsOrdered id (focused_at now) cleared cleared-IsOrdered;
    filed =
        modify-All IsFiled id (focused_at now) cleared
          (λ rec h. (h.0, is_focused-IsSound rec.window true h.1))
          (map-All unfocused IsFiled IsFiled (λ e h. (h.0, is_focused-IsSound e.1.window false h.1))
            r.windows v.filed);
    timely =
        modify-All (IsTimely now) id (focused_at now) cleared
          (λ rec h. (omega arith, λ p. (refl, omega (arith, next_focus-eq))))
          (map-All unfocused (IsTimely r.focus_counter) (IsTimely now)
            (λ e h. (omega (arith, next_focus-eq), λ p. absurd (ground arith))) r.windows v.timely);
    apart =
        modify-IsApart_newest now id cleared cleared-IsOrdered
          (map-All unfocused (IsTimely r.focus_counter) (λ e. order e < now)
            (λ e h. omega (arith, next_focus-eq)) r.windows v.timely)
          (map-Pairwise unfocused IsApart IsApart (λ a b h. h) r.windows v.apart);
  }

  pub record_focus-Inv : (focused : Bool) → Inv (record_focus r id focused)
  unfolding record_focus
  record_focus-Inv focused = elim (Bool-cases (contains_key id r.windows)) [
    | inl e ↦ rw e (found focused)
    | inr e ↦ rw e v
  ]
    where
      found :
          (b : Bool)
          → Inv (
              if b
              then focus_window r id
              else update_window r id (λ w. record w { is_focused = false }))
      found true = focus_window-Inv
      found false = update_window-Inv r id _ unfocus-Keeps v
