-- ===== src/Window/Invariant/Changes.antt =====
-- A change of one window keeps the registry well formed if it keeps that window sound, under its
-- identity, and gives it no focus.
use portus_window.Base.{
  ◌≡◌, ◌∙◌, refl, sym, true, inl, inr, [], ◌∷◌, Text, All, Pairwise, All-map, Option-cases,
}
use portus_window.Base.OrdMap.{text_key, modify, OrdMap, get}
use portus_window.Base.OrdMap.Entries.{modify-cases, modify-All, modify-IsOrdered}
use portus_window.Protocol.Windows.{ActiveWindow}
use portus_window.Window.Registry.{WindowRecord, WindowRegistry, update_window, change_window}
use portus_window.Window.Invariant.{IsSound, IsFiled, IsTimely, IsApart, Inv}

pub record Keeps (f : ActiveWindow → ActiveWindow) : Type 0 where
  pub sound : (w : ActiveWindow) → IsSound w → IsSound (f w)
  pub same_id : (w : ActiveWindow) → (f w).window_session_id ≡ w.window_session_id
  pub same_focus : (w : ActiveWindow) → (f w).is_focused ≡ true → w.is_focused ≡ true

-- A change that leaves the orders alone leaves them apart.
modify-IsApart :
    (k : Text) (f : WindowRecord → WindowRecord) (m : OrdMap Text WindowRecord)
    → ((rec : WindowRecord) → (f rec).focus_order ≡ rec.focus_order)
    → Pairwise IsApart m
    → Pairwise IsApart (modify k f m)
modify-IsApart k f [] same h = unfold modify in tt
modify-IsApart k f (e ∷ m) same h = elim (modify-cases k f e m) [
  | inl (q, _) ↦
      let own : All (IsApart (k, f e.1)) m =
        All-map (λ b apart p. same e.1 ∙ apart (sym (same e.1) ∙ p)) m h.0 in
      rw q (
        modify-All (IsApart (k, f e.1)) k f m (λ v apart p. apart (p ∙ same v)) own,
        modify-IsApart k f m same h.1,
      )
  | inr q ↦ rw q (
    modify-All (IsApart e) k f m (λ v apart p. apart (p ∙ same v)) h.0,
    modify-IsApart k f m same h.1,
  )
]

pub update_window-Inv :
    (r : WindowRegistry) (id : Text) (f : ActiveWindow → ActiveWindow)
    → Keeps f
    → Inv r
    → Inv (update_window r id f)
unfolding update_window
update_window-Inv r id f keeps v = record {
  ordered = modify-IsOrdered id _ r.windows v.ordered;
  filed =
      modify-All IsFiled id _ r.windows (λ rec h. (keeps.same_id _ ∙ h.0, keeps.sound _ h.1))
        v.filed;
  timely =
      modify-All (IsTimely r.focus_counter) id _ r.windows
        (λ rec h. (h.0, λ p. h.1 (keeps.same_focus _ p))) v.timely;
  apart = modify-IsApart id _ r.windows (λ rec. refl) v.apart;
}

pub change_window-Inv :
    (r : WindowRegistry) (id : Text) (f : ActiveWindow → ActiveWindow)
    → Keeps f
    → Inv r
    → Inv (change_window r id f).1
change_window-Inv r id f keeps v = elim (Option-cases (get id r.windows)) [
  | inl e ↦ unfold change_window in rw (e, change_window) v
  | inr (rec, e) ↦ unfold change_window in rw (e, change_window) (update_window-Inv r id f keeps v)
]
