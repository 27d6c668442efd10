-- ===== src/Window/Registry/Place/Trail.antt =====
-- The workspaces that a window has visited, and what a resize answers
-- (portus-window/src/window_core.rs).
use portus_window.Base.{
  text_eq_refl, ℕ, ◌≡◌, ◌≢◌, refl, ap, ◌⊎◌, inl, inr, true, false, ◌&&◌, leb, Option, none, some,
  List, [], ◌∷◌, ◌++◌, arith, Text, last, drop, length, Bool-cases, Option-cases, ok, err,
  last-append,
}
use portus_window.Base.OrdMap.{text_key, get}
use portus_window.Base.OrdMap.Laws.{get-modify}
use portus_window.Protocol.Windows.{
  ActiveWindow, WindowStateAction, maximize, minimize, restore, fullscreen,
}
use portus_window.Window.Errors.{WindowCoreError, target_not_found, Checked}
use portus_window.Window.Validate.{ResizeSpec, validate_resize}
use portus_window.Window.Validate.Accepted.{IsSide, validate_resize-IsSide}
use portus_window.Window.Registry.{
  WindowRecord, WindowRegistry, status, change_window, update_window,
}
use portus_window.Window.Registry.Place.{
  is_index, visit_workspace, after_check, apply_state, resized, apply_resize,
}

-- No workspace directly behind itself.
abbrev pub IsTrail : List ℕ → Type 0
IsTrail [] = Unit
IsTrail (i ∷ []) = Unit
IsTrail (i ∷ j ∷ t) = (i ≢ j) × IsTrail (j ∷ t)

drop-IsTrail : (t : List ℕ) → IsTrail t → IsTrail (drop 1 t)
drop-IsTrail [] h = tt
drop-IsTrail (i ∷ []) h = tt
drop-IsTrail (i ∷ j ∷ t) h = h.1

append-IsTrail :
    (t : List ℕ) (i : ℕ) → is_index (last t) i ≡ false → IsTrail t → IsTrail (t ++ i ∷ [])
unfolding is_index
append-IsTrail [] i ne h = tt
append-IsTrail (j ∷ []) i ne h = (λ e. ground arith, tt)
append-IsTrail (j ∷ k ∷ t) i ne h = (h.0, append-IsTrail (k ∷ t) i ne h.1)

is_index-drop :
    (t : List ℕ) (i : ℕ) → is_index (last t) i ≡ false → is_index (last (drop 1 t)) i ≡ false
unfolding is_index
is_index-drop [] i ne = ne
is_index-drop (j ∷ []) i ne = refl
is_index-drop (j ∷ k ∷ t) i ne = ne

pub visit_workspace-IsTrail :
    (i : ℕ) (w : ActiveWindow)
    → IsTrail w.workspace_history
    → let after = visit_workspace i w in
      (after.workspace ≡ w.workspace)
      × IsTrail after.workspace_history
      × (last after.workspace_history ≡ some i)
unfolding visit_workspace
visit_workspace-IsTrail i w h = elim (Bool-cases (is_index (last w.workspace_history) i)) [
  | inl here ↦ rw here (refl, h, last_is _ here)
  | inr elsewhere ↦ elim (Bool-cases (leb 128 (length w.workspace_history))) [
    | inl full ↦
        rw (elsewhere, full)
          (
            refl,
            append-IsTrail _ i (is_index-drop w.workspace_history i elsewhere)
                (drop-IsTrail w.workspace_history h),
            last-append (drop 1 w.workspace_history) i,
          )
    | inr room ↦
        rw (elsewhere, room)
          (
            refl,
            append-IsTrail w.workspace_history i elsewhere h,
            last-append w.workspace_history i,
          )
  ]
]
  where
    last_is : (o : Option ℕ) → is_index o i ≡ true → o ≡ some i
    last_is none e = ground arith
    last_is (some j) e = ground arith

-- The answer to a change of one window.
change_window-cases :
    (r : WindowRegistry) (id : Text) (f : ActiveWindow → ActiveWindow)
    → ((status r id ≡ err (target_not_found id))
        × (change_window r id f ≡ (err (target_not_found id), r)))
      ⊎ ((w : ActiveWindow) × (status r id ≡ ok w)
          × ((change_window r id f).0 ≡ ok (f w))
          × (status (change_window r id f).1 id ≡ ok (f w)))
unfolding status change_window update_window
change_window-cases r id f = elim (Option-cases (get id r.windows)) [
  | inl e ↦ inl (rw (e, status, change_window) (refl, refl))
  | inr (rec, e) ↦ inr (rec.window, rw (e, status) refl, rw (e, change_window) refl, changed rec e)
]
  where
    changed :
        (rec : WindowRecord)
        → get id r.windows ≡ some rec
        → status (change_window r id f).1 id ≡ ok (f rec.window)
    changed rec e =
        rw
          (
            e,
            change_window,
            status,
            get-modify id id (λ d. record d { window = f d.window }) r.windows,
            text_eq_refl id,
            e,
          )
          refl

not_both :
    (spec : ResizeSpec) (w : ActiveWindow) (a : WindowStateAction)
    → spec.state ≡ some a
    → (resized spec w).is_maximized && (resized spec w).is_minimized ≡ false
unfolding resized apply_state
not_both spec w maximize e = rw e refl
not_both spec w minimize e = rw e refl
not_both spec w restore e = rw e refl
not_both spec w fullscreen e = rw e refl

-- Refused, with the registry as it was: a side is out of its bounds, or the window is not open.
-- Otherwise the answer is the window as the registry then has it.
abbrev pub IsAnswered :
    WindowRegistry → Text → ResizeSpec → Checked ActiveWindow × WindowRegistry → Type 0
IsAnswered r id spec (answer, after) =
    ((e : WindowCoreError) × (answer ≡ err e)
      × (after ≡ r)
      × ((IsSide spec.width × IsSide spec.height → ⊥) ⊎ (status r id ≡ err (target_not_found id))))
    ⊎ ((w : ActiveWindow) × (answer ≡ ok w)
        × (status after id ≡ ok w)
        × (IsSide spec.width × IsSide spec.height)
        × ((a : WindowStateAction)
            → spec.state ≡ some a
            → w.is_maximized && w.is_minimized ≡ false))

after_check-IsAnswered :
    (r : WindowRegistry) (id : Text) (spec : ResizeSpec) (c : Checked (Unit {0}))
    → validate_resize spec ≡ c
    → IsAnswered r id spec (after_check c r λ _. change_window r id (resized spec))
unfolding after_check
after_check-IsAnswered r id spec (err x) e =
    inl (x, refl, refl, inl (λ sides. let q = (validate_resize-IsSide spec).1 sides in absurd cc))
after_check-IsAnswered r id spec (ok u) e =
    let sides = (validate_resize-IsSide spec).0 e in
    elim (change_window-cases r id (resized spec)) [
      | inl (missing, q) ↦ inl (_, ap (λ x. x.0) q, ap (λ x. x.1) q, inr missing)
      | inr (w, here, answer, after) ↦ inr (resized spec w, answer, after, sides, not_both spec w)
    ]

-- A resize is refused, and changes nothing, if a side is out of its bounds or the window is not
-- open; otherwise it answers with the window as the registry then has it, which is not both
-- maximized and minimized if the resize says what state it is to be in.
pub apply_resize-IsAnswered :
    (r : WindowRegistry) (id : Text) (spec : ResizeSpec)
    → IsAnswered r id spec (apply_resize r id spec)
unfolding apply_resize
apply_resize-IsAnswered r id spec = after_check-IsAnswered r id spec (validate_resize spec) refl
