-- ===== src/Window/Registry/Place.antt =====
-- Where a window is and what it is called: workspace, size, state and description
-- (portus-window/src/window_core.rs).
pub mod Trail
use portus_window.Base.{
  ℕ, Bool, true, false, Option, none, some, [], ◌∷◌, ◌++◌, if◌then◌else◌, ◌==◌, ltb, leb, length,
  drop, last, Text, text, ok, err,
}
use portus_window.Protocol.Windows.{
  ActiveWindow, WindowStateAction, maximize, minimize, restore, fullscreen,
}
use portus_window.Window.Errors.{validation, Checked}
use portus_window.Window.Validate.{ResizeSpec, validate_resize, validate_description}
use portus_window.Window.Registry.{WindowRegistry, change_window}

unfoldable pub is_index : Option ℕ → ℕ → Bool
is_index none i = false
is_index (some j) i = i == j

-- A workspace that is not the last of the history is pushed; a full history first loses its oldest.
unfoldable pub visit_workspace : ℕ → ActiveWindow → ActiveWindow
unfolding is_index
visit_workspace i w =
    if is_index (last w.workspace_history) i
    then w
    else if leb 128 (length w.workspace_history)
    then record w {
      workspace_history = drop 1 w.workspace_history ++ i ∷ [];
      workspace_history_truncated = true;
    }
    else record w { workspace_history = w.workspace_history ++ i ∷ [] }

unfoldable pub place : Option ℕ → Bool → ActiveWindow → ActiveWindow
unfolding visit_workspace
place index true w = record w { workspace = none; is_on_all_workspaces = true }
place none false w = record w { workspace = none; is_on_all_workspaces = false }
place (some i) false w =
    visit_workspace i (record w { workspace = some i; is_on_all_workspaces = false })

unfoldable pub is_bad_index : Option ℕ → Bool
is_bad_index none = false
is_bad_index (some i) = ltb 255 i

unfoldable pub record_workspace :
    WindowRegistry → Text → Option ℕ → Bool → Checked ActiveWindow × WindowRegistry
unfolding place is_bad_index
record_workspace r id index all =
    if is_bad_index index
    then (err (validation (text "workspace index must be between 0 and 255")), r)
    else change_window r id (place index all)

-- A change that needs a validated value first.
unfoldable pub after_check :
    {A : Type 0}
    → Checked A
    → WindowRegistry
    → (A → Checked ActiveWindow × WindowRegistry)
    → Checked ActiveWindow × WindowRegistry
after_check (err e) r f = (err e, r)
after_check (ok a) r f = f a

unfoldable pub set_description :
    WindowRegistry → Text → Option Text → Checked ActiveWindow × WindowRegistry
set_description r id description = change_window r id (λ w. record w { description = description })

unfoldable pub tag : WindowRegistry → Text → Text → Checked ActiveWindow × WindowRegistry
unfolding after_check set_description
tag r id description =
    after_check (validate_description (some description)) r
      λ validated. set_description r id validated

unfoldable pub set_maximized : WindowRegistry → Text → Bool → Checked ActiveWindow × WindowRegistry
set_maximized r id value = change_window r id (λ w. record w { is_maximized = value })

unfoldable pub set_minimized : WindowRegistry → Text → Bool → Checked ActiveWindow × WindowRegistry
set_minimized r id value = change_window r id (λ w. record w { is_minimized = value })

abbrev pub given {ℓ} : {A : Type ℓ} → Option A → A → A
given none old = old
given (some new) old = new

unfoldable pub apply_state : Option WindowStateAction → ActiveWindow → ActiveWindow
apply_state none w = w
apply_state (some maximize) w = record w { is_maximized = true; is_minimized = false }
apply_state (some minimize) w = record w { is_maximized = false; is_minimized = true }
apply_state (some restore) w = record w { is_maximized = false; is_minimized = false }
apply_state (some fullscreen) w = record w { is_maximized = false; is_minimized = false }

-- The window that a valid specification makes.
unfoldable pub resized : ResizeSpec → ActiveWindow → ActiveWindow
unfolding apply_state
resized spec w = apply_state spec.state (record w {
  width = given spec.width w.width;
  height = given spec.height w.height;
  x = given spec.x w.x;
  y = given spec.y w.y;
  is_always_on_top = given spec.always_on_top w.is_always_on_top;
})

unfoldable pub apply_resize :
    WindowRegistry → Text → ResizeSpec → Checked ActiveWindow × WindowRegistry
unfolding after_check resized
apply_resize r id spec = after_check (validate_resize spec) r λ _. change_window r id (resized spec)
