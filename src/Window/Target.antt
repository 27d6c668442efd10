-- ===== src/Window/Target.antt =====
-- How a command's target names a window: `resolve_target` and `resolve_workspace_index`
-- (portus-window/src/window_core.rs). Unicode's lowercase mapping, `str::to_lowercase`, is a
-- parameter.
pub mod Newest
pub mod Resolved
pub mod Focused
use portus_window.Base.{
  ℕ, Bool, true, false, not, ◌&&◌, ◌||◌, Option, none, some, List, [], ◌∷◌, ◌++◌, if◌then◌else◌,
  ◌==◌, Text, text, text_eq, starts_with, contains, decimal, Result, ok, err, retain, sort_desc,
}
use portus_window.Base.OrdMap.{text_key, contains_key}
use portus_window.Protocol.Windows.{ActiveWindow}
use portus_window.Window.Errors.{WindowCoreError, target_not_found, target_ambiguous, Checked}
use portus_window.Window.Registry.{WindowRecord, WindowRegistry}

abbrev pub Entry : Type 0
Entry = Text × WindowRecord

abbrev pub order : Entry → ℕ
order e = e.1.focus_order

-- Of the two newest matches.
newest : Text → List Entry → Checked Text
newest target [] = err (target_not_found target)
newest target (e ∷ []) = ok e.1.window.window_session_id
newest target (e ∷ d ∷ rest) =
    if order d == order e && not (text_eq d.1.window.window_session_id e.1.window.window_session_id)
    then err (target_ambiguous target)
    else ok e.1.window.window_session_id

-- What both functions make of the matches: none, one, or the one that had the focus last.
unfoldable pub pick : Text → List Entry → Checked Text
unfolding newest
pick target [] = err (target_not_found target)
pick target (e ∷ []) = ok e.0
pick target (e ∷ d ∷ rest) = newest target (sort_desc order (e ∷ d ∷ rest))

module _ (to_lowercase : Text → Text) where
  optional_contains : Option Text → Text → Bool
  optional_contains none t = false
  optional_contains (some s) t = contains (to_lowercase s) t

  -- The words of a target against the description, the title, the source and the URL.
  unfoldable pub mentions : Text → Entry → Bool
  unfolding optional_contains
  mentions t e =
      let w = e.1.window in
      optional_contains w.description t
      || contains (to_lowercase w.title) t
      || contains (to_lowercase w.requested_source) t
      || optional_contains w.current_url t

  unfoldable pub is_match : Text → Entry → Bool
  unfolding mentions
  is_match t e =
      if text_eq t (text "focused")
      then e.1.window.is_focused
      else if text_eq t (text "maximized")
      then e.1.window.is_maximized
      else mentions t e

  unfoldable pub resolve_target : WindowRegistry → Text → Checked Text
  unfolding is_match
  resolve_target r target =
      if contains_key target r.windows
      then ok target
      else if starts_with target (text "wsess_")
      then err (target_not_found target)
      else pick target (retain (is_match (to_lowercase target)) r.windows)

unfoldable pub is_on_workspace : ℕ → Entry → Bool
is_on_workspace index e =
    elim e.1.window.workspace [ none ↦ false | some i ↦ i == index ]
    || e.1.window.is_on_all_workspaces

unfoldable pub resolve_workspace_index : WindowRegistry → ℕ → Checked Text
unfolding is_on_workspace
resolve_workspace_index r index =
    pick (text "workspace:" ++ decimal index) (retain (is_on_workspace index) r.windows)
