-- ===== src/Workspaces.antt =====
-- The workspaces of the desktop (portus-window/src/workspace.rs).
pub mod Resolved
use portus_window.Base.{
  ℕ, Bool, false, ◌||◌, List, [], ◌∷◌, ◌++◌, if◌then◌else◌, ◌==◌, ltb, leb, length, Text, text,
  text_eq, trim, is_empty, to_ascii_lower, decimal, retain, Result, ok, err,
}
use portus_window.Protocol.Windows.{WorkspaceTarget}

abbrev pub max_workspaces : ℕ
max_workspaces = 64

abbrev pub max_workspace_name_chars : ℕ
max_workspace_name_chars = 128

pub record WorkspaceInfo : Type 0 where
  pub index : ℕ
  pub name : Text
  pub is_current : Bool

pub data WorkspaceError : Type 0 where
  invalid_workspace : (target : Text) → WorkspaceError
  display_unavailable operation : (message : Text) → WorkspaceError

pub record WorkspaceCatalog : Type 0 where
  pub current : ℕ
  pub workspaces : List WorkspaceInfo

-- `eq_ignore_ascii_case`
unfoldable pub has_name : Text → WorkspaceInfo → Bool
has_name name ws = text_eq (to_ascii_lower ws.name) (to_ascii_lower name)

unfoldable pub any_index : ℕ → List WorkspaceInfo → Bool
any_index index [] = false
any_index index (ws ∷ rest) = ws.index == index || any_index index rest

unfoldable pub only_match : Text → List WorkspaceInfo → Result WorkspaceError ℕ
only_match name [] =
    err (invalid_workspace (text "workspace name '" ++ (name ++ text "' not found")))
only_match name (ws ∷ []) = ok ws.index
only_match name (ws ∷ other ∷ rest) =
    err (
      invalid_workspace (text "workspace name '" ++ (name ++ text "' matches multiple workspaces")))

unfoldable pub resolve_index : WorkspaceCatalog → ℕ → Result WorkspaceError ℕ
unfolding any_index
resolve_index catalog index =
    if leb max_workspaces index
    then err (
        invalid_workspace (
          text "workspace index "
          ++ (decimal index ++ (text " exceeds maximum " ++ decimal max_workspaces))))
    else if any_index index catalog.workspaces
    then ok index
    else err (
        invalid_workspace
          (text "workspace index " ++ (decimal index ++ text " not found in catalog")))

unfoldable pub resolve_name : WorkspaceCatalog → Text → Result WorkspaceError ℕ
unfolding has_name only_match
resolve_name catalog name =
    if is_empty name || ltb max_workspace_name_chars (length name)
    then err (invalid_workspace (text "workspace name must be non-empty and bounded"))
    else only_match name (retain (has_name name) catalog.workspaces)

unfoldable pub resolve : WorkspaceCatalog → WorkspaceTarget → Result WorkspaceError ℕ
unfolding resolve_index resolve_name
resolve catalog (WorkspaceTarget.index index) = resolve_index catalog index
resolve catalog (WorkspaceTarget.name name) = resolve_name catalog (trim name)
