-- ===== src/Protocol/Windows.antt =====
-- The types of windows, media and workspaces (portus-window-protocol/src/lib.rs). An `f64` is its
-- bit pattern; `i32` is an integer.
use portus_window.Base.{ℕ, Bool, Option, List, Text}
use portus_window.Base.Int.{ℤ}

pub data SourceKind : Type 0 where
  web local_media : SourceKind

pub data ContentKind : Type 0 where
  web image video audio : ContentKind

pub data LoadState : Type 0 where
  started loaded failed : LoadState

pub data CloseReason : Type 0 where
  explicit destroyed abrupt_termination : CloseReason

pub data ConsoleLevel : Type 0 where
  debug log info warn error : ConsoleLevel

pub record ConsoleEntry : Type 0 where
  pub level : ConsoleLevel
  pub message : Text
  pub source : Option Text
  pub line : Option ℕ

pub record MediaState : Type 0 where
  pub playing : Bool
  pub paused : Bool
  pub ended : Bool
  pub duration_seconds : Option ℕ
  pub position_seconds : Option ℕ
  pub volume : Option ℕ
  pub error : Option Text

pub data MediaAction : Type 0 where
  play pause : MediaAction
  seek : (seconds : ℕ) → MediaAction
  set_volume : (level : ℕ) → MediaAction

pub data WebVideoAction : Type 0 where
  state play pause mute unmute : WebVideoAction
  seek : (seconds : ℕ) → WebVideoAction
  set_volume : (level : ℕ) → WebVideoAction

pub data WindowStateAction : Type 0 where
  maximize minimize restore fullscreen : WindowStateAction

pub data WorkspaceTarget : Type 0 where
  index : (i : ℕ) → WorkspaceTarget
  name : (n : Text) → WorkspaceTarget

pub data ConfigAction : Type 0 where
  show : ConfigAction
  set_history_enabled : (enabled : Bool) → ConfigAction
  set_retention_days : (days : Option ℕ) → ConfigAction

pub data OpenSource : Type 0 where
  web : (url : Text) → OpenSource
  local_media : (path : Text) → OpenSource

pub record WindowGeometrySpec : Type 0 where
  pub width : Option ℕ
  pub height : Option ℕ
  pub x : Option ℤ
  pub y : Option ℤ
  pub state : Option WindowStateAction
  pub always_on_top : Option Bool
  pub workspace : Option WorkspaceTarget

pub record WindowSpec : Type 0 where
  pub name : Option Text
  pub source : OpenSource
  pub description : Option Text
  pub profile : Option Text
  pub geometry : Option WindowGeometrySpec
  pub media : Option MediaAction

pub record WorkspaceSpec : Type 0 where
  pub version : ℕ
  pub windows : List WindowSpec

pub record ActiveWindow : Type 0 where
  pub window_session_id : Text
  pub source_kind : SourceKind
  pub content_kind : ContentKind
  pub requested_source : Text
  pub current_url : Option Text
  pub rendered_url : Option Text
  pub url_history : Option (List Text)
  pub url_history_truncated : Option Bool
  pub title : Text
  pub description : Option Text
  pub profile : Option Text
  pub authenticated : Option Bool
  pub load_state : LoadState
  pub load_error : Option Text
  pub console_errors : List ConsoleEntry
  pub console_errors_truncated : Bool
  pub media_state : Option MediaState
  pub width : ℕ
  pub height : ℕ
  pub x : ℤ
  pub y : ℤ
  pub is_maximized : Bool
  pub is_minimized : Bool
  pub is_focused : Bool
  pub is_always_on_top : Bool
  pub workspace : Option ℕ
  pub is_on_all_workspaces : Bool
  pub workspace_history : List ℕ
  pub workspace_history_truncated : Bool
