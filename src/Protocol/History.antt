-- ===== src/Protocol/History.antt =====
-- The history of closed windows and the configuration (portus-window-protocol/src/lib.rs).
use portus_window.Base.{ℕ, Bool, Option, List, Text}
use portus_window.Protocol.Windows.{SourceKind, ContentKind, CloseReason}

pub record Configuration : Type 0 where
  pub history_enabled : Bool
  pub retention_days : Option ℕ

pub record HistoricalWindow : Type 0 where
  pub historical_id : Text
  pub window_session_id : Text
  pub source_kind : SourceKind
  pub content_kind : ContentKind
  pub requested_source : Text
  pub title : Text
  pub rendered_url : Option Text
  pub final_url : Option Text
  pub url_history : List Text
  pub url_history_truncated : Bool
  pub description : Option Text
  pub workspace : Option ℕ
  pub is_on_all_workspaces : Bool
  pub workspace_history : List ℕ
  pub workspace_history_truncated : Bool
  pub opened_at : Text
  pub closed_at : Text
  pub close_reason : CloseReason

pub record HistoryResult : Type 0 where
  pub entries : List HistoricalWindow
  pub truncated : Bool

pub record ClearHistoryResult : Type 0 where
  pub deleted : ℕ
