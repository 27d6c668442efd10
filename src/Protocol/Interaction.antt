-- ===== src/Protocol/Interaction.antt =====
-- The types of page interactions (portus-window-protocol/src/lib.rs).
use portus_window.Base.{ℕ, Bool, Option, List, Text}
use portus_window.Protocol.Windows.{ActiveWindow, ConsoleEntry}

pub data InteractionAction : Type 0 where
  click : (selector : Text) → InteractionAction
  fill : (selector value : Text) → InteractionAction
  press_key : (key : Text) → (selector : Option Text) → InteractionAction
  wait_for_selector : (selector : Text) → InteractionAction
  wait_for_text : (content : Text) → (selector : Option Text) → InteractionAction
  check_selector : (selector : Text) → InteractionAction
  check_text : (content : Text) → (selector : Option Text) → InteractionAction

pub record InteractionScreenshot : Type 0 where
  pub out : Text
  pub overwrite : Bool

pub data InteractionActionKind : Type 0 where
  click fill press_key wait_for_selector wait_for_text check_selector check_text :
      InteractionActionKind

pub data InteractionStepCode : Type 0 where
  ok selector_not_found selector_ambiguous selector_not_interactable text_not_found :
      InteractionStepCode
  timeout script_error cancelled : InteractionStepCode

pub record InteractionStepResult : Type 0 where
  pub index : ℕ
  pub kind : InteractionActionKind
  pub selector : Option Text
  pub ok : Bool
  pub code : InteractionStepCode
  pub message : Option Text
  pub elapsed_ms : ℕ

pub data InteractionPostErrorCode : Type 0 where
  status_failed console_failed screenshot_failed : InteractionPostErrorCode

pub record InteractionPostError : Type 0 where
  pub code : InteractionPostErrorCode
  pub message : Text

pub record ConsoleResult : Type 0 where
  pub window_session_id : Text
  pub entries : List ConsoleEntry
  pub truncated : Bool

pub record ScreenshotResult : Type 0 where
  pub window_session_id : Text
  pub path : Text
  pub bytes : ℕ

pub record InteractionResult : Type 0 where
  pub window_session_id : Text
  pub completed : Bool
  pub actions : List InteractionStepResult
  pub post_status : Option ActiveWindow
  pub console : Option ConsoleResult
  pub screenshot : Option ScreenshotResult
  pub post_errors : List InteractionPostError
  pub output_truncated : Bool
