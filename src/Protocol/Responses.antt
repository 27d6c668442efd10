-- ===== src/Protocol/Responses.antt =====
-- `Response`, `ErrorCode` and the exit codes (portus-window-protocol/src/lib.rs). The JSON values
-- of serde_json that a response carries are a type parameter.
use portus_window.Base.{ℕ, Text}
use portus_window.Protocol.Limits.{protocol_version}

pub data ErrorCode : Type 0 where
  validation_failed version_mismatch daemon_unavailable invalid_response timeout : ErrorCode
  frame_too_large display_unavailable invalid_workspace persistence_failed : ErrorCode
  media_failed web_video_failed auth_session_failed screenshot_failed : ErrorCode
  target_ambiguous target_not_found window_operation_failed internal : ErrorCode

pub record ResponseError : Type 0 where
  pub code : ErrorCode
  pub message : Text

pub data Response (V : Type 0) : Type 0 where
  ok : (version : ℕ) → (result : V) → Response V
  error : (version : ℕ) → (failure : ResponseError) → Response V

-- `ErrorCode::exit_code`
unfoldable pub error_exit_code : ErrorCode → ℕ
error_exit_code validation_failed = 1
error_exit_code version_mismatch = 2
error_exit_code daemon_unavailable = 3
error_exit_code invalid_response = 3
error_exit_code target_ambiguous = 4
error_exit_code target_not_found = 4
error_exit_code timeout = 5
error_exit_code display_unavailable = 6
error_exit_code media_failed = 6
error_exit_code web_video_failed = 6
error_exit_code auth_session_failed = 6
error_exit_code persistence_failed = 6
error_exit_code screenshot_failed = 6
error_exit_code window_operation_failed = 6
error_exit_code frame_too_large = 7
error_exit_code invalid_workspace = 7
error_exit_code internal = 7

module _ {V : Type 0} where
  -- `Response::ok`
  abbrev pub success : V → Response V
  success d = ok protocol_version d

  -- `Response::error`
  abbrev pub failure : ErrorCode → Text → Response V
  failure code message = error protocol_version (record { code = code; message = message })

  -- `Response::version`
  unfoldable pub response_version : Response V → ℕ
  response_version (ok v _) = v
  response_version (error v _) = v

  -- `Response::exit_code`
  unfoldable pub exit_code : Response V → ℕ
  unfolding error_exit_code
  exit_code (ok _ _) = 0
  exit_code (error _ e) = error_exit_code e.code
