-- ===== src/Protocol/Auth.antt =====
-- The types of authenticated sessions (portus-window-protocol/src/lib.rs).
use portus_window.Base.{Bool, Option, Text}

pub data BrowserKind : Type 0 where
  firefox chromium chrome brave : BrowserKind

pub data AuthSessionScope : Type 0 where
  once session remembered : AuthSessionScope

pub data AuthSessionDecision : Type 0 where
  pending authorized denied revoked : AuthSessionDecision

pub data AuthSessionTarget : Type 0 where
  domain : Text → AuthSessionTarget
  window : (window_session_id : Text) → AuthSessionTarget

pub data AuthSessionAction : Type 0 where
  request :
      (target : AuthSessionTarget)
      → (browser : BrowserKind) → (scope : AuthSessionScope) → (reason : Option Text)
      → (presentation_window_session_id : Option Text) → AuthSessionAction
  status : (target : AuthSessionTarget) → AuthSessionAction
  apply : (target : AuthSessionTarget) → (window_session_id : Text) → AuthSessionAction
  revoke : (target : AuthSessionTarget) → AuthSessionAction

pub record AuthSessionState : Type 0 where
  pub target : AuthSessionTarget
  pub canonical_domain : Text
  pub browser : BrowserKind
  pub scope : AuthSessionScope
  pub decision : AuthSessionDecision
  pub available : Bool
  pub applied : Bool
  pub reason : Option Text

pub record AuthSessionResult : Type 0 where
  pub state : AuthSessionState
