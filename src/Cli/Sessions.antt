-- ===== src/Cli/Sessions.antt =====
-- The commands on authenticated sessions (portus-window-cli/src/request.rs).
use portus_window.Base.{Option, none, some, if◌then◌else◌, Text, text, text_eq, ok, err, ◌>>=◌}
use portus_window.Protocol.Auth.{
  BrowserKind, AuthSessionScope, AuthSessionTarget, AuthSessionAction,
}
use portus_window.Cli.Args.{AuthSessionCommands}
use portus_window.Cli.Validate.{Parsed}

unfoldable pub target_for : Option Text → Option Text → Parsed AuthSessionTarget
target_for (some domain) none = ok (AuthSessionTarget.domain domain)
target_for none (some window) = ok (AuthSessionTarget.window window)
target_for none none =
    err (text "authenticated-session command requires exactly one of --domain or --window")
target_for (some domain) (some window) =
    err (text "authenticated-session command requires exactly one of --domain or --window")

unfoldable pub browser_for : Text → Parsed BrowserKind
browser_for value =
    if text_eq value (text "firefox")
    then ok BrowserKind.firefox
    else if text_eq value (text "chromium")
    then ok BrowserKind.chromium
    else if text_eq value (text "chrome")
    then ok BrowserKind.chrome
    else if text_eq value (text "brave")
    then ok BrowserKind.brave
    else err (text "browser must be firefox, chromium, chrome, or brave")

unfoldable pub scope_for : Text → Parsed AuthSessionScope
scope_for value =
    if text_eq value (text "once")
    then ok AuthSessionScope.once
    else if text_eq value (text "session")
    then ok AuthSessionScope.session
    else if text_eq value (text "remembered")
    then ok AuthSessionScope.remembered
    else err (text "scope must be once, session, or remembered")

unfoldable pub auth_session_action_for : AuthSessionCommands → Parsed AuthSessionAction
unfolding target_for browser_for scope_for
auth_session_action_for (AuthSessionCommands.request domain window browser scope reason shown) =
    target_for domain window >>= λ target. browser_for browser >>= λ kind.
    scope_for scope >>= λ lifetime. ok (AuthSessionAction.request target kind lifetime reason shown)
auth_session_action_for (AuthSessionCommands.status domain window) =
    target_for domain window >>= λ target. ok (AuthSessionAction.status target)
auth_session_action_for (AuthSessionCommands.apply domain window id) =
    target_for domain window >>= λ target. ok (AuthSessionAction.apply target id)
auth_session_action_for (AuthSessionCommands.revoke domain window) =
    target_for domain window >>= λ target. ok (AuthSessionAction.revoke target)
