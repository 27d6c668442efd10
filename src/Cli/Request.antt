-- ===== src/Cli/Request.antt =====
-- From a command to its request (portus-window-cli/src/request.rs). The parsers of serde_json and
-- what the process reads are parameters.
pub mod Good
pub mod Parts
pub mod Accepted
use portus_window.Base.{
  ℕ, Bool, true, false, not, ◌&&◌, ◌||◌, Option, none, some, List, [], ◌∷◌, ◌++◌, if◌then◌else◌,
  ltb, length, is_empty, is_some, decimal, Text, text, text_eq, Result, ok, err, ◌>>=◌,
}
use portus_window.Base.Float.{le_zero, exceeds_600}
use portus_window.Base.Int.{ℤ}
use portus_window.Protocol.Limits.{
  protocol_version, max_open_batch_windows, min_interaction_timeout_ms, max_interaction_timeout_ms,
  max_description_chars,
}
use portus_window.Protocol.Windows.{
  WindowStateAction, maximize, minimize, restore, fullscreen, WorkspaceTarget, WindowGeometrySpec,
  WindowSpec, WorkspaceSpec,
}
use portus_window.Protocol.Auth.{
  BrowserKind, AuthSessionScope, AuthSessionTarget, AuthSessionAction,
}
use portus_window.Protocol.Interaction.{InteractionAction, InteractionScreenshot}
use portus_window.Protocol.Requests
use portus_window.Protocol.Requests.{Request, ping_request}
use portus_window.Protocol.Frame.{Json, FrameError, too_large, invalid_json, encode_frame}
use portus_window.Cli.Args.{Commands, AuthSessionCommands, MediaCommands, StateFlags}
use portus_window.Cli.Paths.{PathBuf, Surroundings, is_utf8, absolute_utf8_path}
use portus_window.Cli.Validate.{
  Parsed, classify_open_source, validate_optional_profile, workspace_target_for, config_action_for,
  history_query_for, media_action_for,
}
use portus_window.Cli.Actions.{interaction_actions_for}
use portus_window.Cli.Sessions.{target_for, browser_for, scope_for, auth_session_action_for}
use portus_window.Cli.Windows.{
  state_for, workspace_for, check_chosen, is_given, geometry_for, check_tag, tag_request,
  resize_request,
}

-- serde_json's parsers.
pub record Parsers : Type 0 where
  pub windows : Text → Result Text (List WindowSpec)
  pub spec : Text → Result Text WorkspaceSpec
  pub action : Text → Result Text InteractionAction

abbrev map_error {ℓ} : {A : Type ℓ} → Text → Result Text A → Result Text A
map_error context (ok a) = ok a
map_error context (err error) = err (context ++ error)

-- A file, or the standard input for no file or "-".
unfoldable read_input : Surroundings → Option PathBuf → Text → Text → Parsed Text
read_input host none from_file from_stdin = map_error from_stdin host.stdin
read_input host (some path) from_file from_stdin =
    if is_utf8 path && text_eq path (text "-")
    then map_error from_stdin host.stdin
    else map_error from_file (host.read_to_string path)

unfoldable has_media : List WindowSpec → Bool
has_media [] = false
has_media (window ∷ windows) = is_some window.media || has_media windows

unfoldable check_batch : List WindowSpec → Parsed Request
unfolding has_media
check_batch windows =
    if is_empty windows
    then err (text "open-batch requires at least one window")
    else if ltb max_open_batch_windows (length windows)
    then err
        (text "open-batch supports at most " ++ (decimal max_open_batch_windows ++ text " windows"))
    else if has_media windows
    then err (
        text
          "open-batch manifest windows must not contain media actions; use open or apply for media control")
    else ok (Requests.open_batch protocol_version windows)

unfoldable history_request : Option Text → Bool → Parsed Request
history_request query clear =
    let parsed = history_query_for query >>= λ q. ok (Requests.history protocol_version q clear) in
    if clear && is_some query
    then err (text "history accepts --query or --clear, not both")
    else parsed

unfoldable screenshot_request :
    Surroundings → Option Text → Option PathBuf → Bool → Bool → Parsed Request
unfolding check_chosen
screenshot_request host target none overwrite all =
    check_chosen (text "screenshot requires either target or --all") target all >>= λ t.
    err (text "screenshot requires --out <PATH>")
screenshot_request host target (some out) overwrite all =
    check_chosen (text "screenshot requires either target or --all") target all >>= λ t.
    absolute_utf8_path host out (text "screenshot output") >>= λ path.
    ok (Requests.screenshot protocol_version target path overwrite all)

unfoldable record_request : Surroundings → Text → PathBuf → ℕ → Bool → Parsed Request
record_request host target out duration_seconds overwrite =
    let parsed = absolute_utf8_path host out (text "record output") >>= λ path.
    ok (Requests.record_video protocol_version target path duration_seconds overwrite) in
    if le_zero duration_seconds || exceeds_600 duration_seconds
    then err (text "record duration must be between 0.1 and 600.0 seconds")
    else parsed

unfoldable screenshot_for :
    Surroundings → Option PathBuf → Bool → Parsed (Option InteractionScreenshot)
screenshot_for host none overwrite = ok none
screenshot_for host (some out) overwrite =
    absolute_utf8_path host out (text "interaction screenshot output") >>= λ path.
    ok (some (record { out = path; overwrite = overwrite }))

unfoldable interact_request :
    Surroundings → Parsers → Text → List Text → ℕ → Option PathBuf → Bool → Parsed Request
unfolding screenshot_for
interact_request host parsers target actions timeout_ms out overwrite =
    let parsed = screenshot_for host out overwrite >>= λ screenshot.
    interaction_actions_for parsers.action actions >>= λ parsed.
    ok (Requests.interact protocol_version target parsed timeout_ms screenshot) in
    if ltb timeout_ms min_interaction_timeout_ms || ltb max_interaction_timeout_ms timeout_ms
    then err (
        text "interaction timeout must be between "
        ++ (decimal min_interaction_timeout_ms
            ++ (text " and " ++ (decimal max_interaction_timeout_ms ++ text " ms"))))
    else parsed

module _ (host : Surroundings) (parsers : Parsers) (requests : Json Request) where
  -- The request, before it is known to fit a frame.
  unfoldable unchecked : Commands → Parsed Request
  unfolding read_input check_batch geometry_for history_request screenshot_request record_request
      interact_request tag_request resize_request check_chosen auth_session_action_for
  unchecked Commands.ping = ok ping_request
  unchecked (Commands.open_batch file) =
      read_input host file (text "failed to read open-batch manifest: ")
        (text "failed to read open-batch manifest from STDIN: ")
      >>= λ manifest.
          map_error (text "invalid open-batch JSON manifest: ") (parsers.windows manifest)
          >>= check_batch
  unchecked
        (Commands.open_source source description profile wait width height x y flags on_top space) =
      geometry_for width height x y flags on_top space >>= λ geometry.
      classify_open_source host source >>= λ opened. validate_optional_profile profile >>= λ name.
      ok (Requests.open_source protocol_version opened description name geometry)
  unchecked (Commands.apply file prune) =
      read_input host file (text "failed to read workspace file: ")
        (text "failed to read from STDIN: ")
      >>= λ json. map_error (text "invalid workspace spec JSON: ") (parsers.spec json) >>= λ spec.
          ok (Requests.apply protocol_version spec prune)
  unchecked (Commands.export out) = ok (Requests.export protocol_version)
  unchecked Commands.list = ok (Requests.list protocol_version)
  unchecked (Commands.history query clear) = history_request query clear
  unchecked (Commands.config show set) =
      config_action_for show set >>= λ action. ok (Requests.config protocol_version action)
  unchecked (Commands.auth_session action) =
      auth_session_action_for action >>= λ a. ok (Requests.auth_session protocol_version a)
  unchecked Commands.workspaces = ok (Requests.workspaces protocol_version)
  unchecked (Commands.status target) = ok (Requests.status protocol_version target)
  unchecked (Commands.console target all) =
      check_chosen (text "console requires either target or --all") target all >>= λ t.
      ok (Requests.console protocol_version target all)
  unchecked (Commands.screenshot target out overwrite all) =
      screenshot_request host target out overwrite all
  unchecked (Commands.record_video target out duration_seconds overwrite) =
      record_request host target out duration_seconds overwrite
  unchecked (Commands.media target action all) =
      check_chosen (text "media requires either target or --all") target all >>= λ t.
      media_action_for action >>= λ a. ok (Requests.media protocol_version target a all)
  unchecked (Commands.interact target actions timeout_ms out overwrite) =
      interact_request host parsers target actions timeout_ms out overwrite
  unchecked (Commands.tag target description all) = tag_request target description all
  unchecked (Commands.focus target) = ok (Requests.focus protocol_version target)
  unchecked (Commands.resize target width height x y flags on_top space all) =
      resize_request target width height x y flags on_top space all
  unchecked (Commands.close target all) =
      check_chosen (text "close requires exactly one target or --all") target all >>= λ t.
      ok (Requests.close protocol_version target all)

  unfoldable fitting : Request → Parsed Request
  fitting request = elim (encode_frame requests request) [
    | ok frame ↦ ok request
    | err (too_large actual maximum) ↦ err (
        text "request is "
        ++ (decimal actual
            ++ (text " bytes; maximum protocol frame is " ++ (decimal maximum ++ text " bytes"))))
    | err (invalid_json message) ↦
        err
          (text "request cannot be encoded as protocol JSON: payload is invalid JSON: " ++ message)
  ]

  unfoldable pub request_for : Commands → Parsed Request
  unfolding unchecked fitting
  request_for command = unchecked command >>= fitting
