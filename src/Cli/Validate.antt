-- ===== src/Cli/Validate.antt =====
-- The checks of the command line's values (portus-window-cli/src/validation.rs).
pub mod Agreed
use portus_window.Base.{
  ℕ, suc, ◌+◌, ◌≤◌, Bool, true, false, not, ◌&&◌, ◌||◌, Option, none, some, List, [], ◌∷◌, ◌++◌,
  if◌then◌else◌, ◌==◌, ltb, leb, length, len, trim, is_empty, is_some, decimal, parse_u32,
  split_once, strip_prefix, to_ascii_lower, Text, text, text_eq, Result, ok, err, ◌>>=◌,
}
use portus_window.Base.Float.{is_finite, is_negative, zero_le, le_one}
use portus_window.Protocol.Limits.{
  max_source_bytes, max_profile_name_chars, max_retention_days, max_history_query_chars,
  max_interaction_actions, max_interaction_selector_chars, max_interaction_value_chars,
  max_interaction_text_chars, max_interaction_key_chars,
}
use portus_window.Protocol.Windows.{
  OpenSource, WorkspaceTarget, ConfigAction, show, set_history_enabled, set_retention_days,
  MediaAction,
}
use portus_window.Protocol.Interaction.{InteractionAction}
use portus_window.Cli.Args.{MediaCommands}
use portus_window.Cli.Paths.{Surroundings, absolute_utf8_path}

-- What a value becomes, or why not.
abbrev pub Parsed : Type 0 → Type 0
Parsed = Result Text

-- `ok_or_else`
abbrev ok_or {ℓ} : {A : Type ℓ} → Text → Option A → Result Text A
ok_or error none = err error
ok_or error (some a) = ok a

-- What stands before the first "://".
unfoldable scheme_of : Text → Option Text
scheme_of [] = none
scheme_of (c ∷ s) =
    let rest = scheme_of s in
    if is_some (strip_prefix (c ∷ s) (text "://"))
    then some []
    else elim rest [ none ↦ none | some scheme ↦ some (c ∷ scheme) ]

unfoldable by_scheme : Text → Text → Text → Parsed OpenSource
by_scheme source scheme lowered =
    if text_eq lowered (text "http") || text_eq lowered (text "https")
    then ok (OpenSource.web source)
    else if text_eq lowered (text "file")
    then err (text "file:// URLs are not supported; pass the local media path directly")
    else err (
        text "unsupported source scheme '"
        ++ (scheme ++ text "'; use http/https or a local media path"))

unfoldable check_path : Text → Parsed OpenSource
check_path path =
    if ltb max_source_bytes (len path)
    then err (
        text "resolved local media path must be at most "
        ++ (decimal max_source_bytes ++ text " UTF-8 bytes"))
    else ok (OpenSource.local_media path)

unfoldable classify_trimmed : Surroundings → Text → Parsed OpenSource
unfolding scheme_of by_scheme check_path absolute_utf8_path
classify_trimmed host source =
    let as_path = absolute_utf8_path host source (text "local media") >>= check_path in
    if is_empty source
    then err (text "open source must not be empty")
    else if ltb max_source_bytes (len source)
    then err
        (text "open source must be at most " ++ (decimal max_source_bytes ++ text " UTF-8 bytes"))
    else elim (scheme_of source) [
      | none ↦ as_path
      | some scheme ↦ by_scheme source scheme (to_ascii_lower scheme)
    ]

unfoldable pub classify_open_source : Surroundings → Text → Parsed OpenSource
unfolding classify_trimmed
classify_open_source host source = classify_trimmed host (trim source)

unfoldable is_name_char : ℕ → Bool
is_name_char c =
    leb b'0' c && leb c b'9'
    || (leb b'A' c && leb c b'Z' || (leb b'a' c && leb c b'z' || (c == b'-' || c == b'_')))

unfoldable all_name_chars : Text → Bool
unfolding is_name_char
all_name_chars [] = true
all_name_chars (c ∷ s) = is_name_char c && all_name_chars s

unfoldable validate_profile_name : Text → Parsed (Unit {0})
unfolding all_name_chars
validate_profile_name name =
    let trimmed = trim name in
    if is_empty trimmed
    then err (text "profile name must not be empty")
    else if ltb max_profile_name_chars (length trimmed)
    then err (
        text "profile name must be at most "
        ++ (decimal max_profile_name_chars ++ text " characters"))
    else if not (all_name_chars trimmed)
    then err (text "profile name may only contain alphanumeric characters, dashes, and underscores")
    else ok tt

unfoldable pub validate_optional_profile : Option Text → Parsed (Option Text)
unfolding validate_profile_name
validate_optional_profile none = ok none
validate_optional_profile (some name) = validate_profile_name name >>= λ t. ok (some (trim name))

unfoldable as_target : Text → Option ℕ → WorkspaceTarget
as_target value none = WorkspaceTarget.name value
as_target value (some i) = WorkspaceTarget.index i

unfoldable pub workspace_target_for : Text → Parsed WorkspaceTarget
unfolding as_target
workspace_target_for value =
    let trimmed = trim value in
    if is_empty trimmed
    then err (text "workspace target must not be empty")
    else ok (as_target trimmed (parse_u32 trimmed))

unfoldable enabled_setting : Text → Parsed ConfigAction
enabled_setting value =
    if text_eq value (text "true")
    then ok (set_history_enabled true)
    else if text_eq value (text "false")
    then ok (set_history_enabled false)
    else err (text "history_enabled must be true or false")

unfoldable check_days : ℕ → Parsed ConfigAction
check_days days =
    if ltb days 1 || ltb max_retention_days days
    then err (text "retention_days must be null or between 1 and " ++ decimal max_retention_days)
    else ok (set_retention_days (some days))

unfoldable days_setting : Text → Parsed ConfigAction
unfolding check_days
days_setting value =
    let bad =
      text "retention_days must be null or an integer between 1 and "
      ++ decimal max_retention_days in
    let days = ok_or bad (parse_u32 value) >>= check_days in
    if text_eq (to_ascii_lower value) (text "null") then ok (set_retention_days none) else days

unfoldable setting : Text → Text → Parsed ConfigAction
unfolding enabled_setting days_setting
setting key value =
    if is_empty key || is_empty value
    then err (text "config --set requires non-empty KEY=VALUE")
    else if text_eq key (text "history_enabled")
    then enabled_setting value
    else if text_eq key (text "retention_days")
    then days_setting value
    else err (
        text "unknown config key '"
        ++ (key ++ text "'; supported keys are history_enabled and retention_days"))

unfoldable pub config_action_for : Bool → Option Text → Parsed ConfigAction
unfolding setting
config_action_for true none = ok show
config_action_for false (some s) =
    ok_or (text "config --set requires KEY=VALUE") (split_once b'=' s) >>= λ p.
    setting (trim p.0) (trim p.1)
config_action_for true (some s) =
    err (text "config requires exactly one of --show or --set KEY=VALUE")
config_action_for false none = err (text "config requires exactly one of --show or --set KEY=VALUE")

unfoldable check_query : Text → Parsed (Option Text)
check_query query =
    if is_empty query
    then err (text "history query must not be blank")
    else if ltb max_history_query_chars (length query)
    then err (
        text "history query must be at most "
        ++ (decimal max_history_query_chars ++ text " characters"))
    else ok (some query)

unfoldable pub history_query_for : Option Text → Parsed (Option Text)
unfolding check_query
history_query_for none = ok none
history_query_for (some query) = check_query (trim query)

unfoldable pub media_action_for : MediaCommands → Parsed MediaAction
media_action_for MediaCommands.play = ok MediaAction.play
media_action_for MediaCommands.pause = ok MediaAction.pause
media_action_for (MediaCommands.seek seconds) =
    if not (is_finite seconds) || is_negative seconds
    then err (text "media seek seconds must be a finite value >= 0")
    else ok (MediaAction.seek seconds)
media_action_for (MediaCommands.set_volume level) =
    if not (is_finite level) || not (zero_le level && le_one level)
    then err (text "media volume level must be a finite value between 0 and 1")
    else ok (MediaAction.set_volume level)
