-- ===== src/Cli/Actions.antt =====
-- The actions of an interaction (portus-window-cli/src/validation.rs).
pub mod Agreed
use portus_window.Base.{
  ℕ, suc, ◌+◌, ◌≤◌, Bool, true, false, not, ◌&&◌, ◌||◌, Option, none, some, List, [], ◌∷◌, ◌++◌,
  if◌then◌else◌, ◌==◌, ltb, leb, length, len, trim, is_empty, is_some, decimal, parse_u32,
  split_once, strip_prefix, to_ascii_lower, Text, text, text_eq, Result, ok, err, ◌>>=◌,
}
use portus_window.Base.Float.{is_finite, is_negative, zero_le, le_one}
use portus_window.Protocol.Limits.{
  max_source_bytes, max_profile_name_chars, max_retention_days, max_history_query_chars,
  max_interaction_actions, max_interaction_selector_chars, max_interaction_value_chars,
  max_interaction_text_chars, max_interaction_key_chars,
}
use portus_window.Protocol.Windows.{
  OpenSource, WorkspaceTarget, ConfigAction, show, set_history_enabled, set_retention_days,
  MediaAction,
}
use portus_window.Protocol.Interaction.{InteractionAction}
use portus_window.Cli.Args.{MediaCommands}
use portus_window.Cli.Validate.{Parsed}

unfoldable check_selector : Text → Parsed (Unit {0})
check_selector selector =
    if is_empty (trim selector)
    then err (text "interaction selector must not be blank")
    else if ltb max_interaction_selector_chars (length selector)
    then err (
        text "interaction selector must be at most "
        ++ (decimal max_interaction_selector_chars ++ text " characters"))
    else ok tt

unfoldable check_given : Option Text → Parsed (Unit {0})
unfolding check_selector
check_given none = ok tt
check_given (some selector) = check_selector selector

unfoldable check_fill : Text → Text → Parsed (Unit {0})
unfolding check_selector
check_fill selector value = check_selector selector >>= λ t.
    if ltb max_interaction_value_chars (length value)
    then err (
        text "interaction fill value must be at most "
        ++ (decimal max_interaction_value_chars ++ text " characters"))
    else ok tt

unfoldable check_key : Text → Option Text → Parsed (Unit {0})
unfolding check_given
check_key key selector =
    if is_empty (trim key) || ltb max_interaction_key_chars (length key)
    then err (
        text "interaction key must be nonblank and at most "
        ++ (decimal max_interaction_key_chars ++ text " characters"))
    else check_given selector

unfoldable check_content : Text → Option Text → Parsed (Unit {0})
unfolding check_given
check_content content selector =
    if is_empty content || ltb max_interaction_text_chars (length content)
    then err (
        text "interaction text must be non-empty and at most "
        ++ (decimal max_interaction_text_chars ++ text " characters"))
    else check_given selector

unfoldable pub validate_interaction_action_cli : InteractionAction → Parsed (Unit {0})
unfolding check_selector check_fill check_key check_content
validate_interaction_action_cli (InteractionAction.click selector) = check_selector selector
validate_interaction_action_cli (InteractionAction.wait_for_selector selector) =
    check_selector selector
validate_interaction_action_cli (InteractionAction.check_selector selector) =
    check_selector selector
validate_interaction_action_cli (InteractionAction.fill selector value) = check_fill selector value
validate_interaction_action_cli (InteractionAction.press_key key selector) = check_key key selector
validate_interaction_action_cli (InteractionAction.wait_for_text content selector) =
    check_content content selector
validate_interaction_action_cli (InteractionAction.check_text content selector) =
    check_content content selector

-- `from_str` is that of serde_json, `index` the position of the action.
module _ (from_str : Text → Result Text InteractionAction) where
  unfoldable parse_action : ℕ → Text → Parsed InteractionAction
  unfolding validate_interaction_action_cli
  parse_action index raw = elim (from_str raw) [
    | err error ↦
        err
          (text "invalid interaction action " ++ (decimal (index + 1) ++ (text " JSON: " ++ error)))
    | ok action ↦ validate_interaction_action_cli action >>= λ t. ok action
  ]

  unfoldable parse_actions : ℕ → List Text → Parsed (List InteractionAction)
  unfolding parse_action
  parse_actions index [] = ok []
  parse_actions index (raw ∷ rest) =
      let others = parse_actions (suc index) rest in
      parse_action index raw >>= λ action. others >>= λ actions. ok (action ∷ actions)

  unfoldable pub interaction_actions_for : List Text → Parsed (List InteractionAction)
  unfolding parse_actions
  interaction_actions_for raw_actions =
      if is_empty raw_actions
      then err (text "interact requires at least one --action JSON object")
      else if ltb max_interaction_actions (length raw_actions)
      then err (
          text "interact accepts at most "
          ++ (decimal max_interaction_actions ++ text " ordered --action values"))
      else parse_actions 0 raw_actions
