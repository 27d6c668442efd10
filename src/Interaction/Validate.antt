-- ===== src/Interaction/Validate.antt =====
-- The validation of interactions (portus-window/src/interaction.rs).
pub mod Allowed
use portus_window.Base.{
  ℕ, ◌||◌, if◌then◌else◌, none, some, List, [], ◌∷◌, ◌++◌, ltb, length, trim, is_empty, decimal,
  Option, Text, text, Result, ok, err,
}
use portus_window.Protocol.Limits.{
  min_interaction_timeout_ms, max_interaction_timeout_ms, max_interaction_actions,
  max_interaction_selector_chars, max_interaction_value_chars, max_interaction_text_chars,
  max_interaction_key_chars,
}
use portus_window.Protocol.Interaction.{InteractionAction}

-- `Result<(), String>`
abbrev pub Validity : Type 0
Validity = Result Text Unit

unfoldable pub validate_selector : Text → Validity
validate_selector selector =
    if is_empty (trim selector)
    then err (text "interaction selector must not be blank")
    else if ltb max_interaction_selector_chars (length selector)
    then err (
        text "interaction selector must be at most "
        ++ (decimal max_interaction_selector_chars ++ text " characters"))
    else ok tt

-- The selector of an action that need not have one.
unfoldable pub validate_some : Option Text → Validity
unfolding validate_selector
validate_some none = ok tt
validate_some (some selector) = validate_selector selector

unfoldable pub validate_value : Text → Validity
validate_value value =
    if ltb max_interaction_value_chars (length value)
    then err (
        text "interaction fill value must be at most "
        ++ (decimal max_interaction_value_chars ++ text " characters"))
    else ok tt

unfoldable pub validate_key : Text → Option Text → Validity
unfolding validate_some
validate_key key selector =
    if is_empty (trim key)
    then err (text "interaction key must not be blank")
    else if ltb max_interaction_key_chars (length key)
    then err (
        text "interaction key must be at most "
        ++ (decimal max_interaction_key_chars ++ text " characters"))
    else validate_some selector

unfoldable pub validate_text : Text → Option Text → Validity
unfolding validate_some
validate_text content selector =
    if is_empty content
    then err (text "interaction text must not be empty")
    else if ltb max_interaction_text_chars (length content)
    then err (
        text "interaction text must be at most "
        ++ (decimal max_interaction_text_chars ++ text " characters"))
    else validate_some selector

unfoldable pub validate_action : InteractionAction → Validity
unfolding validate_selector validate_value validate_key validate_text
validate_action (InteractionAction.click selector) = validate_selector selector
validate_action (InteractionAction.fill selector value) = elim (validate_selector selector) [
  | err e ↦ err e
  | ok u ↦ validate_value value
]
validate_action (InteractionAction.press_key key selector) = validate_key key selector
validate_action (InteractionAction.wait_for_selector selector) = validate_selector selector
validate_action (InteractionAction.wait_for_text content selector) = validate_text content selector
validate_action (InteractionAction.check_selector selector) = validate_selector selector
validate_action (InteractionAction.check_text content selector) = validate_text content selector

unfoldable pub validate_each : List InteractionAction → Validity
unfolding validate_action
validate_each [] = ok tt
validate_each (action ∷ actions) =
    let rest = validate_each actions in
    elim (validate_action action) [ err e ↦ err e | ok u ↦ rest ]

unfoldable pub validate_request : List InteractionAction → ℕ → Validity
unfolding validate_each
validate_request actions timeout_ms =
    if is_empty actions
    then err (text "interaction requires at least one action")
    else if ltb max_interaction_actions (length actions)
    then err (
        text "interaction supports at most "
        ++ (decimal max_interaction_actions ++ text " ordered actions"))
    else if ltb timeout_ms min_interaction_timeout_ms || ltb max_interaction_timeout_ms timeout_ms
    then err (
        text "interaction timeout must be between "
        ++ (decimal min_interaction_timeout_ms
            ++ (text " and " ++ (decimal max_interaction_timeout_ms ++ text " ms"))))
    else validate_each actions
