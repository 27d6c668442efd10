-- ===== src/Interaction/Validate/Allowed.antt =====
-- Which interactions are accepted (portus-window/src/interaction.rs).
use portus_window.Base.{
  ℕ, ◌≤◌, ◌≡◌, ◌↔◌, refl, false, Option, none, some, List, [], ◌∷◌, arith, length, trim, is_empty,
  All, Text, ok,
}
use portus_window.Protocol.Limits.{
  max_interaction_selector_chars, max_interaction_value_chars, max_interaction_text_chars,
  max_interaction_key_chars,
}
use portus_window.Protocol.Interaction.{InteractionAction}
use portus_window.Interaction.Validate.{
  validate_selector, validate_some, validate_value, validate_key, validate_text, validate_action,
  validate_each, validate_request,
}

-- Not only spaces, and at most as many characters.
abbrev IsFilled : ℕ → Text → Type 0
IsFilled most t = (is_empty (trim t) ≡ false) × (length t ≤ most)

abbrev IsSelected : Option Text → Type 0
IsSelected none = Unit
IsSelected (some s) = IsFilled max_interaction_selector_chars s

abbrev IsContent : Text → Type 0
IsContent t = (is_empty t ≡ false) × (length t ≤ max_interaction_text_chars)

-- The limits of one action.
abbrev pub IsAllowed : InteractionAction → Type 0
IsAllowed (InteractionAction.click s) = IsSelected (some s)
IsAllowed (InteractionAction.fill s v) =
    IsSelected (some s) × (length v ≤ max_interaction_value_chars)
IsAllowed (InteractionAction.press_key k s) = IsFilled max_interaction_key_chars k × IsSelected s
IsAllowed (InteractionAction.wait_for_selector s) = IsSelected (some s)
IsAllowed (InteractionAction.wait_for_text t s) = IsContent t × IsSelected s
IsAllowed (InteractionAction.check_selector s) = IsSelected (some s)
IsAllowed (InteractionAction.check_text t s) = IsContent t × IsSelected s

validate_selector-IsFilled :
    (s : Text) → (validate_selector s ≡ ok tt) ↔ IsFilled max_interaction_selector_chars s
unfolding validate_selector
validate_selector-IsFilled s = ground arith

validate_some-IsSelected : (o : Option Text) → (validate_some o ≡ ok tt) ↔ IsSelected o
unfolding validate_some
validate_some-IsSelected none = ground arith
validate_some-IsSelected (some s) = validate_selector-IsFilled s

validate_key-IsFilled :
    (k : Text) (o : Option Text)
    → (validate_key k o ≡ ok tt) ↔ (IsFilled max_interaction_key_chars k × IsSelected o)
unfolding validate_key
validate_key-IsFilled k o = ground (arith, validate_some-IsSelected o)

validate_text-IsContent :
    (t : Text) (o : Option Text) → (validate_text t o ≡ ok tt) ↔ (IsContent t × IsSelected o)
unfolding validate_text
validate_text-IsContent t o = ground (arith, validate_some-IsSelected o)

validate_fill :
    (s v : Text)
    → (validate_action (InteractionAction.fill s v) ≡ ok tt)
      ↔ (IsSelected (some s) × (length v ≤ max_interaction_value_chars))
unfolding validate_action validate_value
validate_fill s v = ground (arith, validate_selector-IsFilled s)

validate_action-IsAllowed : (a : InteractionAction) → (validate_action a ≡ ok tt) ↔ IsAllowed a
unfolding validate_action
validate_action-IsAllowed (InteractionAction.click s) = validate_selector-IsFilled s
validate_action-IsAllowed (InteractionAction.fill s v) = validate_fill s v
validate_action-IsAllowed (InteractionAction.press_key k s) = validate_key-IsFilled k s
validate_action-IsAllowed (InteractionAction.wait_for_selector s) = validate_selector-IsFilled s
validate_action-IsAllowed (InteractionAction.wait_for_text t s) = validate_text-IsContent t s
validate_action-IsAllowed (InteractionAction.check_selector s) = validate_selector-IsFilled s
validate_action-IsAllowed (InteractionAction.check_text t s) = validate_text-IsContent t s

validate_each-All :
    (actions : List InteractionAction) → (validate_each actions ≡ ok tt) ↔ All IsAllowed actions
unfolding validate_each
validate_each-All [] = (λ h. tt, λ h. refl)
validate_each-All (a ∷ actions) =
    ground (arith, validate_action-IsAllowed a, validate_each-All actions)

-- A request to interact is accepted exactly if it has between 1 and 32 actions and a time limit
-- between 100 ms and 60 s, and each action keeps its limits: selectors and keys are not blank and
-- have at most 512 and 64 characters, values to fill in have at most 4096 characters, and contents
-- to look for are not empty and have at most 1024.
pub validate_request-IsAllowed :
    (actions : List InteractionAction) (timeout_ms : ℕ)
    → (validate_request actions timeout_ms ≡ ok tt) ↔ (
        (1 ≤ length actions)
        × (length actions ≤ 32)
        × (100 ≤ timeout_ms)
        × (timeout_ms ≤ 60000)
        × All IsAllowed actions)
unfolding validate_request
validate_request-IsAllowed [] timeout_ms = ground arith
validate_request-IsAllowed (a ∷ actions) timeout_ms =
    ground (arith, validate_each-All (a ∷ actions))
