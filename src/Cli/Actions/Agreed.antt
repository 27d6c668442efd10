-- ===== src/Cli/Actions/Agreed.antt =====
-- The host accepts the actions that the command line accepts (portus-window-cli/src/validation.rs).
use mathlib.Core.Path.{subst}
use portus_window.Base.{
  ℕ, suc, ◌≤◌, ◌≡◌, ◌↔◌, refl, ap, Option, none, some, List, [], ◌∷◌, arith, Text, Result, ok, err,
  bind-ok, ok_injective, length, Result-cases, inl, inr,
}
use portus_window.Protocol.Interaction.{InteractionAction}
use portus_window.Interaction.Validate.{
  validate_action, validate_each, validate_request, validate_selector, validate_some,
  validate_value, validate_key, validate_text,
}
use portus_window.Cli.Actions.{
  check_selector, check_given, check_fill, check_key, check_content,
  validate_interaction_action_cli, parse_action, parse_actions, interaction_actions_for,
}

check_selector-validate_selector : (s : Text) → check_selector s ≡ validate_selector s
unfolding check_selector validate_selector
check_selector-validate_selector s = refl

check_given-validate_some : (s : Option Text) → check_given s ≡ validate_some s
unfolding check_given validate_some
check_given-validate_some none = refl
check_given-validate_some (some s) = check_selector-validate_selector s

check_key-validate_key :
    (k : Text) (s : Option Text) → (check_key k s ≡ ok tt) ↔ (validate_key k s ≡ ok tt)
unfolding check_key validate_key
check_key-validate_key k s = ground (arith, check_given-validate_some s)

check_content-validate_text :
    (t : Text) (s : Option Text) → (check_content t s ≡ ok tt) ↔ (validate_text t s ≡ ok tt)
unfolding check_content validate_text
check_content-validate_text t s = ground (arith, check_given-validate_some s)

check_fill-validate_value :
    (s v : Text) → (check_fill s v ≡ ok tt) ↔ (validate_action (InteractionAction.fill s v) ≡ ok tt)
unfolding check_fill validate_action validate_value
check_fill-validate_value s v = ground (arith, check_selector-validate_selector s)

-- The command line and the host accept the same actions.
pub validate_interaction_action_cli-validate_action :
    (a : InteractionAction)
    → (validate_interaction_action_cli a ≡ ok tt) ↔ (validate_action a ≡ ok tt)
unfolding validate_interaction_action_cli validate_action
validate_interaction_action_cli-validate_action (InteractionAction.click s) =
    ground (arith, check_selector-validate_selector s)
validate_interaction_action_cli-validate_action (InteractionAction.fill s v) =
    check_fill-validate_value s v
validate_interaction_action_cli-validate_action (InteractionAction.press_key k s) =
    check_key-validate_key k s
validate_interaction_action_cli-validate_action (InteractionAction.wait_for_selector s) =
    ground (arith, check_selector-validate_selector s)
validate_interaction_action_cli-validate_action (InteractionAction.wait_for_text t s) =
    check_content-validate_text t s
validate_interaction_action_cli-validate_action (InteractionAction.check_selector s) =
    ground (arith, check_selector-validate_selector s)
validate_interaction_action_cli-validate_action (InteractionAction.check_text t s) =
    check_content-validate_text t s

module _ (from_str : Text → Result Text InteractionAction) where
  parse_action-ok :
      (i : ℕ) (raw : Text) (a : InteractionAction)
      → parse_action from_str i raw ≡ ok a
      → validate_action a ≡ ok tt
  unfolding parse_action
  parse_action-ok i raw a h = elim (Result-cases (from_str raw)) [
    | inr (e, failed) ↦ absurd (refused (rw (failed, parse_action) at h))
    | inl (b, read) ↦
        let (_, checked, q) =
          bind-ok {A = Unit {0}} (validate_interaction_action_cli b) (λ t. ok b) a
            (rw (read, parse_action) at h) in
        subst (λ x. validate_action x ≡ ok tt) (ok_injective q)
          ((validate_interaction_action_cli-validate_action b).0 checked)
  ]
    where
      refused : {E : Type 0} {e : E} → ◌≡◌ {A = Result E InteractionAction} (err e) (ok a) → ⊥
      refused q = cc

  validate_each-cons :
      (a : InteractionAction) (rest : List InteractionAction)
      → validate_action a ≡ ok tt
      → validate_each rest ≡ ok tt
      → validate_each (a ∷ rest) ≡ ok tt
  unfolding validate_each
  validate_each-cons a rest h q = rw (h, validate_each) q

  abbrev IsRead : List Text → List InteractionAction → Type 0
  IsRead raws actions = (validate_each actions ≡ ok tt) × (length actions ≡ length raws)

  parse_actions-ok :
      (i : ℕ) (raws : List Text) (actions : List InteractionAction)
      → parse_actions from_str i raws ≡ ok actions
      → IsRead raws actions
  unfolding parse_actions
  parse_actions-ok i [] actions h =
      subst (IsRead []) (ok_injective h) (unfold validate_each in (refl, refl))
  parse_actions-ok i (raw ∷ raws) actions h =
      let (a, e, h1) = bind-ok (parse_action from_str i raw) _ _ h in
      let (rest, d, h2) = bind-ok (parse_actions from_str (suc i) raws) _ _ h1 in
      let (q, n) = parse_actions-ok (suc i) raws rest d in
      subst (IsRead (raw ∷ raws)) (ok_injective h2)
        (validate_each-cons a rest (parse_action-ok i raw a e) q, ap suc n)

  pub interaction_actions_for-ok :
      (raws : List Text) (actions : List InteractionAction) (timeout_ms : ℕ)
      → interaction_actions_for from_str raws ≡ ok actions
      → 100 ≤ timeout_ms
      → timeout_ms ≤ 60000
      → validate_request actions timeout_ms ≡ ok tt
  unfolding interaction_actions_for validate_request
  interaction_actions_for-ok raws actions timeout_ms h low high =
      ground (arith, parse_actions-ok 0 raws actions)
