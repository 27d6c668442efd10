-- ===== src/Interaction/Steps.antt =====
-- How a sequence of actions is executed (portus-window/src/interaction.rs).
use portus_window.Base.{
  ℕ, suc, ◌+◌, ◌≤◌, ◌≡◌, refl, ap, ◌⊎◌, inl, inr, Bool, true, false, ◌&&◌, ◌==◌, List, [], ◌∷◌,
  ◌++◌, some, arith, length, Bool-cases,
}
use portus_window.Protocol.Interaction.{
  InteractionAction, InteractionActionKind, InteractionStepResult,
}
use portus_window.Interaction.{
  ScriptResult, action_kind, action_selector, step_result, all_ok, steps_from, execute,
}

-- Every action has been done; or the last step that was tried is the first that failed.
abbrev pub IsRun : List InteractionAction → List InteractionStepResult → Type 0
IsRun actions steps =
    ((all_ok steps ≡ true) × (length steps ≡ length actions))
    ⊎ ((good : List InteractionStepResult) × (bad : InteractionStepResult) × (steps
          ≡ good ++ bad ∷ [])
        × (all_ok good ≡ true)
        × (bad.ok ≡ false)
        × (length steps ≤ length actions))

-- A step names what its action does, and the selector that the action carries.
abbrev pub IsOf : InteractionAction → InteractionStepResult → Type 0
IsOf (InteractionAction.click selector) s =
    (s.kind ≡ InteractionActionKind.click) × (s.selector ≡ some selector)
IsOf (InteractionAction.fill selector value) s =
    (s.kind ≡ InteractionActionKind.fill) × (s.selector ≡ some selector)
IsOf (InteractionAction.press_key key selector) s =
    (s.kind ≡ InteractionActionKind.press_key) × (s.selector ≡ selector)
IsOf (InteractionAction.wait_for_selector selector) s =
    (s.kind ≡ InteractionActionKind.wait_for_selector) × (s.selector ≡ some selector)
IsOf (InteractionAction.wait_for_text content selector) s =
    (s.kind ≡ InteractionActionKind.wait_for_text) × (s.selector ≡ selector)
IsOf (InteractionAction.check_selector selector) s =
    (s.kind ≡ InteractionActionKind.check_selector) × (s.selector ≡ some selector)
IsOf (InteractionAction.check_text content selector) s =
    (s.kind ≡ InteractionActionKind.check_text) × (s.selector ≡ selector)

-- A step reports what the page made of it, and how long that took.
abbrev pub IsReported : ScriptResult × ℕ → InteractionStepResult → Type 0
IsReported (result, elapsed) s =
    (s.ok ≡ result.ok)
    × (s.code ≡ result.code)
    × (s.message ≡ result.message)
    × (s.elapsed_ms ≡ elapsed)

-- The steps from one index on are those of the first of the actions, in their order.
abbrev pub AreSteps :
    (ℕ → InteractionAction → ScriptResult × ℕ)
    → ℕ
    → List InteractionAction
    → List InteractionStepResult
    → Type 0
AreSteps perform i actions [] = Unit
AreSteps perform i [] (s ∷ steps) = ⊥
AreSteps perform i (a ∷ actions) (s ∷ steps) =
    (s.index ≡ i) × IsOf a s × IsReported (perform i a) s × AreSteps perform (i + 1) actions steps

step_result-IsOf :
    (i : ℕ) (a : InteractionAction) (r : ScriptResult) (elapsed : ℕ)
    → IsOf a (step_result i a r elapsed)
unfolding step_result action_kind action_selector
step_result-IsOf i (InteractionAction.click selector) r elapsed = (refl, refl)
step_result-IsOf i (InteractionAction.fill selector value) r elapsed = (refl, refl)
step_result-IsOf i (InteractionAction.press_key key selector) r elapsed = (refl, refl)
step_result-IsOf i (InteractionAction.wait_for_selector selector) r elapsed = (refl, refl)
step_result-IsOf i (InteractionAction.wait_for_text content selector) r elapsed = (refl, refl)
step_result-IsOf i (InteractionAction.check_selector selector) r elapsed = (refl, refl)
step_result-IsOf i (InteractionAction.check_text content selector) r elapsed = (refl, refl)

one_more :
    (a : InteractionAction) (actions : List InteractionAction) (step : InteractionStepResult)
    (steps : List InteractionStepResult)
    → step.ok ≡ true
    → IsRun actions steps
    → IsRun (a ∷ actions) (step ∷ steps)
one_more a actions step steps good (inl (fine, size)) = inl (rw good fine, ap suc size)
one_more a actions step steps good (inr (before, bad, e, g, b, le)) =
    inr (step ∷ before, bad, ap (◌∷◌ step) e, rw good g, b, omega arith)

all_ok-bad :
    (good : List InteractionStepResult) (bad : InteractionStepResult)
    → bad.ok ≡ false
    → all_ok (good ++ bad ∷ []) ≡ false
all_ok-bad [] bad b = ground arith
all_ok-bad (s ∷ good) bad b = ground (arith, all_ok-bad good bad b)

module _ (perform : ℕ → InteractionAction → ScriptResult × ℕ) where
  steps_from-cases :
      (i : ℕ) (a : InteractionAction) (actions : List InteractionAction)
      → (step : InteractionStepResult) × ((step.index ≡ i)
          × IsOf a step
          × IsReported (perform i a) step)
        × (((step.ok ≡ true)
              × (steps_from perform i (a ∷ actions) ≡ step ∷ steps_from perform (i + 1) actions))
            ⊎ ((step.ok ≡ false) × (steps_from perform i (a ∷ actions) ≡ step ∷ [])))
  unfolding steps_from step_result
  steps_from-cases i a actions =
      let step = step_result i a (perform i a).0 (perform i a).1 in
      (
        step,
        (refl, step_result-IsOf i a (perform i a).0 (perform i a).1, (refl, refl, refl, refl)),
        elim (Bool-cases (perform i a).0.ok) [
          | inl good ↦ inl (good, rw good refl)
          | inr bad ↦ inr (bad, rw bad refl)
        ],
      )

  steps_from-IsRun :
      (i : ℕ) (actions : List InteractionAction)
      → IsRun actions (steps_from perform i actions)
        × AreSteps perform i actions (steps_from perform i actions)
  steps_from-IsRun i [] = unfold steps_from in (inl (refl, refl), tt)
  steps_from-IsRun i (a ∷ actions) =
      let (step, (index, of, reported), shape) = steps_from-cases i a actions in
      let (run, order) = steps_from-IsRun (i + 1) actions in
      elim shape [
        | inl (good, e) ↦ rw e (one_more a actions step _ good run, (index, of, reported, order))
        | inr (bad, e) ↦
            rw e (inr ([], step, refl, refl, bad, omega arith), (index, of, reported, tt))
      ]

  -- An interaction is completed exactly if every action has been done; otherwise its last step is
  -- the first that failed, and no action behind it has been tried. The steps are those of the first
  -- actions, in their order: each has the action's index, kind and selector, and reports what the
  -- page made of the action at that index and the time that this took.
  pub execute-IsRun :
      (actions : List InteractionAction)
      → let e = execute perform actions in
        (((e.completed ≡ true) × (all_ok e.actions ≡ true) × (length e.actions ≡ length actions))
          ⊎ ((e.completed ≡ false)
              × ((good : List InteractionStepResult) × (bad : InteractionStepResult) × (e.actions
                    ≡ good ++ bad ∷ [])
                  × (all_ok good ≡ true)
                  × (bad.ok ≡ false)
                  × (length e.actions ≤ length actions))))
        × AreSteps perform 0 actions e.actions
  unfolding execute
  execute-IsRun actions =
      let (run, order) = steps_from-IsRun 0 actions in
      (
        elim run [
          | inl (good, size) ↦ inl (rw (good, size) (same_length (length actions)), good, size)
          | inr (good, bad, e, g, b, le) ↦
              inr (rw (e, all_ok-bad good bad b) (failed _), (good, bad, e, g, b, le))
        ],
        order,
      )
    where
      same_length : (n : ℕ) → (n == n) && true ≡ true
      same_length n = ground arith

      failed : (b : Bool) → b && false ≡ false
      failed b = ground arith
