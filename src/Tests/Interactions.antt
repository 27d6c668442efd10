-- ===== src/Tests/Interactions.antt =====
-- The interactions with pages (portus-window/src/interaction.rs).
use portus_window.Base.{
  ◌↔◌, All, ℕ, ◌≤◌, ◌≡◌, ◌⊎◌, refl, true, false, if◌then◌else◌, none, some, List, [], ◌∷◌, ◌++◌,
  length, map, Text, text, Result, ok, err, ltb,
}
use portus_window.Protocol.Windows.{ConsoleEntry, ConsoleLevel}
use portus_window.Protocol.Frame.{Bytes, Json}
use portus_window.Protocol.Interaction.{
  InteractionAction, InteractionStepCode, InteractionStepResult, InteractionResult,
}
use portus_window.Interaction.{
  ScriptResult, all_ok, steps_from, step_result, execute, result_budget, serialized_len, shrink,
  shrink_loop, weight, weight_console, weight_status, bound_result_for_frame,
}
use portus_window.Interaction.Validate.{validate_request}
use portus_window.Interaction.Validate.Allowed.{IsAllowed, validate_request-IsAllowed}
use portus_window.Interaction.Steps.{execute-IsRun, AreSteps}
use portus_window.Interaction.Fitting.{IsKept, bound_result_for_frame-IsFitted}

-- A page that holds a field and no button.
abbrev page_answer : ℕ → InteractionAction → ScriptResult × ℕ
page_answer n (InteractionAction.fill selector value) =
    (record { ok = true; code = InteractionStepCode.ok; message = none }, 12)
page_answer n a = (
  record {
    ok = false;
    code = InteractionStepCode.selector_not_found;
    message = some (text "no match");
  },
  3,
)

abbrev three_actions : List InteractionAction
three_actions =
    InteractionAction.fill (text "#name") (text "Ada")
    ∷ InteractionAction.click (text "#send")
    ∷ InteractionAction.wait_for_selector (text ".done")
    ∷ []

execute-IsRun_example :
    let e = execute page_answer three_actions in
    (((e.completed ≡ true) × (all_ok e.actions ≡ true) × (length e.actions ≡ length three_actions))
      ⊎ ((e.completed ≡ false)
          × ((good : List InteractionStepResult) × (bad : InteractionStepResult) × (e.actions
                ≡ good ++ bad ∷ [])
              × (all_ok good ≡ true)
              × (bad.ok ≡ false)
              × (length e.actions ≤ length three_actions))))
    × AreSteps page_answer 0 three_actions e.actions
execute-IsRun_example = execute-IsRun page_answer three_actions

-- The third action is not tried.
execute_run : map (λ s. s.elapsed_ms) (execute page_answer three_actions).actions ≡ 12 ∷ 3 ∷ []
unfolding execute steps_from step_result
execute_run = refl

abbrev one_entry : ConsoleEntry
one_entry = record {
  level = ConsoleLevel.error;
  message = text "failed";
  source = none;
  line = none;
}

abbrev console_of : List ConsoleEntry → InteractionResult
console_of entries = record {
  window_session_id = text "w";
  completed = true;
  actions = [];
  post_status = none;
  console = some (record { window_session_id = text "w"; entries = entries; truncated = false });
  screenshot = none;
  post_errors = [];
  output_truncated = false;
}

-- A serializer that fails on more than one console entry.
abbrev write_result : InteractionResult → Result Text Bytes
write_result r = elim r.console [
  | none ↦ ok []
  | some c ↦ if ltb 1 (length c.entries) then err (text "too many") else ok (7 ∷ [])
]

abbrev results : Json InteractionResult
results = record { to_vec = write_result; from_slice = λ b. ok (console_of []) }

abbrev three_entries : InteractionResult
three_entries = console_of (one_entry ∷ one_entry ∷ one_entry ∷ [])

bound_result_for_frame-IsFitted_example :
    let s = bound_result_for_frame results three_entries in
    ((serialized_len results s ≤ result_budget) ⊎ ((s.console ≡ none) × (s.post_status ≡ none)))
    × IsKept three_entries s
bound_result_for_frame-IsFitted_example = bound_result_for_frame-IsFitted results three_entries

-- Two entries are dropped, and this is noted in both places.
bound_result_run : bound_result_for_frame results three_entries ≡ record (console_of []) {
  console =
      some (record { window_session_id = text "w"; entries = one_entry ∷ []; truncated = true });
  output_truncated = true;
}
unfolding bound_result_for_frame shrink_loop shrink serialized_len weight weight_console
    weight_status
bound_result_run = refl

validate_request-IsAllowed_example : (validate_request three_actions 4000 ≡ ok tt) ↔ (
    (1 ≤ length three_actions)
    × (length three_actions ≤ 32)
    × (100 ≤ 4000)
    × (4000 ≤ 60000)
    × All IsAllowed three_actions)
validate_request-IsAllowed_example = validate_request-IsAllowed three_actions 4000
