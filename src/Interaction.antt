-- ===== src/Interaction.antt =====
-- Interactions with pages: their results and what of these fits a frame
-- (portus-window/src/interaction.rs). What the web view makes of one action, and how long that takes,
-- is a parameter, as is the serializer of serde_json.
pub mod Validate
pub mod Steps
pub mod Fitting
use portus_window.Base.{
  ℕ, zero, suc, ◌+◌, ◌-◌, Bool, true, false, not, ◌&&◌, ◌||◌, Option, none, some, List, [], ◌∷◌,
  if◌then◌else◌, ◌==◌, ltb, leb, length, drop, take, Text, Result, ok, err,
}
use portus_window.Protocol.Limits.{max_frame_bytes, max_load_error_chars}
use portus_window.Protocol.Windows.{ActiveWindow}
use portus_window.Protocol.Frame.{Json}
use portus_window.Protocol.Interaction.{
  InteractionAction, InteractionActionKind, InteractionStepCode, InteractionStepResult,
  ConsoleResult, InteractionResult,
}

pub record ScriptResult : Type 0 where
  pub ok : Bool
  pub code : InteractionStepCode
  pub message : Option Text

pub record InteractionExecution : Type 0 where
  pub completed : Bool
  pub actions : List InteractionStepResult

unfoldable pub action_kind : InteractionAction → InteractionActionKind
action_kind (InteractionAction.click selector) = InteractionActionKind.click
action_kind (InteractionAction.fill selector value) = InteractionActionKind.fill
action_kind (InteractionAction.press_key key selector) = InteractionActionKind.press_key
action_kind (InteractionAction.wait_for_selector selector) = InteractionActionKind.wait_for_selector
action_kind (InteractionAction.wait_for_text content selector) = InteractionActionKind.wait_for_text
action_kind (InteractionAction.check_selector selector) = InteractionActionKind.check_selector
action_kind (InteractionAction.check_text content selector) = InteractionActionKind.check_text

unfoldable pub action_selector : InteractionAction → Option Text
action_selector (InteractionAction.click selector) = some selector
action_selector (InteractionAction.fill selector value) = some selector
action_selector (InteractionAction.press_key key selector) = selector
action_selector (InteractionAction.wait_for_selector selector) = some selector
action_selector (InteractionAction.wait_for_text content selector) = selector
action_selector (InteractionAction.check_selector selector) = some selector
action_selector (InteractionAction.check_text content selector) = selector

unfoldable pub step_result : ℕ → InteractionAction → ScriptResult → ℕ → InteractionStepResult
unfolding action_kind action_selector
step_result index action result elapsed = record {
  index = index;
  kind = action_kind action;
  selector = action_selector action;
  ok = result.ok;
  code = result.code;
  message = result.message;
  elapsed_ms = elapsed;
}

abbrev pub all_ok : List InteractionStepResult → Bool
all_ok [] = true
all_ok (s ∷ steps) = s.ok && all_ok steps

-- `perform` is `execute_action` at a step, with the milliseconds that it takes.
module _ (perform : ℕ → InteractionAction → ScriptResult × ℕ) where
  -- The loop over the actions from one index on. It ends with the first step that fails.
  unfoldable pub steps_from : ℕ → List InteractionAction → List InteractionStepResult
  unfolding step_result
  steps_from index [] = []
  steps_from index (action ∷ actions) =
      let (result, elapsed) = perform index action in
      let step = step_result index action result elapsed in
      let rest = steps_from (index + 1) actions in if not step.ok then step ∷ [] else step ∷ rest

  unfoldable pub execute : List InteractionAction → InteractionExecution
  unfolding steps_from
  execute actions =
      let results = steps_from 0 actions in
      record { completed = (length results == length actions) && all_ok results; actions = results }

abbrev pub result_budget : ℕ
result_budget = max_frame_bytes - 1024

-- The oldest of a window's console entries, or of its URLs but the last.
unfoldable pub shorten_status : ActiveWindow → Option ActiveWindow
shorten_status w = elim w.console_errors [
  | e ∷ es ↦ some (record w { console_errors = es; console_errors_truncated = true })
  | [] ↦ elim w.url_history [
    | none ↦ none
    | some h ↦
        if ltb 1 (length h)
        then some (record w { url_history = some (drop 1 h); url_history_truncated = some true })
        else none
  ]
]

-- Once the console has no entries: the status is shortened, or the console goes, or the status.
unfoldable pub shrink_rest : InteractionResult → Option InteractionResult
unfolding shorten_status
shrink_rest r = elim r.post_status [
  | none ↦ elim r.console [ none ↦ none | some c ↦ some (record r { console = none }) ]
  | some w ↦ elim (shorten_status w) [
    | some v ↦ some (record r { post_status = some v })
    | none ↦ elim r.console [
      | none ↦ some (record r { post_status = none })
      | some c ↦ some (record r { console = none })
    ]
  ]
]

-- One round of the loop, or `none` if there is nothing to drop.
unfoldable pub shrink : InteractionResult → Option InteractionResult
unfolding shrink_rest
shrink r = elim r.console [
  | none ↦ shrink_rest r
  | some c ↦ elim c.entries [
    | [] ↦ shrink_rest r
    | e ∷ es ↦ some (record r { console = some (record c { entries = es; truncated = true }) })
  ]
]

module _ (json : Json InteractionResult) where
  unfoldable pub serialized_len : InteractionResult → ℕ
  serialized_len r = elim (json.to_vec r) [ err e ↦ max_frame_bytes | ok bytes ↦ length bytes ]

  -- The loop, with fuel.
  unfoldable pub shrink_loop : ℕ → InteractionResult → InteractionResult
  unfolding serialized_len shrink
  shrink_loop zero r = r
  shrink_loop (suc n) r =
      if ltb result_budget (serialized_len r)
      then elim (shrink r) [
        | none ↦ r
        | some s ↦ shrink_loop n (record s { output_truncated = true })
      ]
      else r

-- What a round can still drop.
unfoldable pub weight_status : Option ActiveWindow → ℕ
weight_status none = 0
weight_status (some w) =
    suc (length w.console_errors + elim w.url_history [ none ↦ 0 | some h ↦ length h ])

unfoldable pub weight_console : Option ConsoleResult → ℕ
weight_console none = 0
weight_console (some c) = suc (length c.entries)

unfoldable pub weight : InteractionResult → ℕ
unfolding weight_status weight_console
weight r = weight_console r.console + weight_status r.post_status

-- The fuel is one more than what can be dropped.
unfoldable pub bound_result_for_frame :
    Json InteractionResult → InteractionResult → InteractionResult
unfolding shrink_loop weight
bound_result_for_frame json r =
    shrink_loop json (suc (weight r)) (record r { output_truncated = false })
