-- ===== src/Interaction/Fitting.antt =====
-- That the result of an interaction fits its frame (portus-window/src/interaction.rs).
use portus_window.Base.{
  ℕ, zero, suc, ◌≤◌, ◌<◌, ◌≡◌, ◌∙◌, refl, ◌⊎◌, inl, inr, Bool, true, false, none, some, arith,
  Bool-cases, Option-cases, ltb, ltb→le,
}
use portus_window.Protocol.Frame.{Json}
use portus_window.Protocol.Windows.{ActiveWindow}
use portus_window.Protocol.Interaction.{InteractionResult}
use portus_window.Interaction.{
  result_budget, shorten_status, shrink_rest, shrink, serialized_len, shrink_loop, weight_status,
  weight_console, weight, bound_result_for_frame,
}

-- A round drops something.
shorten_status-weight :
    (w v : ActiveWindow)
    → shorten_status w ≡ some v
    → weight_status (some v) < weight_status (some w)
unfolding shorten_status weight_status
shorten_status-weight w v h = ground arith

shrink_rest-weight : (r s : InteractionResult) → shrink_rest r ≡ some s → weight s < weight r
unfolding shrink_rest weight
shrink_rest-weight r s h = ground arith

shrink-weight : (r s : InteractionResult) → shrink r ≡ some s → weight s < weight r
unfolding shrink weight weight_console
shrink-weight r s h = ground (arith, shrink_rest-weight r s)

-- What a round keeps.
pub record IsKept (r s : InteractionResult) : Type 0 where
  pub same_window : s.window_session_id ≡ r.window_session_id
  pub same_completed : s.completed ≡ r.completed
  pub same_actions : s.actions ≡ r.actions
  pub same_errors : s.post_errors ≡ r.post_errors

shrink-IsKept : (r s : InteractionResult) → shrink r ≡ some s → IsKept r s
unfolding shrink shrink_rest
shrink-IsKept r s h = ground arith

shrink-none :
    (r : InteractionResult) → shrink r ≡ none → (r.console ≡ none) × (r.post_status ≡ none)
unfolding shrink shrink_rest
shrink-none r h = ground arith

-- Which parts of a result are kept, whatever is dropped.
IsKept-trans : (r s t : InteractionResult) → IsKept r s → IsKept s t → IsKept r t
IsKept-trans r s t h k = record {
  same_window = k.same_window ∙ h.same_window;
  same_completed = k.same_completed ∙ h.same_completed;
  same_actions = k.same_actions ∙ h.same_actions;
  same_errors = k.same_errors ∙ h.same_errors;
}

IsKept-refl : (r : InteractionResult) → IsKept r r
IsKept-refl r = record {
  same_window = refl;
  same_completed = refl;
  same_actions = refl;
  same_errors = refl;
}

weight-flag :
    (s : InteractionResult) (b : Bool) → weight (record s { output_truncated = b }) ≡ weight s
unfolding weight
weight-flag s b = refl

IsKept-flag :
    (r s : InteractionResult) (b : Bool) → IsKept r s → IsKept r (record s { output_truncated = b })
IsKept-flag r s b h = record {
  same_window = h.same_window;
  same_completed = h.same_completed;
  same_actions = h.same_actions;
  same_errors = h.same_errors;
}

module _ (json : Json InteractionResult) where
  shrink_loop-cases :
      (n : ℕ) (r : InteractionResult)
      → ((serialized_len json r ≤ result_budget) × (shrink_loop json (suc n) r ≡ r))
        ⊎ (((shrink r ≡ none) × (shrink_loop json (suc n) r ≡ r))
            ⊎ ((s : InteractionResult) × (shrink r ≡ some s)
                × (shrink_loop json (suc n) r
                    ≡ shrink_loop json n (record s { output_truncated = true }))))
  unfolding shrink_loop
  shrink_loop-cases n r = elim (Bool-cases (ltb result_budget (serialized_len json r))) [
    | inr fits ↦ inl (ltb→le _ _ fits, rw (fits, shrink_loop) refl)
    | inl over ↦ elim (Option-cases (shrink r)) [
      | inl e ↦ inr (inl (e, rw (over, shrink_loop, e) refl))
      | inr (s, e) ↦ inr (inr (s, e, rw (over, shrink_loop, e) refl))
    ]
  ]

  -- The rest fits, or there is nothing left that could be dropped.
  abbrev IsFitted : InteractionResult → Type 0
  IsFitted s =
      (serialized_len json s ≤ result_budget) ⊎ ((s.console ≡ none) × (s.post_status ≡ none))

  shrink_loop-IsFitted :
      (n : ℕ) (r : InteractionResult)
      → weight r < n
      → IsFitted (shrink_loop json n r) × IsKept r (shrink_loop json n r)
  shrink_loop-IsFitted zero r few = absurd (omega arith)
  shrink_loop-IsFitted (suc n) r few = elim (shrink_loop-cases n r) [
    | inl (fits, e) ↦ rw e (inl fits, IsKept-refl r)
    | inr (inl (stuck, e)) ↦ rw e (inr (shrink-none r stuck), IsKept-refl r)
    | inr (inr (s, e, q)) ↦
        let t = record s { output_truncated = true } in
        let (fitted, kept) =
          shrink_loop-IsFitted n t (omega (arith, weight-flag s true, shrink-weight r s e)) in
        rw q (
          fitted,
          IsKept-trans r t (shrink_loop json n t) (IsKept-flag r s true (shrink-IsKept r s e)) kept,
        )
  ]

  -- The result that is sent keeps its window, its steps and its errors, and either its JSON form
  -- fits the budget of 63 KiB, or the console and the status have been dropped entirely.
  pub bound_result_for_frame-IsFitted :
      (r : InteractionResult)
      → let s = bound_result_for_frame json r in
        ((serialized_len json s ≤ result_budget) ⊎ ((s.console ≡ none) × (s.post_status ≡ none)))
        × IsKept r s
  unfolding bound_result_for_frame
  bound_result_for_frame-IsFitted r =
      let t = record r { output_truncated = false } in
      let (fitted, kept) =
        shrink_loop-IsFitted (suc (weight r)) t (omega (arith, weight-flag r false)) in
      (fitted, IsKept-trans r t _ (IsKept-flag r r false (IsKept-refl r)) kept)
