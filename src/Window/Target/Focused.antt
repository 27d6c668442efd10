-- ===== src/Window/Target/Focused.antt =====
-- The window that gains the focus is the one that `focused` names (portus-window/src/window_core.rs).
use mathlib.Core.Option
use portus_window.Base.{
  ℕ, ◌+◌, ◌<◌, ◌^◌, ◌≡◌, ◌∙◌, refl, ap, inl, inr, true, false, Option, none, some, is_some, arith,
  Text, text, text_eq, text_eq_refl, Bool-cases, Option-cases, if◌then◌else◌, ok, Memᴰ, All-Mem,
}
use portus_window.Base.OrdMap.{text_key, get, contains_key}
use portus_window.Base.OrdMap.Laws.{get-modify, get-map}
use portus_window.Base.OrdMap.Entries.{All-get}
use portus_window.Window.Registry.{WindowRecord, WindowRegistry}
use portus_window.Window.Registry.Focus.{record_focus, focus_window, next_focus, set_focused}
use portus_window.Window.Target.{resolve_target}
use portus_window.Window.Target.Resolved.{resolve_target-focused}
use portus_window.Window.Invariant.{Inv}
use portus_window.Window.Invariant.Focus.{record_focus-Inv}

-- The record of a window that gains the focus.
gained : ℕ → WindowRecord → WindowRecord
gained n rec = record { window = record (rec.window) { is_focused = true }; focus_order = n }

focus_window-get :
    (r : WindowRegistry) (id i : Text)
    → get i (focus_window r id).windows ≡ (
        if text_eq id i
        then Option.map
            (gained (next_focus r.focus_counter))
            (Option.map (set_focused false) (get i r.windows))
        else Option.map (set_focused false) (get i r.windows))
unfolding focus_window gained
focus_window-get r id i = get-modify id i _ _ ∙ rw (get-map (set_focused false) i r.windows) refl

is_some-map : {A : Type 0} (f : A → A) (o : Option A) → is_some (Option.map f o) ≡ is_some o
is_some-map f none = refl
is_some-map f (some a) = refl

contains_key-focus :
    (r : WindowRegistry) (id i : Text)
    → contains_key i (focus_window r id).windows ≡ contains_key i r.windows
unfolding contains_key
contains_key-focus r id i = rw (focus_window-get r id i) elim (Bool-cases (text_eq id i)) [
  | inl same ↦ rw same (is_some-map _ _ ∙ is_some-map _ (get i r.windows))
  | inr other ↦ rw other (is_some-map _ (get i r.windows))
]

entry_of :
    (r : WindowRegistry) (id : Text)
    → contains_key id r.windows ≡ true
    → (rec : WindowRecord) × Memᴰ (id, rec) (focus_window r id).windows
      × (rec.window.is_focused ≡ true)
unfolding contains_key gained
entry_of r id known = elim (Option-cases (get id r.windows)) [
  | inl e ↦ absurd (ground (arith, ap is_some e))
  | inr (rec, e) ↦
      let new = gained (next_focus r.focus_counter) (set_focused false rec) in
      let at_id = focus_window-get r id id ∙ rw (text_eq_refl id, e) refl in
      let s = (focus_window r id).windows in
      (new, All-get (λ d. Memᴰ d s) id s (All-Mem s) at_id, refl)
]

-- After a window that is open gains the focus, in a well-formed registry whose counter of focuses is
-- not the last number of 64 bits, `focused` names it: if no window has `focused` as its identity,
-- and the word is its own lowercase form.
pub record_focus-focused :
    (to_lowercase : Text → Text) (r : WindowRegistry) (id : Text)
    → to_lowercase (text "focused") ≡ text "focused"
    → Inv r
    → r.focus_counter + 1 < 2 ^ 64
    → contains_key id r.windows ≡ true
    → contains_key (text "focused") r.windows ≡ false
    → resolve_target to_lowercase (record_focus r id true) (text "focused") ≡ ok id
unfolding record_focus
record_focus-focused to_lowercase r id lower v room known closed =
    let (rec, m, h) = entry_of r id known in
    let v' = (rw known at (record_focus-Inv r id v room true)) in
    rw known (
      resolve_target-focused to_lowercase (focus_window r id) (id, rec) lower v'
        (contains_key-focus r id (text "focused") ∙ closed) m h)
