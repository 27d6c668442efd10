-- ===== src/Window/Invariant/Counter.antt =====
-- How far a call moves the counter of focuses.
use portus_window.Base.{ℕ, ◌+◌, ◌≤◌, ◌≡◌, refl, Bool, Option, some, arith, Text, ok, err}
use portus_window.Base.OrdMap.{text_key}
use portus_window.Window.Registry.{WindowRegistry, remove_window}
use portus_window.Protocol.Windows.{ActiveWindow, MediaState}
use portus_window.Window.Calls.{
  Call, step, focuses, plays, places, tags, describes, maximizes, minimizes, resizes,
}
use portus_window.Window.Registry.Console.{record_media_state}
use portus_window.Window.Validate.{ResizeSpec, validate_description, validate_resize}
use portus_window.Window.Registry.{
  update_window, insert_opened_web, insert_opened_web_video, insert_opened_media,
}
use portus_window.Window.Registry.Pages.{
  record_observed_url, record_page_started, record_page_finished, record_page_failed, record_title,
  record_authenticated,
}
use portus_window.Window.Registry.Console.{record_console_entries}
use portus_window.Window.Registry.Place.{tag, set_maximized, set_minimized, apply_resize}
use portus_window.Window.Registry.Focus.{record_focus, next_focus}
use portus_window.Window.Errors.{Checked}
use portus_window.Window.Registry.{change_window}
use portus_window.Window.Registry.Place.{set_description, after_check, record_workspace, place}

-- The counter behind the changes and the walks of the registry.
counter-change_window :
    (r : WindowRegistry) (id : Text) (f : ActiveWindow → ActiveWindow)
    → (change_window r id f).1.focus_counter ≡ r.focus_counter
unfolding change_window
counter-change_window r id f = ground arith

counter-after_check :
    {A : Type 0} (c : Checked A) (r : WindowRegistry)
    (f : A → Checked ActiveWindow × WindowRegistry)
    → ((a : A) → (f a).1.focus_counter ≡ r.focus_counter)
    → (after_check c r f).1.focus_counter ≡ r.focus_counter
unfolding after_check
counter-after_check (ok a) r f h = h a
counter-after_check (err e) r f h = refl

next_focus-le : (n : ℕ) → next_focus n ≤ n + 1
unfolding next_focus
next_focus-le n = omega arith

counter-record_focus :
    (r : WindowRegistry) (id : Text) (b : Bool)
    → (record_focus r id b).focus_counter ≤ r.focus_counter + 1
unfolding record_focus update_window
counter-record_focus r id b = ground (arith, next_focus-le r.focus_counter)

counter-record_media_state :
    (r : WindowRegistry) (id : Text) (state : MediaState)
    → (record_media_state r id state).1.focus_counter ≡ r.focus_counter
unfolding record_media_state change_window
counter-record_media_state r id state = ground arith

counter-record_workspace :
    (r : WindowRegistry) (id : Text) (index : Option ℕ) (all : Bool)
    → (record_workspace r id index all).1.focus_counter ≡ r.focus_counter
unfolding record_workspace
counter-record_workspace r id index all =
    ground (arith, counter-change_window r id (place index all))

counter-tag : (r : WindowRegistry) (id d : Text) → (tag r id d).1.focus_counter ≡ r.focus_counter
unfolding tag set_description
counter-tag r id d =
    counter-after_check (validate_description (some d)) r _ (λ o. counter-change_window r id _)

counter-apply_resize :
    (r : WindowRegistry) (id : Text) (spec : ResizeSpec)
    → (apply_resize r id spec).1.focus_counter ≡ r.focus_counter
unfolding apply_resize
counter-apply_resize r id spec =
    counter-after_check (validate_resize spec) r _ (λ _. counter-change_window r id _)

-- A call counts at most one focus.
pub focus_counter-step :
    (r : WindowRegistry) (id : Text) (c : Call) → (step r id c).focus_counter ≤ r.focus_counter + 1
unfolding step
focus_counter-step r id (focuses b) = counter-record_focus r id b
focus_counter-step r id (plays state) = omega (arith, counter-record_media_state r id state)
focus_counter-step r id (places index all) = omega (arith, counter-record_workspace r id index all)
focus_counter-step r id (tags d) = omega (arith, counter-tag r id d)
focus_counter-step r id (resizes spec) = omega (arith, counter-apply_resize r id spec)
focus_counter-step r id (describes d) =
    unfold set_description in
    omega (arith, counter-change_window r id (λ w. record w { description = d }))
focus_counter-step r id (maximizes b) =
    unfold set_maximized in
    omega (arith, counter-change_window r id (λ w. record w { is_maximized = b }))
focus_counter-step r id (minimizes b) =
    unfold set_minimized in
    omega (arith, counter-change_window r id (λ w. record w { is_minimized = b }))
focus_counter-step r id _ =
    unfold insert_opened_web insert_opened_web_video insert_opened_media remove_window
      record_observed_url record_page_started record_page_finished record_page_failed record_title
      record_authenticated record_console_entries update_window in
    omega arith
