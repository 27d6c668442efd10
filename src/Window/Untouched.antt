-- ===== src/Window/Untouched.antt =====
-- What a call for one window leaves alone (portus-window/src/window_core.rs).
use mathlib.Core.Option
use portus_window.Base.{
  ℕ, ◌≡◌, ◌≢◌, ◌∙◌, refl, ◌⊎◌, inl, inr, Bool, true, false, Option, Text, text_eq, text_eq-eq,
  Bool-cases, Option-cases, ok, err,
}
use portus_window.Base.OrdMap.{text_key, get, contains_key}
use portus_window.Base.OrdMap.Laws.{get-insert, get-modify, get-remove, get-map}
use portus_window.Protocol.Windows.{ActiveWindow, MediaState}
use portus_window.Window.Errors.{Checked}
use portus_window.Window.Registry.{
  WindowRegistry, insert_window, remove_window, update_window, change_window, insert_opened_web,
  insert_opened_web_video, insert_opened_media, web_window, web_video_window, media_window, opened,
}
use portus_window.Window.Registry.Focus.{record_focus, focus_window, set_focused}
use portus_window.Window.Registry.Pages.{
  record_observed_url, record_page_started, record_page_finished, record_page_failed, record_title,
  record_authenticated,
}
use portus_window.Window.Registry.Console.{
  record_console_entries, record_media_state, media_recorded, is_playable,
}
use portus_window.Window.Registry.Place.{
  record_workspace, tag, set_description, set_maximized, set_minimized, apply_resize, after_check,
  is_bad_index,
}
use portus_window.Window.Calls.{
  Call, step, opens_web, opens_web_video, opens_media, removes, focuses, observes, starts, finishes,
  fails, titles, authenticates, logs, plays, places, tags, describes, maximizes, minimizes, resizes,
}

-- The window of `i` is as it was, but for the focus, which it may have lost.
abbrev pub IsUntouched : Text → WindowRegistry → WindowRegistry → Type 0
IsUntouched i r s =
    (get i s.windows ≡ get i r.windows)
    ⊎ (get i s.windows ≡ Option.map (set_focused false) (get i r.windows))

module _ (i id : Text) (other : text_eq id i ≡ false) where
  insert_window-get :
      (r : WindowRegistry) (w : ActiveWindow)
      → w.window_session_id ≡ id
      → get i (insert_window r w).1.windows ≡ get i r.windows
  unfolding insert_window
  insert_window-get r w e = get-insert w.window_session_id i _ r.windows ∙ rw (e, other) refl

  update_window-get :
      (r : WindowRegistry) (f : ActiveWindow → ActiveWindow)
      → get i (update_window r id f).windows ≡ get i r.windows
  unfolding update_window
  update_window-get r f = get-modify id i _ r.windows ∙ rw other refl

  change_window-get :
      (r : WindowRegistry) (f : ActiveWindow → ActiveWindow)
      → get i (change_window r id f).1.windows ≡ get i r.windows
  unfolding change_window
  change_window-get r f = elim (Option-cases (get id r.windows)) [
    | inl e ↦ rw (e, change_window) refl
    | inr (rec, e) ↦ rw (e, change_window) (update_window-get r f)
  ]

  after_check-get :
      {A : Type 0} (c : Checked A) (r : WindowRegistry)
      (f : A → Checked ActiveWindow × WindowRegistry)
      → ((a : A) → get i (f a).1.windows ≡ get i r.windows)
      → get i (after_check c r f).1.windows ≡ get i r.windows
  unfolding after_check
  after_check-get (ok a) r f h = h a
  after_check-get (err e) r f h = refl

  record_focus-get : (r : WindowRegistry) (b : Bool) → IsUntouched i r (record_focus r id b)
  unfolding record_focus focus_window
  record_focus-get r b = elim (Bool-cases (contains_key id r.windows)) [
    | inl known ↦ elim (Bool-cases b) [
      | inl gain ↦
          rw (known, gain)
            (inr (get-modify id i _ _ ∙ rw other (get-map (set_focused false) i r.windows)))
      | inr loss ↦ rw (known, loss) (inl (update_window-get r _))
    ]
    | inr unknown ↦ rw unknown (inl refl)
  ]

  record_media_state-get :
      (r : WindowRegistry) (state : MediaState)
      → get i (record_media_state r id state).1.windows ≡ get i r.windows
  unfolding media_recorded record_media_state
  record_media_state-get r state = elim (Option-cases (get id r.windows)) [
    | inl e ↦ rw (e, record_media_state) refl
    | inr (rec, e) ↦ rw (e, record_media_state) (recorded rec.window (is_playable rec.window) refl)
  ]
    where
      recorded :
          (w : ActiveWindow) (b : Bool)
          → is_playable w ≡ b
          → get i (media_recorded r id state w).1.windows ≡ get i r.windows
      recorded w true e = rw (e, media_recorded) (change_window-get r _)
      recorded w false e = rw (e, media_recorded) refl

  record_workspace-get :
      (r : WindowRegistry) (index : Option ℕ) (all : Bool)
      → get i (record_workspace r id index all).1.windows ≡ get i r.windows
  unfolding record_workspace
  record_workspace-get r index all = elim (Bool-cases (is_bad_index index)) [
    | inl bad ↦ rw bad refl
    | inr good ↦ rw good (change_window-get r _)
  ]

  step-get : (r : WindowRegistry) (c : Call) → IsUntouched i r (step r id c)
  unfolding step insert_opened_web insert_opened_web_video insert_opened_media web_window
      web_video_window media_window opened remove_window record_observed_url record_page_started
      record_page_finished record_page_failed record_title record_authenticated
      record_console_entries tag set_description set_maximized set_minimized apply_resize
  step-get r (opens_web url d p) = inl (insert_window-get r _ refl)
  step-get r (opens_web_video url rendered d p) = inl (insert_window-get r _ refl)
  step-get r (opens_media source content title d p) = inl (insert_window-get r _ refl)
  step-get r removes = inl (get-remove id i r.windows ∙ rw other refl)
  step-get r (focuses b) = record_focus-get r b
  step-get r (observes url) = inl (update_window-get r _)
  step-get r (starts url) = inl (update_window-get r _)
  step-get r (finishes url) = inl (update_window-get r _)
  step-get r (fails url error) = inl (update_window-get r _)
  step-get r (titles title) = inl (update_window-get r _)
  step-get r (authenticates a) = inl (update_window-get r _)
  step-get r (logs es t) = inl (update_window-get r _)
  step-get r (plays state) = inl (record_media_state-get r state)
  step-get r (places index all) = inl (record_workspace-get r index all)
  step-get r (tags d) = inl (after_check-get _ r _ (λ o. change_window-get r _))
  step-get r (describes d) = inl (change_window-get r _)
  step-get r (maximizes b) = inl (change_window-get r _)
  step-get r (minimizes b) = inl (change_window-get r _)
  step-get r (resizes spec) = inl (after_check-get _ r _ (λ o. change_window-get r _))

-- A call for one window leaves every other as it is, except that a window may lose the focus.
pub step-IsUntouched :
    (r : WindowRegistry) (id i : Text) (c : Call) → id ≢ i → IsUntouched i r (step r id c)
step-IsUntouched r id i c ne = elim (Bool-cases (text_eq id i)) [
  | inl same ↦ absurd (ne (text_eq-eq id i same))
  | inr other ↦ step-get i id other r c
]
