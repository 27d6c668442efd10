-- ===== src/Window/Invariant/Urls/Reach.antt =====
-- Every sequence of calls keeps the URLs of the windows within their limits.
use portus_window.Base.{
  ℕ, ◌≤◌, refl, Bool, true, false, Option, some, List, [], ◌∷◌, Text, len, All, map-All, Bool-cases,
  Option-cases, inl, inr, ok, err, if◌then◌else◌,
}
use portus_window.Base.OrdMap.{text_key, get, contains_key}
use portus_window.Base.OrdMap.Entries.{modify-All, insert-All, remove-All}
use portus_window.Protocol.Limits.{max_url_chars}
use portus_window.Protocol.Windows.{ActiveWindow, MediaState}
use portus_window.Window.Errors.{Checked}
use portus_window.Window.Validate.{validate_description, validate_resize}
use portus_window.Window.Registry.{
  WindowRegistry, empty, insert_window, remove_window, update_window, change_window,
  insert_opened_web, insert_opened_web_video, insert_opened_media,
}
use portus_window.Window.Registry.Focus.{set_focused, focus_window, record_focus}
use portus_window.Window.Registry.Pages.{
  record_observed_url, record_page_started, record_page_finished, record_page_failed, record_title,
  record_authenticated,
}
use portus_window.Window.Registry.Console.{
  record_console_entries, record_media_state, media_recorded, is_playable,
}
use portus_window.Window.Registry.Place.{
  tag, set_description, set_maximized, set_minimized, apply_resize, after_check, is_bad_index,
  record_workspace,
}
use portus_window.Window.Calls.{
  Call, step, run, opens_web, opens_web_video, opens_media, removes, focuses, observes, starts,
  finishes, fails, titles, authenticates, logs, plays, places, tags, describes, maximizes,
  minimizes, resizes,
}
use portus_window.Window.Invariant.{HasShortUrls}
use portus_window.Window.Invariant.Urls.{
  IsHarmless, same_urls, observed_url-IsHarmless, page_started-IsHarmless, page_failed-IsHarmless,
  page_finished-IsHarmless, titled-IsHarmless, authenticated_as-IsHarmless,
  console_extended-IsHarmless, resized-IsHarmless, place-IsHarmless, web_window-HasShortUrls,
  web_video_window-HasShortUrls, media_window-HasShortUrls,
}

-- An opened URL keeps the limit of `validate_url`. That function tests the URL as it is given, and
-- the URL that is opened is the normalized one (portus-window/src/tauri_window/open.rs:81), so this
-- is a premise: it holds where the normal form is no longer than what was tested.
abbrev pub IsAdmissible : Text × Call → Type 0
IsAdmissible (id, opens_web url _ _) = len url ≤ max_url_chars
IsAdmissible (id, opens_web_video url _ _ _) = len url ≤ max_url_chars
IsAdmissible (id, _) = Unit

abbrev AreShort : WindowRegistry → Type 0
AreShort r = All (λ e. HasShortUrls e.1.window) r.windows

module _ (r : WindowRegistry) (id : Text) where
  update_window-AreShort :
      (f : ActiveWindow → ActiveWindow)
      → IsHarmless f
      → AreShort r
      → AreShort (update_window r id f)
  unfolding update_window
  update_window-AreShort f harmless h =
      modify-All (λ e. HasShortUrls e.1.window) id _ r.windows (λ rec. harmless rec.window) h

  change_window-AreShort :
      (f : ActiveWindow → ActiveWindow)
      → IsHarmless f
      → AreShort r
      → AreShort (change_window r id f).1
  unfolding change_window
  change_window-AreShort f harmless h = elim (Option-cases (get id r.windows)) [
    | inl e ↦ rw (e, change_window) h
    | inr (rec, e) ↦ rw (e, change_window) (update_window-AreShort f harmless h)
  ]

  record_focus-AreShort : (focused : Bool) → AreShort r → AreShort (record_focus r id focused)
  unfolding record_focus
  record_focus-AreShort focused h = elim (Bool-cases (contains_key id r.windows)) [
    | inr e ↦ rw e h
    | inl e ↦ rw e (found focused)
  ]
    where
      found :
          (b : Bool)
          → AreShort (
              if b
              then focus_window r id
              else update_window r id (λ w. record w { is_focused = false }))
      found true =
          unfold focus_window in
          modify-All (λ e. HasShortUrls e.1.window) id _ _ (λ rec. same_urls _ rec.window refl refl)
            (map-All (λ e. (e.0, set_focused false e.1)) (λ e. HasShortUrls e.1.window)
              (λ e. HasShortUrls e.1.window) (λ e. same_urls _ e.1.window refl refl) r.windows h)
      found false = update_window-AreShort _ (λ w. same_urls _ w refl refl) h

  record_media_state-AreShort :
      (state : MediaState) → AreShort r → AreShort (record_media_state r id state).1
  unfolding record_media_state media_recorded
  record_media_state-AreShort state h = elim (Option-cases (get id r.windows)) [
    | inl e ↦ rw (e, record_media_state) h
    | inr (rec, e) ↦ elim (Bool-cases (is_playable rec.window)) [
      | inl playing ↦
          rw (e, record_media_state, playing)
            (change_window-AreShort _ (λ w. same_urls _ w refl refl) h)
      | inr silent ↦ rw (e, record_media_state, silent) h
    ]
  ]

  record_workspace-AreShort :
      (index : Option ℕ) (all : Bool) → AreShort r → AreShort (record_workspace r id index all).1
  unfolding record_workspace
  record_workspace-AreShort index all h = elim (Bool-cases (is_bad_index index)) [
    | inl bad ↦ rw bad h
    | inr good ↦ rw good (change_window-AreShort _ (place-IsHarmless index all) h)
  ]

  set_description-AreShort : (d : Option Text) → AreShort r → AreShort (set_description r id d).1
  unfolding set_description
  set_description-AreShort d h = change_window-AreShort _ (λ w. same_urls _ w refl refl) h

  after_check-AreShort :
      {A : Type 0} (c : Checked A) (f : A → Checked ActiveWindow × WindowRegistry)
      → AreShort r
      → ((a : A) → AreShort (f a).1)
      → AreShort (after_check c r f).1
  unfolding after_check
  after_check-AreShort (ok a) f h k = k a
  after_check-AreShort (err e) f h k = h

  insert_window-AreShort :
      (w : ActiveWindow) → HasShortUrls w → AreShort r → AreShort (insert_window r w).1
  unfolding insert_window
  insert_window-AreShort w short h = insert-All (λ e. HasShortUrls e.1.window) _ _ r.windows short h

-- One call.
step-AreShort :
    (r : WindowRegistry) (id : Text) (c : Call)
    → IsAdmissible (id, c)
    → AreShort r
    → AreShort (step r id c)
unfolding step insert_opened_web insert_opened_web_video insert_opened_media remove_window
    record_observed_url record_page_started record_page_finished record_page_failed record_title
    record_authenticated record_console_entries tag set_maximized set_minimized apply_resize
step-AreShort r id (opens_web url d p) ok_url h =
    insert_window-AreShort r id _ (web_window-HasShortUrls id url d p ok_url) h
step-AreShort r id (opens_web_video url rendered d p) ok_url h =
    insert_window-AreShort r id _ (web_video_window-HasShortUrls id url rendered d p ok_url) h
step-AreShort r id (opens_media source content title d p) ok_url h =
    insert_window-AreShort r id _ (media_window-HasShortUrls id source content title d p) h
step-AreShort r id removes ok_url h = remove-All (λ e. HasShortUrls e.1.window) id r.windows h
step-AreShort r id (focuses b) ok_url h = record_focus-AreShort r id b h
step-AreShort r id (observes url) ok_url h =
    update_window-AreShort r id _ (observed_url-IsHarmless url) h
step-AreShort r id (starts url) ok_url h =
    update_window-AreShort r id _ (page_started-IsHarmless url) h
step-AreShort r id (finishes url) ok_url h =
    update_window-AreShort r id _ (page_finished-IsHarmless url) h
step-AreShort r id (fails url error) ok_url h =
    update_window-AreShort r id _ (page_failed-IsHarmless url error) h
step-AreShort r id (titles title) ok_url h =
    update_window-AreShort r id _ (titled-IsHarmless title) h
step-AreShort r id (authenticates a) ok_url h =
    update_window-AreShort r id _ (authenticated_as-IsHarmless a) h
step-AreShort r id (logs es t) ok_url h =
    update_window-AreShort r id _ (console_extended-IsHarmless es t) h
step-AreShort r id (plays state) ok_url h = record_media_state-AreShort r id state h
step-AreShort r id (places index all) ok_url h = record_workspace-AreShort r id index all h
step-AreShort r id (tags d) ok_url h =
    after_check-AreShort r id (validate_description (some d)) _ h
      (λ o. set_description-AreShort r id o h)
step-AreShort r id (describes d) ok_url h = set_description-AreShort r id d h
step-AreShort r id (maximizes b) ok_url h =
    change_window-AreShort r id _ (λ w. same_urls _ w refl refl) h
step-AreShort r id (minimizes b) ok_url h =
    change_window-AreShort r id _ (λ w. same_urls _ w refl refl) h
step-AreShort r id (resizes spec) ok_url h =
    after_check-AreShort r id (validate_resize spec) _ h
      (λ _. change_window-AreShort r id _ (resized-IsHarmless spec) h)

run-AreShort :
    (r : WindowRegistry) (calls : List (Text × Call))
    → All IsAdmissible calls
    → AreShort r
    → AreShort (run r calls)
unfolding run
run-AreShort r [] all h = h
run-AreShort r ((id, c) ∷ calls) all h =
    run-AreShort (step r id c) calls all.1 (step-AreShort r id c all.0 h)

-- Whatever the host records, in any order, about any windows: if every URL that it opens has at most
-- 4096 bytes, each window's current URL has at most 4096 characters, and its URL history has at most
-- 128 entries, of at most 32 KiB.
pub run-empty-HasShortUrls :
    (calls : List (Text × Call))
    → All IsAdmissible calls
    → All (λ e. HasShortUrls e.1.window) (run empty calls).windows
run-empty-HasShortUrls calls all = run-AreShort empty calls all tt
