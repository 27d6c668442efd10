-- ===== src/Window/Invariant/Reach.antt =====
-- Every sequence of calls keeps the registry well formed.
use portus_window.Base.{
  ℕ, ◌+◌, ◌^◌, ◌<◌, ◌≡◌, refl, Bool, false, Option, none, some, List, [], ◌∷◌, arith, Text, length,
  Bool-cases, inl, inr, ok, err, ltb→le,
}
use portus_window.Base.OrdMap.{text_key}
use portus_window.Window.Registry.{
  WindowRegistry, empty, web_window, web_video_window, media_window,
}
use portus_window.Protocol.Windows.{ActiveWindow}
use portus_window.Window.Registry.Pages.{is_web_source}
use portus_window.Window.Calls.{
  Call, step, run, opens_web, opens_web_video, opens_media, removes, focuses, observes, starts,
  finishes, fails, titles, authenticates, logs, plays, places, tags, describes, maximizes,
  minimizes, resizes,
}
use portus_window.Window.Invariant.{Inv}
use portus_window.Window.Invariant.Opening.{
  empty-Inv, insert_window-Inv, remove_window-Inv, web_window-IsSound, web_video_window-IsSound,
  media_window-IsSound,
}
use portus_window.Window.Invariant.Changes.{Keeps, update_window-Inv, change_window-Inv}
use portus_window.Window.Validate.{validate_description, validate_resize}
use portus_window.Window.Registry.{insert_opened_web, insert_opened_web_video, insert_opened_media}
use portus_window.Window.Registry.Pages.{
  record_observed_url, record_page_started, record_page_finished, record_page_failed, record_title,
  record_authenticated,
}
use portus_window.Window.Registry.Console.{record_console_entries}
use portus_window.Window.Registry.Place.{tag, set_maximized, set_minimized, apply_resize}
use portus_window.Window.Invariant.Focus.{record_focus-Inv}
use portus_window.Window.Invariant.Counter.{focus_counter-step}
use portus_window.Window.Errors.{Checked}
use portus_window.Window.Registry.Place.{
  set_description, after_check, is_bad_index, record_workspace,
}
use portus_window.Window.Invariant.{IsPlace}
use portus_window.Window.Invariant.Pages
use portus_window.Window.Invariant.Pages.{place-Keeps}
use portus_window.Window.Invariant.Media.{record_media_state-Inv}

description-Keeps : (d : Option Text) → Keeps (λ w. record w { description = d })
unfolding is_web_source
description-Keeps d = record {
  sound = λ w h. ground arith;
  same_id = λ w. refl;
  same_focus = λ w p. p;
}

maximized-Keeps : (b : Bool) → Keeps (λ w. record w { is_maximized = b })
unfolding is_web_source
maximized-Keeps b = record {
  sound = λ w h. ground arith;
  same_id = λ w. refl;
  same_focus = λ w p. p;
}

minimized-Keeps : (b : Bool) → Keeps (λ w. record w { is_minimized = b })
unfolding is_web_source
minimized-Keeps b = record {
  sound = λ w h. ground arith;
  same_id = λ w. refl;
  same_focus = λ w p. p;
}

set_description-Inv :
    (r : WindowRegistry) (id : Text) (d : Option Text) → Inv r → Inv (set_description r id d).1
unfolding set_description
set_description-Inv r id d v = change_window-Inv r id _ (description-Keeps d) v

-- A refused check leaves the registry alone.
after_check-Inv :
    {A : Type 0} (c : Checked A) (r : WindowRegistry)
    (f : A → Checked ActiveWindow × WindowRegistry)
    → Inv r
    → ((a : A) → Inv (f a).1)
    → Inv (after_check c r f).1
unfolding after_check
after_check-Inv (ok a) r f v h = h a
after_check-Inv (err e) r f v h = v

IsPlace-index : (index : Option ℕ) → is_bad_index index ≡ false → IsPlace index
unfolding is_bad_index
IsPlace-index none h = tt
IsPlace-index (some i) h = ltb→le _ _ h

record_workspace-Inv :
    (r : WindowRegistry) (id : Text) (index : Option ℕ) (all : Bool)
    → Inv r
    → Inv (record_workspace r id index all).1
unfolding record_workspace
record_workspace-Inv r id index all v = elim (Bool-cases (is_bad_index index)) [
  | inl bad ↦ rw bad v
  | inr good ↦
      rw good (change_window-Inv r id _ (place-Keeps index all (IsPlace-index index good)) v)
]

-- One call.
step-Inv :
    (r : WindowRegistry) (id : Text) (c : Call)
    → r.focus_counter + 1 < 2 ^ 64
    → Inv r
    → Inv (step r id c)
unfolding step
step-Inv r id (opens_web url d p) room v =
    unfold insert_opened_web in
    insert_window-Inv r _ (web_window-IsSound id url d p) (unfold web_window in refl) v
step-Inv r id (opens_web_video url rendered d p) room v =
    unfold insert_opened_web_video in
    insert_window-Inv r _ (web_video_window-IsSound id url rendered d p)
      (unfold web_video_window in refl) v
step-Inv r id (opens_media source content title d p) room v =
    unfold insert_opened_media in
    insert_window-Inv r _ (media_window-IsSound id source content title d p)
      (unfold media_window in refl) v
step-Inv r id removes room v = remove_window-Inv r id v
step-Inv r id (focuses b) room v = record_focus-Inv r id v room b
step-Inv r id (observes url) room v =
    unfold record_observed_url in update_window-Inv r id _ (Pages.observed_url-Keeps url) v
step-Inv r id (starts url) room v =
    unfold record_page_started in update_window-Inv r id _ (Pages.page_started-Keeps url) v
step-Inv r id (finishes url) room v =
    unfold record_page_finished in update_window-Inv r id _ (Pages.page_finished-Keeps url) v
step-Inv r id (fails url error) room v =
    unfold record_page_failed in update_window-Inv r id _ (Pages.page_failed-Keeps url error) v
step-Inv r id (titles title) room v =
    unfold record_title in update_window-Inv r id _ (Pages.titled-Keeps title) v
step-Inv r id (authenticates a) room v =
    unfold record_authenticated in update_window-Inv r id _ (Pages.authenticated_as-Keeps a) v
step-Inv r id (logs es t) room v =
    unfold record_console_entries in update_window-Inv r id _ (Pages.console_extended-Keeps es t) v
step-Inv r id (plays state) room v = record_media_state-Inv r id state v
step-Inv r id (places index all) room v = record_workspace-Inv r id index all v
step-Inv r id (tags d) room v =
    unfold tag in
    after_check-Inv (validate_description (some d)) r _ v (λ o. set_description-Inv r id o v)
step-Inv r id (describes d) room v = set_description-Inv r id d v
step-Inv r id (maximizes b) room v =
    unfold set_maximized in change_window-Inv r id _ (maximized-Keeps b) v
step-Inv r id (minimizes b) room v =
    unfold set_minimized in change_window-Inv r id _ (minimized-Keeps b) v
step-Inv r id (resizes spec) room v =
    unfold apply_resize in
    after_check-Inv (validate_resize spec) r _ v
      (λ _. change_window-Inv r id _ (Pages.resized-Keeps spec) v)

run-Inv :
    (r : WindowRegistry) (calls : List (Text × Call))
    → r.focus_counter + length calls < 2 ^ 64
    → Inv r
    → Inv (run r calls)
unfolding run
run-Inv r [] room v = v
run-Inv r ((id, c) ∷ calls) room v =
    run-Inv (step r id c) calls (omega (arith, focus_counter-step r id c))
      (step-Inv r id c (omega arith) v)

-- Whatever the host records, in any order, about any windows, in fewer than 2 ^ 64 calls, its registry
-- stays well formed. Each window stands under its identity, in the order of the identities. A window
-- has an error exactly while its load has failed, of at most 1024 characters; the title of a page has
-- at most 1024 characters, and it has at most 50 console entries; it has at most 128 visits of
-- workspaces, none directly behind itself, and the one that it is on is the last; a workspace has an
-- index of at most 255, and a window on all of them is on none; local media have no URL and no URL
-- history, and only local video and audio have a media state. A focused window is the one that got
-- the focus last, and no two windows got it at once.
pub run-empty-Inv : (calls : List (Text × Call)) → length calls < 2 ^ 64 → Inv (run empty calls)
run-empty-Inv calls few = run-Inv empty calls (omega arith) empty-Inv
