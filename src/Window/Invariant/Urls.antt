-- ===== src/Window/Invariant/Urls.antt =====
-- What the registry records of pages keeps their URLs within their limits
-- (portus-window/src/window_core.rs).
pub mod Reach
use portus_window.Base.{
  ℕ, ◌≤◌, ◌≡◌, refl, Bool, true, false, Option, none, some, List, [], ◌∷◌, ◌++◌, arith, Text, len,
  length-le-len, All, map-All, Bool-cases, Option-cases, inl, inr, ok, err, if◌then◌else◌,
}
use portus_window.Base.OrdMap.{text_key, get, contains_key}
use portus_window.Base.OrdMap.Entries.{modify-All, insert-All, remove-All}
use portus_window.Protocol.Limits.{max_url_chars}
use portus_window.Protocol.Windows.{ActiveWindow, MediaState, ContentKind, ConsoleEntry}
use portus_window.Window.Errors.{Checked}
use portus_window.Window.Bounded.{truncate_chars, is_over, total_len}
use portus_window.Window.Bounded.Laws.{length-truncate_chars, is_over-trim_url_history}
use portus_window.Window.Validate.{ResizeSpec, validate_description, validate_resize}
use portus_window.Window.Registry.{
  WindowRecord, WindowRegistry, empty, insert_window, remove_window, web_window, web_video_window,
  media_window, update_window, change_window, insert_opened_web, insert_opened_web_video,
  insert_opened_media,
}
use portus_window.Window.Registry.Focus.{set_focused, focus_window, record_focus}
use portus_window.Window.Registry.Pages.{
  extend_history, history_of, observed_url, page_started, page_finished, page_failed, titled,
  authenticated_as, record_observed_url, record_page_started, record_page_finished,
  record_page_failed, record_title, record_authenticated,
}
use portus_window.Window.Registry.Console.{
  console_extended, record_console_entries, record_media_state, media_recorded, is_playable,
}
use portus_window.Window.Registry.Place.{
  place, visit_workspace, resized, tag, set_description, set_maximized, set_minimized, apply_resize,
  after_check, is_bad_index, record_workspace,
}
use portus_window.Window.Calls.{
  Call, step, run, opens_web, opens_web_video, opens_media, removes, focuses, observes, starts,
  finishes, fails, titles, authenticates, logs, plays, places, tags, describes, maximizes,
  minimizes, resizes,
}
use portus_window.Window.Invariant.{IsFitting, HasShortUrls}

-- A change of a window that keeps its URLs short.
abbrev pub IsHarmless : (ActiveWindow → ActiveWindow) → Type 0
IsHarmless f = (w : ActiveWindow) → HasShortUrls w → HasShortUrls (f w)

pub same_urls :
    (v w : ActiveWindow)
    → v.current_url ≡ w.current_url
    → v.url_history ≡ w.url_history
    → HasShortUrls w
    → HasShortUrls v
same_urls v w p q h = record { url_bound = rw p h.url_bound; history_bound = rw q h.history_bound }

pub observed_url-IsHarmless : (url : Text) → IsHarmless (observed_url url)
unfolding observed_url
observed_url-IsHarmless url w h = ground (arith, length-truncate_chars url max_url_chars)

pub page_started-IsHarmless : (url : Text) → IsHarmless (page_started url)
unfolding page_started
page_started-IsHarmless url w h = ground (arith, length-truncate_chars url max_url_chars)

pub page_failed-IsHarmless : (url error : Text) → IsHarmless (page_failed url error)
unfolding page_failed
page_failed-IsHarmless url error w h = ground (arith, length-truncate_chars url max_url_chars)

-- The history that a finished load leaves fits.
extend_history-fits :
    (url : Text) (h : Option (List Text)) (t : Option Bool)
    → IsFitting h
    → is_over (extend_history url (history_of h) t).0 ≡ false
unfolding extend_history
extend_history-fits url none t fits = is_over-trim_url_history (some true) (url ∷ []) t
extend_history-fits url (some h) t fits =
    ground (arith, is_over-trim_url_history (some true) (h ++ url ∷ []) t)

pub page_finished-IsHarmless : (url : Text) → IsHarmless (page_finished url)
unfolding page_finished
page_finished-IsHarmless url w h = ground (
  arith,
  length-truncate_chars url max_url_chars,
  extend_history-fits (truncate_chars url max_url_chars) w.url_history w.url_history_truncated
      h.history_bound,
)

pub titled-IsHarmless : (title : Text) → IsHarmless (titled title)
unfolding titled
titled-IsHarmless title w h = ground arith

pub authenticated_as-IsHarmless : (a : Option Bool) → IsHarmless (authenticated_as a)
unfolding authenticated_as
authenticated_as-IsHarmless a w h = ground arith

pub console_extended-IsHarmless :
    (es : List ConsoleEntry) (t : Bool) → IsHarmless (console_extended es t)
unfolding console_extended
console_extended-IsHarmless es t w h = ground arith

pub resized-IsHarmless : (spec : ResizeSpec) → IsHarmless (resized spec)
unfolding resized
resized-IsHarmless spec w h = ground arith

pub place-IsHarmless : (index : Option ℕ) (all : Bool) → IsHarmless (place index all)
unfolding place visit_workspace
place-IsHarmless index true w h = ground arith
place-IsHarmless none false w h = ground arith
place-IsHarmless (some i) false w h = ground arith

pub web_window-HasShortUrls :
    (id url : Text) (description profile : Option Text)
    → len url ≤ max_url_chars
    → HasShortUrls (web_window id url description profile)
unfolding web_window is_over total_len
web_window-HasShortUrls id url description profile h = ground (arith, length-le-len url)

pub web_video_window-HasShortUrls :
    (id url rendered : Text) (description profile : Option Text)
    → len url ≤ max_url_chars
    → HasShortUrls (web_video_window id url rendered description profile)
unfolding web_video_window
web_video_window-HasShortUrls id url rendered description profile h =
    ground (arith, length-le-len url)

pub media_window-HasShortUrls :
    (id source : Text) (content : ContentKind) (title : Text) (description profile : Option Text)
    → HasShortUrls (media_window id source content title description profile)
unfolding media_window
media_window-HasShortUrls id source content title description profile = ground arith
