-- ===== src/Window/Registry/Pages.antt =====
-- What the registry records of a window's page: its URLs, loads and title
-- (portus-window/src/window_core.rs).
pub mod Loads
pub mod Visited
use portus_window.Base.{
  Bool, true, false, not, ◌&&◌, Option, none, some, List, [], ◌∷◌, ◌++◌, if◌then◌else◌, last, Text,
  text_eq,
}
use portus_window.Base.OrdMap.{text_key}
use portus_window.Protocol.Limits.{max_url_chars, max_load_error_chars, max_title_chars}
use portus_window.Protocol.Windows.{SourceKind, ContentKind, LoadState, ActiveWindow}
use portus_window.Window.Bounded.{truncate_chars, trim_url_history}
use portus_window.Window.Registry.{WindowRegistry, update_window}

unfoldable pub is_web_source : ActiveWindow → Bool
is_web_source w = elim w.source_kind [ SourceKind.web ↦ true | SourceKind.local_media ↦ false ]

unfoldable pub is_web_page : ActiveWindow → Bool
unfolding is_web_source
is_web_page w = is_web_source w && elim w.content_kind [ ContentKind.web ↦ true | _ ↦ false ]

unfoldable pub is_failed : LoadState → Bool
is_failed LoadState.failed = true
is_failed _ = false

unfoldable pub is_text : Option Text → Text → Bool
is_text none t = false
is_text (some s) t = text_eq s t

unfoldable pub observed_url : Text → ActiveWindow → ActiveWindow
unfolding is_web_page
observed_url url w =
    if is_web_page w then record w { current_url = some (truncate_chars url max_url_chars) } else w

unfoldable pub record_observed_url : WindowRegistry → Text → Text → WindowRegistry
unfolding observed_url
record_observed_url r id url = update_window r id (observed_url url)

unfoldable pub page_started : Text → ActiveWindow → ActiveWindow
unfolding is_web_page is_failed is_text
page_started url w =
    let same_failed_url = is_failed w.load_state && is_text w.current_url url in
    if is_web_page w && not same_failed_url
    then record w {
      load_state = LoadState.started;
      load_error = none;
      current_url = some (truncate_chars url max_url_chars);
    }
    else w

unfoldable pub record_page_started : WindowRegistry → Text → Text → WindowRegistry
unfolding page_started
record_page_started r id url = update_window r id (page_started url)

abbrev pub history_of : Option (List Text) → List Text
history_of none = []
history_of (some h) = h

-- The history with a new URL, and whether it has been cut.
unfoldable pub extend_history : Text → List Text → Option Bool → List Text × Option Bool
unfolding is_text
extend_history url history truncated =
    if is_text (last history) url
    then (history, truncated)
    else trim_url_history (some true) (history ++ url ∷ []) truncated

unfoldable pub is_none : Option Text → Bool
is_none none = true
is_none (some t) = false

unfoldable pub page_finished : Text → ActiveWindow → ActiveWindow
unfolding is_web_page is_failed is_none
page_finished url w =
    let kept = truncate_chars url max_url_chars in
    let (history, truncated) =
      extend_history kept (history_of w.url_history) w.url_history_truncated in
    if is_web_page w && not (is_failed w.load_state) && is_none w.load_error
    then record w {
      load_state = LoadState.loaded;
      load_error = none;
      current_url = some kept;
      url_history = some history;
      url_history_truncated = truncated;
    }
    else w

unfoldable pub record_page_finished : WindowRegistry → Text → Text → WindowRegistry
unfolding page_finished
record_page_finished r id url = update_window r id (page_finished url)

unfoldable pub page_failed : Text → Text → ActiveWindow → ActiveWindow
unfolding is_web_source
page_failed url error w =
    if is_web_source w
    then record w {
      load_state = LoadState.failed;
      load_error = some (truncate_chars error max_load_error_chars);
      current_url = some (truncate_chars url max_url_chars);
    }
    else w

unfoldable pub record_page_failed : WindowRegistry → Text → Text → Text → WindowRegistry
unfolding page_failed
record_page_failed r id url error = update_window r id (page_failed url error)

unfoldable pub titled : Text → ActiveWindow → ActiveWindow
unfolding is_web_source
titled title w =
    if is_web_source w then record w { title = truncate_chars title max_title_chars } else w

unfoldable pub record_title : WindowRegistry → Text → Text → WindowRegistry
unfolding titled
record_title r id title = update_window r id (titled title)

unfoldable pub authenticated_as : Option Bool → ActiveWindow → ActiveWindow
unfolding is_web_source
authenticated_as authenticated w =
    if is_web_source w then record w { authenticated = authenticated } else w

unfoldable pub record_authenticated : WindowRegistry → Text → Option Bool → WindowRegistry
unfolding authenticated_as
record_authenticated r id authenticated = update_window r id (authenticated_as authenticated)
