-- ===== src/Window/Invariant.antt =====
-- The well-formedness of the registry of portus-window/src/window_core.rs, and the rules by which
-- its changes keep it.
pub mod Changes
pub mod Pages
pub mod Focus
pub mod Opening
pub mod Media
pub mod Counter
pub mod Reach
pub mod Urls
use portus_window.Base.{
  ℕ, ◌≤◌, ◌<◌, ◌≡◌, Bool, true, false, ◌⊎◌, Option, none, some, List, length, last, Text, All,
  Pairwise, is_some,
}
use portus_window.Base.OrdMap.{text_key}
use portus_window.Base.OrdMap.Entries.{IsOrdered}
use portus_window.Protocol.Limits.{
  max_url_chars, max_title_chars, max_load_error_chars, max_console_entries,
  max_url_history_entries,
}
use portus_window.Protocol.Windows.{ActiveWindow}
use portus_window.Window.Bounded.{is_over}
use portus_window.Window.Registry.{WindowRecord, WindowRegistry, has_media_state}
use portus_window.Window.Registry.Pages.{is_failed, is_web_source}
use portus_window.Window.Registry.Place.Trail.{IsTrail}
use portus_window.Window.Target.{Entry, order}

abbrev pub IsShorter : ℕ → Option Text → Type 0
IsShorter n none = Unit
IsShorter n (some t) = length t ≤ n

-- A window on a workspace has it as the last of its history.
abbrev pub HasArrived : Option ℕ → List ℕ → Type 0
HasArrived none visits = Unit
HasArrived (some i) visits = last visits ≡ some i

abbrev pub IsFitting : Option (List Text) → Type 0
IsFitting none = Unit
IsFitting (some h) = is_over h ≡ false

abbrev pub IsPlace : Option ℕ → Type 0
IsPlace none = Unit
IsPlace (some i) = i ≤ 255

-- One window. An error is recorded exactly while the load has failed; the error, a page's title and
-- the numbers of console entries and of visits are bounded; a workspace never stands behind itself
-- among the visits, and the window's own is the last; local media have no URL, and media state is
-- only for playable local media.
pub record IsSound (w : ActiveWindow) : Type 0 where
  pub failure : is_failed w.load_state ≡ is_some w.load_error
  pub error_bound : IsShorter max_load_error_chars w.load_error
  pub title_bound : is_web_source w ≡ true → length w.title ≤ max_title_chars
  pub console_bound : length w.console_errors ≤ max_console_entries
  pub visits_bound : length w.workspace_history ≤ 128
  pub place_bound : IsPlace w.workspace
  pub trail : IsTrail w.workspace_history
  pub arrived : HasArrived w.workspace w.workspace_history
  pub everywhere : w.is_on_all_workspaces ≡ true → w.workspace ≡ none
  pub local_url : is_web_source w ≡ false → w.current_url ≡ none
  pub local_history : is_web_source w ≡ false → w.url_history ≡ none
  pub web_media : is_web_source w ≡ true → w.media_state ≡ none
  pub mute_media : has_media_state w.content_kind ≡ false → w.media_state ≡ none

-- The URLs of one window are within their limits.
pub record HasShortUrls (w : ActiveWindow) : Type 0 where
  pub url_bound : IsShorter max_url_chars w.current_url
  pub history_bound : IsFitting w.url_history

-- A window under its own identity.
abbrev pub IsFiled : Entry → Type 0
IsFiled e = (e.1.window.window_session_id ≡ e.0) × IsSound e.1.window

-- No order is from the future, and a focused window has the newest.
abbrev pub IsTimely : ℕ → Entry → Type 0
IsTimely counter e =
    (order e ≤ counter) × (e.1.window.is_focused ≡ true → (order e ≡ counter) × (0 < counter))

-- Two windows had the focus at different times, unless one never had it.
abbrev pub IsApart : Entry → Entry → Type 0
IsApart d e = order d ≡ order e → order d ≡ 0

pub record Inv (r : WindowRegistry) : Type 0 where
  pub ordered : IsOrdered r.windows
  pub filed : All IsFiled r.windows
  pub timely : All (IsTimely r.focus_counter) r.windows
  pub apart : Pairwise IsApart r.windows
