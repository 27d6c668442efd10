-- ===== src/Window/Registry/Console.antt =====
-- `record_console_entries` and `record_media_state` (portus-window/src/window_core.rs).
pub mod Newest
use portus_window.Base.{
  ◌-◌, Bool, true, not, ◌&&◌, none, some, List, ◌++◌, if◌then◌else◌, ltb, length, drop, Text, text,
  err,
}
use portus_window.Base.OrdMap.{text_key, get}
use portus_window.Protocol.Limits.{max_console_entries}
use portus_window.Protocol.Windows.{MediaState, ConsoleEntry, ActiveWindow}
use portus_window.Window.Errors.{target_not_found, validation, Checked}
use portus_window.Window.Registry.{WindowRegistry, has_media_state, update_window, change_window}
use portus_window.Window.Registry.Pages.{is_web_source}

unfoldable pub console_extended : List ConsoleEntry → Bool → ActiveWindow → ActiveWindow
unfolding is_web_source
console_extended entries source_truncated w =
    let current = w.console_errors ++ entries in
    let is_long = ltb max_console_entries (length current) in
    if is_web_source w
    then record w {
      console_errors =
          if is_long then drop (length current - max_console_entries) current else current;
      console_errors_truncated = if is_long then true else source_truncated;
    }
    else w

unfoldable pub record_console_entries :
    WindowRegistry → Text → List ConsoleEntry → Bool → WindowRegistry
unfolding console_extended
record_console_entries r id entries source_truncated =
    update_window r id (console_extended entries source_truncated)

unfoldable pub is_playable : ActiveWindow → Bool
unfolding is_web_source has_media_state
is_playable w = not (is_web_source w) && has_media_state w.content_kind

unfoldable pub media_recorded :
    WindowRegistry → Text → MediaState → ActiveWindow → Checked ActiveWindow × WindowRegistry
unfolding is_playable
media_recorded r id state w =
    if is_playable w
    then change_window r id (λ v. record v { media_state = some state })
    else (err (validation (text "media state can only be recorded for audio/video windows")), r)

unfoldable pub record_media_state :
    WindowRegistry → Text → MediaState → Checked ActiveWindow × WindowRegistry
unfolding media_recorded
record_media_state r id state = elim (get id r.windows) [
  | none ↦ (err (target_not_found id), r)
  | some rec ↦ media_recorded r id state rec.window
]
