-- ===== src/Window/Calls.antt =====
-- The calls by which the host changes its `WindowRegistry` (portus-window/src/window_core.rs), as
-- data, and the registry behind a sequence of them.
use portus_window.Base.{ℕ, Bool, Option, List, [], ◌∷◌, Text}
use portus_window.Protocol.Windows.{ContentKind, MediaState, ConsoleEntry}
use portus_window.Window.Validate.{ResizeSpec}
use portus_window.Window.Registry.{
  WindowRegistry, insert_opened_web, insert_opened_web_video, insert_opened_media, remove_window,
}
use portus_window.Window.Registry.Focus.{record_focus}
use portus_window.Window.Registry.Pages.{
  record_observed_url, record_page_started, record_page_finished, record_page_failed, record_title,
  record_authenticated,
}
use portus_window.Window.Registry.Console.{record_console_entries, record_media_state}
use portus_window.Window.Registry.Place.{
  record_workspace, tag, set_description, set_maximized, set_minimized, apply_resize,
}

pub data Call : Type 0 where
  opens_web : (url : Text) → (description profile : Option Text) → Call
  opens_web_video : (url rendered : Text) → (description profile : Option Text) → Call
  opens_media :
      (source : Text)
      → (content : ContentKind) → (title : Text) → (description profile : Option Text) → Call
  removes : Call
  focuses : (focused : Bool) → Call
  observes starts finishes : (url : Text) → Call
  fails : (url error : Text) → Call
  titles : (title : Text) → Call
  authenticates : (authenticated : Option Bool) → Call
  logs : (entries : List ConsoleEntry) → (source_truncated : Bool) → Call
  plays : (state : MediaState) → Call
  places : (index : Option ℕ) → (all : Bool) → Call
  tags : (description : Text) → Call
  describes : (description : Option Text) → Call
  maximizes minimizes : (value : Bool) → Call
  resizes : (spec : ResizeSpec) → Call

-- Each call is for one window identity.
unfoldable pub step : WindowRegistry → Text → Call → WindowRegistry
unfolding insert_opened_web insert_opened_web_video insert_opened_media remove_window record_focus
    record_observed_url record_page_started record_page_finished record_page_failed record_title
    record_authenticated record_console_entries record_media_state record_workspace tag
    set_description set_maximized set_minimized apply_resize
step r id (opens_web url description profile) = (insert_opened_web r id url description profile).1
step r id (opens_web_video url rendered description profile) =
    (insert_opened_web_video r id url rendered description profile).1
step r id (opens_media source content title description profile) =
    (insert_opened_media r id source content title description profile).1
step r id removes = (remove_window r id).1
step r id (focuses focused) = record_focus r id focused
step r id (observes url) = record_observed_url r id url
step r id (starts url) = record_page_started r id url
step r id (finishes url) = record_page_finished r id url
step r id (fails url error) = record_page_failed r id url error
step r id (titles title) = record_title r id title
step r id (authenticates authenticated) = record_authenticated r id authenticated
step r id (logs entries source_truncated) = record_console_entries r id entries source_truncated
step r id (plays state) = (record_media_state r id state).1
step r id (places index all) = (record_workspace r id index all).1
step r id (tags description) = (tag r id description).1
step r id (describes description) = (set_description r id description).1
step r id (maximizes value) = (set_maximized r id value).1
step r id (minimizes value) = (set_minimized r id value).1
step r id (resizes spec) = (apply_resize r id spec).1

unfoldable pub run : WindowRegistry → List (Text × Call) → WindowRegistry
unfolding step
run r [] = r
run r ((id, c) ∷ calls) = run (step r id c) calls
