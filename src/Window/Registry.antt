-- ===== src/Window/Registry.antt =====
-- `WindowRegistry` (portus-window/src/window_core.rs): its state, and how windows enter and leave.
pub mod Focus
pub mod Pages
pub mod Console
pub mod Place
use portus_window.Base.{
  ℕ, Bool, true, false, Option, none, some, List, [], ◌∷◌, map, ◌&&◌, ◌==◌, if◌then◌else◌, Text,
  text, Result, ok, err, retain, length,
}
use portus_window.Base.Int.{pos}
use portus_window.Base.OrdMap.{OrdMap, text_key, get, insert, remove, contains_key, values, modify}
use portus_window.Protocol.Windows.{SourceKind, ContentKind, LoadState, MediaState, ActiveWindow}
use portus_window.Window.Errors.{WindowCoreError, target_not_found, Checked}

pub record WindowRecord : Type 0 where
  pub window : ActiveWindow
  pub focus_order : ℕ

pub record WindowRegistry : Type 0 where
  pub windows : OrdMap Text WindowRecord
  pub focus_counter : ℕ

-- `WindowRegistry::default`
abbrev pub empty : WindowRegistry
empty = record { windows = []; focus_counter = 0 }

-- The loop over the identities that the uuid crate draws; `none` if those given are all taken.
unfoldable pub next_id : WindowRegistry → List Text → Option Text
next_id r [] = none
next_id r (candidate ∷ drawn) =
    let retry = next_id r drawn in
    if contains_key candidate r.windows then retry else some candidate

-- The window that each way of opening starts from.
unfoldable pub opened :
    (id : Text) (source : SourceKind) (content : ContentKind) (requested title : Text)
    (description profile : Option Text)
    → ActiveWindow
opened id source content requested title description profile = record {
  window_session_id = id;
  source_kind = source;
  content_kind = content;
  requested_source = requested;
  current_url = none;
  rendered_url = none;
  url_history = none;
  url_history_truncated = none;
  title = title;
  description = description;
  profile = profile;
  authenticated = none;
  load_state = LoadState.started;
  load_error = none;
  console_errors = [];
  console_errors_truncated = false;
  media_state = none;
  width = 1024;
  height = 768;
  x = pos 0;
  y = pos 0;
  is_maximized = false;
  is_minimized = false;
  is_focused = false;
  is_always_on_top = false;
  workspace = none;
  is_on_all_workspaces = false;
  workspace_history = [];
  workspace_history_truncated = false;
}

unfoldable pub insert_window : WindowRegistry → ActiveWindow → ActiveWindow × WindowRegistry
insert_window r window = (
  window,
  record r {
    windows =
        insert window.window_session_id (record { window = window; focus_order = 0 }) r.windows;
  },
)

unfoldable pub web_window : Text → Text → Option Text → Option Text → ActiveWindow
unfolding opened
web_window id url description profile =
    record (opened id SourceKind.web ContentKind.web url (text "Portus Window") description
      profile) {
        current_url = some url;
        url_history = some (url ∷ []);
        url_history_truncated = some false;
      }

unfoldable pub web_video_window : Text → Text → Text → Option Text → Option Text → ActiveWindow
unfolding opened
web_video_window id url rendered description profile =
    record (opened id SourceKind.web ContentKind.video url (text "YouTube Video") description
      profile) { current_url = some url; rendered_url = some rendered }

-- `MediaState::default`
abbrev pub default_media_state : MediaState
default_media_state = record {
  playing = false;
  paused = false;
  ended = false;
  duration_seconds = none;
  position_seconds = none;
  volume = none;
  error = none;
}

unfoldable pub has_media_state : ContentKind → Bool
has_media_state ContentKind.video = true
has_media_state ContentKind.audio = true
has_media_state _ = false

unfoldable pub media_window :
    Text → Text → ContentKind → Text → Option Text → Option Text → ActiveWindow
unfolding opened has_media_state
media_window id source content title description profile =
    record (opened id SourceKind.local_media content source title description profile) {
      load_state = LoadState.loaded;
      media_state = if has_media_state content then some default_media_state else none;
    }

unfoldable pub insert_opened_web :
    WindowRegistry → Text → Text → Option Text → Option Text → ActiveWindow × WindowRegistry
unfolding insert_window web_window
insert_opened_web r id url description profile =
    insert_window r (web_window id url description profile)

unfoldable pub insert_opened_web_video :
    WindowRegistry → Text → Text → Text → Option Text → Option Text → ActiveWindow × WindowRegistry
unfolding insert_window web_video_window
insert_opened_web_video r id url rendered description profile =
    insert_window r (web_video_window id url rendered description profile)

unfoldable pub insert_opened_media :
    WindowRegistry
    → Text
    → Text
    → ContentKind
    → Text
    → Option Text
    → Option Text
    → Checked ActiveWindow × WindowRegistry
unfolding insert_window media_window
insert_opened_media r id source content title description profile =
    let (window, s) = insert_window r (media_window id source content title description profile) in
    (ok window, s)

unfoldable pub status : WindowRegistry → Text → Checked ActiveWindow
status r id = elim (get id r.windows) [
  | none ↦ err (target_not_found id)
  | some rec ↦ ok rec.window
]

unfoldable pub list : WindowRegistry → List ActiveWindow
unfolding values
list r = map (λ rec. rec.window) (values r.windows)

unfoldable pub remove_window : WindowRegistry → Text → Option ActiveWindow × WindowRegistry
remove_window r id = (
  elim (get id r.windows) [ none ↦ none | some rec ↦ some rec.window ],
  record r { windows = remove id r.windows },
)

unfoldable pub is_web : WindowRecord → Bool
is_web rec = elim rec.window.source_kind [ SourceKind.web ↦ true | SourceKind.local_media ↦ false ]

unfoldable pub is_last_web_window : WindowRegistry → Text → Bool
unfolding is_web
is_last_web_window r id =
    elim (get id r.windows) [ none ↦ false | some rec ↦ is_web rec ]
    && length (retain is_web (values r.windows)) == 1

-- A change of one window through `get_mut`, if it is there.
unfoldable pub update_window :
    WindowRegistry → Text → (ActiveWindow → ActiveWindow) → WindowRegistry
update_window r id f = record r {
  windows = modify id (λ rec. record rec { window = f rec.window }) r.windows;
}

-- The same where a missing window is an error, and the changed window the result.
unfoldable pub change_window :
    WindowRegistry → Text → (ActiveWindow → ActiveWindow) → Checked ActiveWindow × WindowRegistry
unfolding update_window
change_window r id f = elim (get id r.windows) [
  | none ↦ (err (target_not_found id), r)
  | some rec ↦ (ok (f rec.window), update_window r id f)
]
