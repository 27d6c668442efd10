-- ===== src/Window/Validate.antt =====
-- The validation of inputs (portus-window/src/window_core.rs). `Url::parse` of the url crate is a
-- parameter.
pub mod Accepted
use portus_window.Base.{
  ℕ, Bool, not, ◌&&◌, ◌||◌, Option, none, some, ◌++◌, if◌then◌else◌, ◌==◌, ltb, length, Text, text,
  len, trim, is_empty, decimal, text_eq, Result, ok, err, ◌>>◌,
}
use portus_window.Base.Float.{is_finite, is_negative, zero_le, le_one}
use portus_window.Base.Int.{ℤ}
use portus_window.Protocol.Limits.{max_description_chars, max_url_chars}
use portus_window.Protocol.Windows.{
  MediaAction, play, pause, seek, set_volume, WindowStateAction, WorkspaceTarget,
}
use portus_window.Window.Errors.{validation, Checked}

pub record ResizeSpec : Type 0 where
  pub width : Option ℕ
  pub height : Option ℕ
  pub x : Option ℤ
  pub y : Option ℤ
  pub state : Option WindowStateAction
  pub always_on_top : Option Bool
  pub workspace : Option WorkspaceTarget

-- One side of a window, with the message for its name.
check_side : Text → Option ℕ → Checked (Unit {0})
check_side message none = ok tt
check_side message (some n) = if n == 0 || ltb 16384 n then err (validation message) else ok tt

-- `ResizeSpec::validate`
unfoldable pub validate_resize : ResizeSpec → Checked (Unit {0})
unfolding check_side
validate_resize spec = do
  check_side (text "width must be between 1 and 16384") spec.width
  check_side (text "height must be between 1 and 16384") spec.height

unfoldable pub validate_media_action : MediaAction → Checked (Unit {0})
validate_media_action play = ok tt
validate_media_action pause = ok tt
validate_media_action (seek seconds) =
    if not (is_finite seconds) || is_negative seconds
    then err (validation (text "seek seconds must be a non-negative finite number"))
    else ok tt
validate_media_action (set_volume level) =
    if not (is_finite level) || not (zero_le level && le_one level)
    then err (validation (text "volume level must be between 0.0 and 1.0"))
    else ok tt

check_description : Text → Checked (Option Text)
check_description trimmed =
    if is_empty trimmed
    then ok none
    else if ltb max_description_chars (length trimmed)
    then err (
        validation (
          text "description must be at most "
          ++ (decimal max_description_chars ++ text " characters")))
    else ok (some trimmed)

unfoldable pub validate_description : Option Text → Checked (Option Text)
unfolding check_description
validate_description none = ok none
validate_description (some description) = check_description (trim description)

-- What the code reads of a URL that the url crate has parsed.
pub record Url : Type 0 where
  pub scheme : Text
  pub href : Text

unfoldable pub validate_navigation_url : Url → Bool
validate_navigation_url u = text_eq u.scheme (text "http") || text_eq u.scheme (text "https")

check_scheme : Url → Checked Url
check_scheme u =
    if text_eq u.scheme (text "http") || text_eq u.scheme (text "https")
    then ok u
    else if text_eq u.scheme (text "file")
    then err
        (validation (text "file:// URLs are not permitted; pass the local media path directly"))
    else err (validation (text "only http and https URLs are permitted"))

parsed_url : Result Text Url → Checked Url
unfolding check_scheme
parsed_url (err e) = err (validation (text "invalid URL: " ++ e))
parsed_url (ok u) = check_scheme u

-- `parse` is `Url::parse`, its error as text.
unfoldable pub validate_url : (Text → Result Text Url) → Text → Checked Url
unfolding parsed_url
validate_url parse url =
    let trimmed = trim url in
    if is_empty trimmed
    then err (validation (text "URL must not be empty"))
    else if ltb max_url_chars (len trimmed)
    then err
        (validation (text "URL must be at most " ++ (decimal max_url_chars ++ text " characters")))
    else parsed_url (parse trimmed)
