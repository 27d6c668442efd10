-- ===== src/Database/Rows.antt =====
-- Rows of the table `sessions`, and what stands in their columns (portus-window/src/database.rs).
-- SQLite's statements are functions on the table. Which of them fail is an argument: a statement
-- that fails leaves the table as it is, and so does a transaction that is not committed.
pub mod Columns
use portus_window.Base.{
  ℕ, Bool, true, false, Option, none, some, ◌++◌, if◌then◌else◌, Text, text, text_eq, List, Result,
  ok, err,
}
use portus_window.Base.OrdMap.{OrdMap}
use portus_window.Protocol.Windows.{SourceKind, ContentKind, CloseReason}

pub data PersistenceError : Type 0 where
  validation : Text → PersistenceError
  storage : Text → PersistenceError
  worker_unavailable : PersistenceError

abbrev pub Stored : Type 0 → Type 0
Stored = Result PersistenceError

-- An `i64` of seconds, as the distance from the least one: `<` is then that of ℕ, and
-- `saturating_sub` is `-`.
abbrev pub Timestamp : Type 0
Timestamp = ℕ

pub record Row : Type 0 where
  pub window_session_id : Text
  pub source_kind : Text
  pub content_kind : Text
  pub requested_source : Text
  pub title : Text
  pub rendered_url : Option Text
  pub final_url : Option Text
  pub url_history_json : Text
  pub url_history_truncated : ℕ
  pub description : Option Text
  pub workspace : Option ℕ
  pub is_on_all_workspaces : ℕ
  pub workspace_history_json : Text
  pub workspace_history_truncated : ℕ
  pub opened_at : Timestamp
  pub closed_at : Option Timestamp
  pub close_reason : Option Text

-- By `session_id`, the primary key.
abbrev pub Table : Type 0
Table = OrdMap Text Row

-- serde_json on texts, at one type.
pub record TextJson (A : Type 0) : Type 0 where
  pub to_string : A → Result Text Text
  pub from_str : Text → Result Text A

pub record Codecs : Type 0 where
  pub urls : TextJson (List Text)
  pub workspaces : TextJson (List ℕ)
  -- The Rfc3339 format of a timestamp, of the time crate.
  pub format : Timestamp → Result Text Text

-- The statements of one call, and which of them fail, with SQLite's message.
pub data Statement : Type 0 where
  begin commit update close_row prune delete_open delete_all_open delete_closed set_value :
      Statement
  prepare : Statement
  insert : ℕ → Statement
  fetch : ℕ → Statement

abbrev pub Faults : Type 0
Faults = Statement → Option Text

-- A statement and what it returns.
abbrev pub exec {ℓ} : {A : Type ℓ} → Option Text → A → Result PersistenceError A
exec none a = ok a
exec (some message) a = err (storage message)

abbrev pub stored {ℓ} : {A : Type ℓ} → Result Text A → Result PersistenceError A
stored (ok a) = ok a
stored (err message) = err (storage message)

unfoldable pub source_kind_str : SourceKind → Text
source_kind_str SourceKind.web = text "web"
source_kind_str SourceKind.local_media = text "local_media"

unfoldable pub parse_source_kind : Text → Stored SourceKind
parse_source_kind value =
    if text_eq value (text "web")
    then ok SourceKind.web
    else if text_eq value (text "local_media")
    then ok SourceKind.local_media
    else err (storage (text "stored source_kind '" ++ (value ++ text "' is invalid")))

unfoldable pub content_kind_str : ContentKind → Text
content_kind_str ContentKind.web = text "web"
content_kind_str ContentKind.image = text "image"
content_kind_str ContentKind.video = text "video"
content_kind_str ContentKind.audio = text "audio"

unfoldable pub parse_content_kind : Text → Stored ContentKind
parse_content_kind value =
    if text_eq value (text "web")
    then ok ContentKind.web
    else if text_eq value (text "image")
    then ok ContentKind.image
    else if text_eq value (text "video")
    then ok ContentKind.video
    else if text_eq value (text "audio")
    then ok ContentKind.audio
    else err (storage (text "stored content_kind '" ++ (value ++ text "' is invalid")))

unfoldable pub close_reason_str : CloseReason → Text
close_reason_str CloseReason.explicit = text "explicit"
close_reason_str CloseReason.destroyed = text "destroyed"
close_reason_str CloseReason.abrupt_termination = text "abrupt_termination"

unfoldable pub parse_close_reason : Text → Stored CloseReason
parse_close_reason value =
    if text_eq value (text "explicit")
    then ok CloseReason.explicit
    else if text_eq value (text "destroyed")
    then ok CloseReason.destroyed
    else if text_eq value (text "abrupt_termination")
    then ok CloseReason.abrupt_termination
    else err (storage (text "stored close_reason '" ++ (value ++ text "' is invalid")))

abbrev pub bool_int : Bool → ℕ
bool_int true = 1
bool_int false = 0
