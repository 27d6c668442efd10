-- ===== src/Database/Sessions.antt =====
-- The sessions of open windows and the statements on their rows (portus-window/src/database.rs).
pub mod Effects
use portus_window.Base.{
  ℕ, ◌-◌, ◌+◌, Bool, true, false, not, ◌&&◌, Option, none, some, List, [], ◌∷◌, ◌++◌, if◌then◌else◌,
  ◌==◌, ltb, length, drop, last, retain, Text, text, text_eq, Result, ok, err, ◌>>=◌, is_some, ◌*◌,
}
use portus_window.Base.OrdMap.{get, insert, modify, contains_key, text_key}
use portus_window.Protocol.Limits.{max_workspace_history_entries}
use portus_window.Protocol.Windows.{ActiveWindow, CloseReason}
use portus_window.Protocol.History.{Configuration}
use portus_window.Window.Bounded.{trim_url_history}
use portus_window.Database.Rows.{
  PersistenceError, storage, Stored, Timestamp, Row, Table, Codecs, Faults, Statement, exec, stored,
  source_kind_str, content_kind_str, close_reason_str, bool_int,
}

pub record ActiveSession : Type 0 where
  pub session_id : Text
  pub reset_timeline : Bool
  pub url_history : List Text
  pub url_history_truncated : Bool
  pub workspace_history : List ℕ
  pub workspace_history_truncated : Bool

abbrev to_list {ℓ} : {A : Type ℓ} → Option A → List A
to_list none = []
to_list (some a) = a ∷ []

abbrev unwrap_list {ℓ} : {A : Type ℓ} → Option (List A) → List A
unwrap_list none = []
unwrap_list (some l) = l

abbrev unwrap_flag : Option Bool → Bool
unwrap_flag none = false
unwrap_flag (some b) = b

-- `ActiveSession::new`
unfoldable pub new_session : Text → ActiveWindow → Bool → ActiveSession
new_session session_id w true = record {
  session_id = session_id;
  reset_timeline = true;
  url_history = to_list w.current_url;
  url_history_truncated = false;
  workspace_history = to_list w.workspace;
  workspace_history_truncated = false;
}
new_session session_id w false = record {
  session_id = session_id;
  reset_timeline = false;
  url_history = unwrap_list w.url_history;
  url_history_truncated = unwrap_flag w.url_history_truncated;
  workspace_history = w.workspace_history;
  workspace_history_truncated = w.workspace_history_truncated;
}

unfoldable is_last_url : List Text → Text → Bool
is_last_url history url = elim (last history) [ none ↦ false | some u ↦ text_eq u url ]

unfoldable observe_url : Option Text → ActiveSession → ActiveSession
unfolding is_last_url
observe_url none s = s
observe_url (some url) s =
    let trimmed = trim_url_history true (s.url_history ++ url ∷ []) s.url_history_truncated in
    if is_last_url s.url_history url
    then s
    else record s { url_history = trimmed.0; url_history_truncated = trimmed.1 }

unfoldable is_last_workspace : List ℕ → ℕ → Bool
is_last_workspace history i = elim (last history) [ none ↦ false | some j ↦ j == i ]

unfoldable observe_workspace : Option ℕ → ActiveSession → ActiveSession
unfolding is_last_workspace
observe_workspace none s = s
observe_workspace (some i) s =
    let longer = s.workspace_history ++ i ∷ [] in
    let overflow = length longer - max_workspace_history_entries in
    if is_last_workspace s.workspace_history i
    then s
    else if ltb max_workspace_history_entries (length longer)
    then record s { workspace_history = drop overflow longer; workspace_history_truncated = true }
    else record s { workspace_history = longer }

unfoldable pub observe : ActiveWindow → ActiveSession → ActiveSession
unfolding observe_url observe_workspace
observe w s =
    if not s.reset_timeline
    then record s {
      url_history = unwrap_list w.url_history;
      url_history_truncated = unwrap_flag w.url_history_truncated;
      workspace_history = w.workspace_history;
      workspace_history_truncated = w.workspace_history_truncated;
    }
    else observe_workspace w.workspace (observe_url w.current_url s)

-- `closed_at IS NULL`
unfoldable pub is_open : Row → Bool
is_open r = not (is_some r.closed_at)

-- The parameters of an `UPDATE`, both lists as JSON.
pub record Timelines : Type 0 where
  pub urls_json : Text
  pub workspaces_json : Text

unfoldable pub timelines : Codecs → ActiveSession → Stored Timelines
timelines c s = stored (c.urls.to_string s.url_history) >>= λ u.
    stored (c.workspaces.to_string s.workspace_history) >>= λ v.
    ok (record { urls_json = u; workspaces_json = v })

-- The columns that both `UPDATE`s set.
unfoldable pub updated : ActiveSession → ActiveWindow → Timelines → Row → Row
updated s w t r = record r {
  title = w.title;
  rendered_url = w.rendered_url;
  final_url = w.current_url;
  url_history_json = t.urls_json;
  url_history_truncated = bool_int s.url_history_truncated;
  description = w.description;
  workspace = w.workspace;
  is_on_all_workspaces = bool_int w.is_on_all_workspaces;
  workspace_history_json = t.workspaces_json;
  workspace_history_truncated = bool_int s.workspace_history_truncated;
}

-- An `UPDATE` of the row with this identity, if it is open.
unfoldable pub update_open : Text → (Row → Row) → Table → Table
unfolding is_open
update_open id f = modify id (λ r. if is_open r then f r else r)

unfoldable pub update_session :
    Codecs → Faults → ActiveSession → ActiveWindow → Table → Stored Table
unfolding timelines updated update_open
update_session c faults s w rows = timelines c s >>= λ t.
    exec (faults Statement.update) (update_open s.session_id (updated s w t) rows)

-- The columns that the closing `UPDATE` sets.
unfoldable pub closed_row :
    ActiveSession → ActiveWindow → CloseReason → Timestamp → Timelines → Row → Row
unfolding updated
closed_row s w reason now t r = record (updated s w t r) {
  closed_at = some now;
  close_reason = some (close_reason_str reason);
}

unfoldable pub close_session_row :
    Codecs → Faults → ActiveSession → ActiveWindow → CloseReason → Timestamp → Table → Stored Table
unfolding timelines closed_row update_open
close_session_row c faults s w reason now rows = timelines c s >>= λ t.
    exec (faults Statement.close_row) (update_open s.session_id (closed_row s w reason now t) rows)

-- The row of a new session.
unfoldable pub opened_row : ActiveSession → ActiveWindow → Timelines → Timestamp → Row
opened_row s w t opened_at = record {
  window_session_id = w.window_session_id;
  source_kind = source_kind_str w.source_kind;
  content_kind = content_kind_str w.content_kind;
  requested_source = w.requested_source;
  title = w.title;
  rendered_url = w.rendered_url;
  final_url = w.current_url;
  url_history_json = t.urls_json;
  url_history_truncated = bool_int s.url_history_truncated;
  description = w.description;
  workspace = w.workspace;
  is_on_all_workspaces = bool_int w.is_on_all_workspaces;
  workspace_history_json = t.workspaces_json;
  workspace_history_truncated = bool_int s.workspace_history_truncated;
  opened_at = opened_at;
  closed_at = none;
  close_reason = none;
}

-- An `INSERT`. A second row of one identity violates the primary key.
unfoldable insert_row : Option Text → Text → Row → Table → Stored Table
insert_row fault id r rows =
    if contains_key id rows
    then err (storage (text "UNIQUE constraint failed: sessions.session_id"))
    else exec fault (insert id r rows)

-- `insert_session_impl`. The lists that it writes are those of the new session.
unfoldable pub insert_session :
    Codecs → Option Text → Text → ActiveWindow → Timestamp → Bool → Table → Stored Table
unfolding new_session timelines opened_row insert_row
insert_session c fault id w opened_at reset rows =
    let s = new_session id w reset in
    timelines c s >>= λ t. insert_row fault id (opened_row s w t opened_at) rows

unfoldable pub is_expired : Timestamp → Row → Bool
is_expired cutoff r = elim r.closed_at [ none ↦ false | some t ↦ ltb t cutoff ]

-- A `DELETE` of the rows that pass a test.
unfoldable pub delete_where : (Text × Row → Bool) → Table → Table
delete_where p = retain (λ e. not (p e))

unfoldable pub delete_open_row : Text → Table → Table
unfolding delete_where is_open
delete_open_row id = delete_where (λ e. text_eq e.0 id && is_open e.1)

-- The rows that a pruning leaves, and how many it has deleted.
unfoldable pub prune_closed : Faults → Configuration → Timestamp → Table → Stored (ℕ × Table)
unfolding is_expired delete_where
prune_closed faults config now rows = elim config.retention_days [
  | none ↦ ok (0, rows)
  | some days ↦
      let kept = delete_where (λ e. is_expired (now - days * 86400) e.1) rows in
      exec (faults Statement.prune) (length rows - length kept, kept)
]
