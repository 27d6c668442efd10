-- ===== src/Database/History.antt =====
-- The query of closed sessions (portus-window/src/database/service.rs, and `raw_to_historical` and
-- `history_matches` of portus-window/src/database.rs).
pub mod Newest
pub mod Pages
pub mod RoundTrip
use mathlib.Core.List.{reverse}
use portus_window.Base.{
  ℕ, suc, ◌+◌, ◌*◌, Bool, true, false, not, ◌||◌, Option, none, some, List, [], ◌∷◌, if◌then◌else◌,
  ◌==◌, ltb, length, take, retain, sort_desc, contains, Text, text, Result, ok, err, ◌>>=◌,
}
use portus_window.Protocol.Limits.{max_history_result_bytes}
use portus_window.Protocol.Frame.{Json}
use portus_window.Protocol.History.{HistoricalWindow, HistoryResult}
use portus_window.Database.Rows.{
  PersistenceError, storage, Stored, Row, Table, Codecs, Faults, Statement, exec, stored,
  parse_source_kind, parse_content_kind, parse_close_reason,
}
use portus_window.Database.Sessions.{is_open}
use portus_window.Database.Worker.{DbWorker, attempt}

abbrev pub max_history_scan_rows : ℕ
max_history_scan_rows = 10000

-- A column that the rows of the query have, since these are closed.
unfoldable required {ℓ} : {A : Type ℓ} → Option A → Result PersistenceError A
required none = err (storage (text "Invalid column type Null"))
required (some a) = ok a

unfoldable pub raw_to_historical : Codecs → Text × Row → Stored HistoricalWindow
unfolding required
raw_to_historical c e =
    let r = e.1 in
    required r.closed_at >>= λ closed_at. required r.close_reason >>= λ reason.
    parse_source_kind r.source_kind >>= λ source. parse_content_kind r.content_kind >>= λ content.
    stored (c.urls.from_str r.url_history_json) >>= λ urls.
    stored (c.workspaces.from_str r.workspace_history_json) >>= λ workspaces.
    stored (c.format r.opened_at) >>= λ opened. stored (c.format closed_at) >>= λ closed.
    parse_close_reason reason >>= λ close_reason. ok (record {
      historical_id = e.0;
      window_session_id = r.window_session_id;
      source_kind = source;
      content_kind = content;
      requested_source = r.requested_source;
      title = r.title;
      rendered_url = r.rendered_url;
      final_url = r.final_url;
      url_history = urls;
      url_history_truncated = not (r.url_history_truncated == 0);
      description = r.description;
      workspace = r.workspace;
      is_on_all_workspaces = not (r.is_on_all_workspaces == 0);
      workspace_history = workspaces;
      workspace_history_truncated = not (r.workspace_history_truncated == 0);
      opened_at = opened;
      closed_at = closed;
      close_reason = close_reason;
    })

-- When a row was closed, for the order of the query.
unfoldable pub closing_time : Text × Row → ℕ
closing_time e = elim e.1.closed_at [ none ↦ 0 | some t ↦ t ]

-- `WHERE closed_at IS NOT NULL ORDER BY closed_at DESC, session_id DESC`: the table stands in the
-- order of `session_id`, and the sort is stable.
unfoldable pub closed_rows : Table → List (Text × Row)
unfolding closing_time
closed_rows rows = sort_desc closing_time (reverse (retain (λ e. not (is_open e.1)) rows))

-- `lower` is `str::to_lowercase`.
module _ (c : Codecs) (lower : Text → Text) (json : Json HistoricalWindow) where
  unfoldable contains_some : Option Text → Text → Bool
  contains_some none query = false
  contains_some (some value) query = contains (lower value) query

  unfoldable history_matches : HistoricalWindow → Text → Bool
  unfolding contains_some
  history_matches entry query =
      contains (lower entry.window_session_id) query
      || (contains (lower entry.title) query
          || (contains (lower entry.requested_source) query
              || (contains_some entry.description query || contains_some entry.final_url query)))

  unfoldable pub is_wanted : Option Text → HistoricalWindow → Bool
  unfolding history_matches
  is_wanted none entry = true
  is_wanted (some query) entry = history_matches entry query

  -- An entry in front of what the rest of the loop finds.
  abbrev pushed : HistoricalWindow → Stored HistoryResult → Stored HistoryResult
  pushed entry (ok r) = ok (record r { entries = entry ∷ r.entries })
  pushed entry (err e) = err e

  module _ (faults : Faults) (query : Option Text) where
    -- What becomes of an entry: `skipped` and `added` are the rest of the loop behind `continue`
    -- and behind a push of that many bytes.
    unfoldable consider :
        ℕ
        → HistoricalWindow
        → Stored HistoryResult
        → (ℕ → Stored HistoryResult)
        → Stored HistoryResult
    consider bytes entry skipped added = elim (is_wanted query entry) [
      | false ↦ skipped
      | true ↦ stored (json.to_vec entry) >>= λ written.
          let n = length written in
          if ltb max_history_result_bytes (bytes + n)
          then ok (record { entries = []; truncated = true })
          else pushed entry (added n)
    ]

    -- One round of the loop.
    unfoldable round :
        ℕ
        → ℕ
        → Text × Row
        → Stored HistoryResult
        → (ℕ → Stored HistoryResult)
        → Stored HistoryResult
    unfolding consider
    round scanned bytes raw skipped added =
        if ltb max_history_scan_rows (scanned + 1)
        then ok (record { entries = []; truncated = true })
        else exec (faults (Statement.fetch scanned)) raw >>= λ row.
            raw_to_historical c row >>= λ entry. consider bytes entry skipped added

    -- The loop over the rows, with the number of those that were scanned and the bytes so far.
    unfoldable scan : ℕ → ℕ → List (Text × Row) → Stored HistoryResult
    unfolding round
    scan scanned bytes [] = ok (record { entries = []; truncated = false })
    scan scanned bytes (raw ∷ rows) =
        round scanned bytes raw (scan (scanned + 1) bytes rows)
          (λ n. scan (scanned + 1) (bytes + n) rows)

  unfoldable pub lowered : Option Text → Option Text
  lowered none = none
  lowered (some query) = some (lower query)

  unfoldable pub history : Faults → Option Text → DbWorker → Stored HistoryResult
  unfolding scan lowered closed_rows
  history faults query w = attempt (faults Statement.prepare) >>= λ _.
      scan faults (lowered query) 0 0 (take (max_history_scan_rows + 1) (closed_rows w.sessions))
