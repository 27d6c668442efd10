-- ===== src/Tests/Database.antt =====
-- The history and the configuration (portus-window/src/database.rs and its service).
use portus_window.Base.{
  sort_desc, contains, map, sym, ok_injective, ◌++◌, text_eq, text_lt, decimal, parse_u32, ℕ, ◌≤◌,
  ◌≡◌, refl, true, false, none, some, List, [], ◌∷◌, length, take, retain, Text, text, Result, ok,
  err,
}
use portus_window.Base.OrdMap.{contains_key, insert, get, text_key}
use portus_window.Protocol.Limits.{max_history_result_bytes}
use portus_window.Protocol.Windows.{ActiveWindow, CloseReason, set_history_enabled}
use portus_window.Protocol.Frame.{Json}
use portus_window.Protocol.History.{HistoricalWindow, HistoryResult}
use portus_window.Window.Registry.{web_window}
use portus_window.Database.Rows.{
  parse_source_kind, parse_content_kind, parse_close_reason, Row, Table, Codecs, Faults, Timestamp,
}
use portus_window.Database.Sessions.{
  insert_session, update_session, observe, prune_closed, is_open, timelines, Timelines, new_session,
  closed_row, opened_row,
}
use portus_window.Database.Config.{validate_config_action, initialize_config, load_config}
use portus_window.Database.Worker.Closed.{close_session-closes}
use portus_window.Database.Worker.{same_flag, close_session, DbWorker, initialize}
use portus_window.Database.Agreement.{Agree}
use portus_window.Database.History.{
  max_history_scan_rows, closed_rows, is_wanted, lowered, history, raw_to_historical,
}
use portus_window.Database.History.Newest.{AreNewest}
use portus_window.Database.History.Pages.{IsCut, read_all, total_bytes, history-IsPage}
use portus_window.Database.History.RoundTrip.{raw_to_historical-closed_row}
use portus_window.Database.Commands.{
  Arrival, DbCommand, opens, syncs, clears, configures, run, react,
}
use portus_window.Database.Commands.Reach.{run-initialize-IsSynced}
use portus_window.Database.Worker.Started.{initialize-IsSynced}
use portus_window.Database.Commands.Reach.{run-IsSynced}
use portus_window.Database.Commands.Disabled.{IsPart, react-IsPart}
use portus_window.Database.Commands.Restart.{IsRetained, IsRestored, initialize-run-restores}

abbrev id_a : Text
id_a = text "a"

abbrev page : ActiveWindow
page = web_window id_a (text "https://a.example") none none

-- A format of lists of at most one URL.
abbrev write_urls : List Text → Result Text Text
write_urls [] = ok []
write_urls (u ∷ []) = ok (1 ∷ u)
write_urls (u ∷ v ∷ urls) = err (text "too many")

abbrev read_urls : Text → Result Text (List Text)
read_urls [] = ok []
read_urls (n ∷ u) = ok (u ∷ [])

abbrev codecs : Codecs
codecs = record {
  urls = record { to_string = write_urls; from_str = read_urls };
  workspaces = record { to_string = ok; from_str = ok };
  format = λ t. ok (t ∷ []);
}

-- The entries in JSON are their titles.
abbrev entry_json : Json HistoricalWindow
entry_json = record { to_vec = λ h. ok h.title; from_slice = λ b. err (text "none") }

abbrev lower : Text → Text
lower t = t

abbrev no_faults : Faults
no_faults s = none

-- What a host that was terminated has left.
abbrev left_behind : Table
left_behind =
    (
      text "old",
      record {
        window_session_id = text "z";
        source_kind = text "web";
        content_kind = text "web";
        requested_source = text "https://z.example";
        title = text "Z";
        rendered_url = none;
        final_url = none;
        url_history_json = [];
        url_history_truncated = 0;
        description = none;
        workspace = none;
        is_on_all_workspaces = 0;
        workspace_history_json = [];
        workspace_history_truncated = 0;
        opened_at = 3000000;
        closed_at = none;
        close_reason = none;
      },
    )
    ∷ []

abbrev nowhere : DbWorker
nowhere = record {
  sessions = [];
  settings = [];
  config = record { history_enabled = false; retention_days = none };
  active_sessions = [];
}

abbrev or_nowhere {ℓ} : {E : Type ℓ} → Result E DbWorker → DbWorker
or_nowhere (ok w) = w
or_nowhere (err e) = nowhere

abbrev started : DbWorker
started = or_nowhere (initialize codecs no_faults 4000000 left_behind [])

abbrev arrival : DbCommand → Timestamp → Arrival
arrival command now = record {
  command = command;
  now = now;
  uuids = λ n. b'u' ∷ n ∷ [];
  faults = no_faults;
}

abbrev one_open : List Arrival
one_open = arrival (opens page false) 5000000 ∷ arrival (syncs page) 5000001 ∷ []

run-initialize-IsSynced_example :
    let v = run codecs lower entry_json one_open started in
    Agree v.sessions v.active_sessions
    × (load_config v.settings ≡ ok v.config)
    × (v.config.history_enabled ≡ false
        → (k : Text) (r : Row) → get k v.sessions ≡ some r
        → is_open r ≡ false)
unfolding initialize load_config get initialize_config contains_key insert text_eq text_lt decimal
    parse_u32 prune_closed
run-initialize-IsSynced_example =
    run-initialize-IsSynced codecs lower entry_json no_faults 4000000 left_behind [] started
      one_open (tt, tt) (tt, (tt, tt)) refl

initialize-run-restores_example :
    let v = run codecs lower entry_json one_open started in
    let w = or_nowhere (initialize codecs no_faults 6000000 v.sessions v.settings) in
    (w.config ≡ v.config)
    × ((k : Text) (r : Row)
        → get k v.sessions ≡ some r
        → IsRetained v.config 6000000 r
        → IsRestored 6000000 r (get k w.sessions))
unfolding initialize run load_config get initialize_config contains_key insert text_eq text_lt
    decimal parse_u32 prune_closed insert_session web_window retain is_open update_session observe
initialize-run-restores_example =
    let v = run codecs lower entry_json one_open started in
    initialize-run-restores codecs lower entry_json no_faults 4000000 left_behind [] started
      one_open no_faults 6000000
      (or_nowhere (initialize codecs no_faults 6000000 v.sessions v.settings)) (tt, tt)
      (tt, (tt, tt)) refl refl

abbrev closed_page : Text × Row
closed_page = (
  text "u",
  record {
    window_session_id = text "w";
    source_kind = text "web";
    content_kind = text "web";
    requested_source = text "https://z.example";
    title = text "Z";
    rendered_url = none;
    final_url = none;
    url_history_json = [];
    url_history_truncated = 0;
    description = none;
    workspace = none;
    is_on_all_workspaces = 0;
    workspace_history_json = [];
    workspace_history_truncated = 0;
    opened_at = 5000000;
    closed_at = some 5000009;
    close_reason = some (text "explicit");
  },
)

-- One session is closed, and one is open.
abbrev kept_two : DbWorker
kept_two = record {
  sessions = left_behind ++ closed_page ∷ [];
  settings = [];
  config = record { history_enabled = true; retention_days = none };
  active_sessions = [];
}

abbrev no_result : HistoryResult
no_result = record { entries = []; truncated = true }

abbrev or_none {ℓ} : {E : Type ℓ} → Result E HistoryResult → HistoryResult
or_none (ok r) = r
or_none (err e) = no_result

abbrev read_back : Codecs
read_back = record codecs { urls = record { to_string = write_urls; from_str = λ t. ok [] } }

history-IsPage_example :
    let q = some (text "z.e") in
    let r = or_none (history read_back lower entry_json no_faults q kept_two) in
    AreNewest kept_two.sessions (closed_rows kept_two.sessions)
    × (n : ℕ) × (all : List HistoricalWindow) × (read_all read_back lower entry_json
          (take n (closed_rows kept_two.sessions))
        ≡ ok all)
    × (r.entries
        ≡ retain (is_wanted read_back lower entry_json (lowered read_back lower entry_json q)) all)
    × (r.truncated ≡ false → length (closed_rows kept_two.sessions) ≤ n)
    × (r.truncated ≡ true
        → IsCut read_back lower entry_json
            (lowered read_back lower entry_json q)
            0
            0
            n
            (closed_rows kept_two.sessions)
            r.entries)
    × (n ≤ max_history_scan_rows)
    × (total_bytes read_back lower entry_json r.entries ≤ max_history_result_bytes)
unfolding history sort_desc retain is_open raw_to_historical parse_source_kind text_eq
    parse_content_kind parse_close_reason is_wanted contains
history-IsPage_example =
    let q = some (text "z.e") in
    history-IsPage read_back lower entry_json no_faults q kept_two
      (or_none (history read_back lower entry_json no_faults q kept_two)) refl

history_run :
    map {B = Text × CloseReason}
      (λ h. (h.historical_id, h.close_reason))
      (or_none (history read_back lower entry_json no_faults (some (text "z.e")) kept_two)).entries
    ≡ (text "u", CloseReason.explicit) ∷ []
unfolding history sort_desc retain is_open raw_to_historical parse_source_kind text_eq
    parse_content_kind parse_close_reason is_wanted contains
history_run = refl

written_url : (a : List Text) (t : Text) → write_urls a ≡ ok t → read_urls t ≡ ok a
written_url [] t h = rw (sym (ok_injective h)) refl
written_url (u ∷ []) t h = rw (sym (ok_injective h)) refl
written_url (u ∷ v ∷ urls) t h = absurd cc

raw_to_historical-closed_row_example :
    raw_to_historical codecs (
      text "u",
      closed_row
          (new_session (text "u") page true)
          page
          CloseReason.destroyed
          900
          (record { urls_json = 1 ∷ text "https://a.example"; workspaces_json = [] })
          (opened_row
            (new_session (text "u") page true)
            page
            (record { urls_json = []; workspaces_json = [] })
            800),
    )
    ≡ ok (record {
      historical_id = text "u";
      window_session_id = page.window_session_id;
      source_kind = page.source_kind;
      content_kind = page.content_kind;
      requested_source = page.requested_source;
      title = page.title;
      rendered_url = page.rendered_url;
      final_url = page.current_url;
      url_history = (new_session (text "u") page true).url_history;
      url_history_truncated = (new_session (text "u") page true).url_history_truncated;
      description = page.description;
      workspace = page.workspace;
      is_on_all_workspaces = page.is_on_all_workspaces;
      workspace_history = (new_session (text "u") page true).workspace_history;
      workspace_history_truncated = (new_session (text "u") page true).workspace_history_truncated;
      opened_at = 800 ∷ [];
      closed_at = 900 ∷ [];
      close_reason = CloseReason.destroyed;
    })
unfolding new_session web_window timelines
raw_to_historical-closed_row_example =
    raw_to_historical-closed_row codecs (new_session (text "u") page true) page
      (record { urls_json = []; workspaces_json = [] }) 800 (new_session (text "u") page true) page
      CloseReason.destroyed 900
      (record { urls_json = 1 ∷ text "https://a.example"; workspaces_json = [] }) (800 ∷ [])
      (900 ∷ []) written_url (λ a t e. sym e) refl refl refl

react-IsPart_example :
    let w =
      run codecs lower entry_json
        (arrival (configures (set_history_enabled false) []) 7000000 ∷ [])
        started in
    IsPart w.sessions (react codecs lower entry_json clears (arrival clears 7000001) w).1.sessions
unfolding initialize run load_config get initialize_config contains_key insert text_eq text_lt
    decimal parse_u32 prune_closed validate_config_action same_flag
react-IsPart_example =
    let arrivals = arrival (configures (set_history_enabled false) []) 7000000 ∷ [] in
    let w = run codecs lower entry_json arrivals started in
    react-IsPart codecs lower entry_json clears (arrival clears 7000001) w
      (run-IsSynced codecs lower entry_json arrivals started ((tt, tt))
        (initialize-IsSynced codecs no_faults 4000000 left_behind [] started (tt, tt) refl))
      refl refl

close_session-closes_example :
    let w = run codecs lower entry_json (arrival (opens page false) 5000000 ∷ []) started in
    let s = new_session (b'u' ∷ 0 ∷ []) page false in
    let t : Timelines = record { urls_json = 1 ∷ text "https://a.example"; workspaces_json = [] } in
    let closing = close_session codecs no_faults 5000009 page CloseReason.explicit w in
    (r : Row) × (closing.0 ≡ ok tt)
    × (get s.session_id w.sessions ≡ some r)
    × (is_open r ≡ true)
    × (get s.session_id closing.1.sessions
        ≡ some (closed_row (observe page s) page CloseReason.explicit 5000009 t r))
    × (get page.window_session_id closing.1.active_sessions ≡ none)
unfolding initialize run load_config get initialize_config contains_key insert text_eq text_lt
    decimal parse_u32 prune_closed insert_session web_window retain new_session timelines observe
    is_open
close_session-closes_example =
    let arrivals = arrival (opens page false) 5000000 ∷ [] in
    let w = run codecs lower entry_json arrivals started in
    close_session-closes codecs no_faults 5000009 page CloseReason.explicit w
      (new_session (b'u' ∷ 0 ∷ []) page false)
      (record { urls_json = 1 ∷ text "https://a.example"; workspaces_json = [] })
      (run-IsSynced codecs lower entry_json arrivals started (tt, tt)
        (initialize-IsSynced codecs no_faults 4000000 left_behind [] started (tt, tt) refl))
      (λ s. refl) refl refl
