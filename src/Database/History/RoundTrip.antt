-- ===== src/Database/History/RoundTrip.antt =====
-- What the row of a session is written from is what the history reads (portus-window/src/database.rs).
use portus_window.Base.{
  ◌≡◌, refl, ap, ◌∙◌, Bool, true, false, not, ◌==◌, Result, ok, err, ◌>>=◌, bind-ok, ok_injective,
  Text,
}
use portus_window.Protocol.Windows.{ActiveWindow, CloseReason}
use portus_window.Database.Rows.{Codecs, TextJson, Timestamp, stored, bool_int}
use portus_window.Database.Rows.Columns.{
  parse_source_kind-source_kind_str, parse_content_kind-content_kind_str,
  parse_close_reason-close_reason_str,
}
use portus_window.Database.Sessions.{
  ActiveSession, Timelines, timelines, opened_row, closed_row, updated,
}
use portus_window.Database.History.{raw_to_historical, required}

-- The documented behaviour of serde_json.
abbrev ReadsBack : {A : Type 0} → TextJson A → Type 0
ReadsBack {A} j = (a : A) (t : Text) → j.to_string a ≡ ok t → j.from_str t ≡ ok a

stored-inverse : {A : Type 0} (x : Result Text A) (a : A) → stored x ≡ ok a → x ≡ ok a
stored-inverse (ok b) a q = cc
stored-inverse (err m) a q = absurd cc

bool_int-flag : (b : Bool) → not (bool_int b == 0) ≡ b
bool_int-flag true = refl
bool_int-flag false = refl

module _ (c : Codecs) where
  timelines-read :
      ReadsBack c.urls
      → ReadsBack c.workspaces
      → (s : ActiveSession) (t : Timelines) → timelines c s ≡ ok t
      → (c.urls.from_str t.urls_json ≡ ok s.url_history)
        × (c.workspaces.from_str t.workspaces_json ≡ ok s.workspace_history)
  unfolding timelines
  timelines-read urls spaces s t h =
      let (u, e, h1) = bind-ok (stored (c.urls.to_string s.url_history)) _ _ h in
      let (v, d, h2) = bind-ok (stored (c.workspaces.to_string s.workspace_history)) _ _ h1 in
      let q = ok_injective h2 in
      (
        urls s.url_history t.urls_json
            (stored-inverse _ u e ∙ written u t.urls_json (ap (λ (x : Timelines). x.urls_json) q)),
        spaces s.workspace_history t.workspaces_json (
            stored-inverse _ v d
            ∙ written v t.workspaces_json (ap (λ (x : Timelines). x.workspaces_json) q)),
      )
    where
      written : (u v : Text) → u ≡ v → ◌≡◌ {A = Result Text Text} (ok u) (ok v)
      written u v e = ap ok e

  -- A session whose row was inserted for one state of its window and closed for another is read as
  -- this: what does not change from the first state, the rest and both timelines from the last.
  -- serde_json reads back the lists that it writes, it has written the timelines, and both times
  -- have a format.
  pub raw_to_historical-closed_row :
      (opening : ActiveSession) (at_open : ActiveWindow) (t0 : Timelines) (opened_at : Timestamp)
      (s : ActiveSession) (w : ActiveWindow) (reason : CloseReason) (now : Timestamp)
      (t : Timelines) (opened closed : Text)
      → ReadsBack c.urls
      → ReadsBack c.workspaces
      → timelines c s ≡ ok t
      → c.format opened_at ≡ ok opened
      → c.format now ≡ ok closed
      → raw_to_historical c
          (s.session_id, closed_row s w reason now t (opened_row opening at_open t0 opened_at))
        ≡ ok (record {
          historical_id = s.session_id;
          window_session_id = at_open.window_session_id;
          source_kind = at_open.source_kind;
          content_kind = at_open.content_kind;
          requested_source = at_open.requested_source;
          title = w.title;
          rendered_url = w.rendered_url;
          final_url = w.current_url;
          url_history = s.url_history;
          url_history_truncated = s.url_history_truncated;
          description = w.description;
          workspace = w.workspace;
          is_on_all_workspaces = w.is_on_all_workspaces;
          workspace_history = s.workspace_history;
          workspace_history_truncated = s.workspace_history_truncated;
          opened_at = opened;
          closed_at = closed;
          close_reason = reason;
        })
  unfolding raw_to_historical required closed_row opened_row updated
  raw_to_historical-closed_row opening at_open t0 opened_at s w reason now t opened closed urls
        spaces written started ended =
      let (u, v) = timelines-read urls spaces s t written in
      let same = λ (b : Bool). bool_int-flag b in
      rw (parse_source_kind-source_kind_str at_open.source_kind, ◌>>=◌)
        (rw (parse_content_kind-content_kind_str at_open.content_kind, ◌>>=◌)
          (rw (u, ◌>>=◌)
            (rw (v, ◌>>=◌)
              (rw (started, ◌>>=◌)
                (rw (ended, ◌>>=◌)
                  (rw (parse_close_reason-close_reason_str reason, ◌>>=◌)
                    (rw
                      (
                        same s.url_history_truncated,
                        same w.is_on_all_workspaces,
                        same s.workspace_history_truncated,
                      )
                      refl)))))))
