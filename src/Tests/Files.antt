-- ===== src/Tests/Files.antt =====
-- Local media and workspaces (portus-window/src/media.rs and portus-window/src/workspace.rs).
use mathlib.Core.Option
use portus_window.Base.{
  is_whitespace, retain, Option, map, ℕ, to_ascii_lower, text_eq, text_lt, strip_prefix, contains,
  ◌≤◌, ◌<◌, ◌≡◌, ◌⊎◌, refl, true, none, some, List, [], ◌∷◌, arith, Text, text, take, trim,
}
use portus_window.Base.OrdMap.{contains_key, insert, remove, text_key, get}
use portus_window.Protocol.Frame.{Bytes}
use portus_window.Protocol.Windows.{ContentKind, WorkspaceTarget}
use portus_window.Media.Ranges.{cap_range, max_media_response_bytes, parse_range}
use portus_window.Media.Serve.{
  AdmittedMediaInfo, AdmittedMedia, Method, MediaRequest, plain_response, serve_content,
}
use portus_window.Media.Http.{split_whitespace, handle_http_connection}
use portus_window.Media.Serve.Contents.{IsPart, serve_content-IsPart, serve_content-no_range}
use portus_window.Media.Registry.{
  MediaRegistry, Change, admits, revokes, change_all, handle_protocol, not_found, revoke_window,
}
use portus_window.Media.Registry.Tokens.{IsPaired}
use portus_window.Media.Registry.Access.{no_media, change_all-IsPaired, revoke_window-refuses}
use portus_window.Workspaces.{WorkspaceInfo, WorkspaceCatalog, resolve}
use portus_window.Workspaces.Resolved.{IsNamed, resolve-IsNamed}

abbrev info : AdmittedMediaInfo
info = record {
  token = text "t1";
  requested_source = text "/a.png";
  content_kind = ContentKind.image;
  mime = text "image/png";
  title = text "a.png";
  bytes = 5;
}

abbrev picture : AdmittedMedia
picture = record { window_session_id = text "wsess_a"; info = info; file = 1 ∷ 2 ∷ 3 ∷ 4 ∷ 5 ∷ [] }

abbrev broken : Text
broken = text "broken"

serve_content-IsPart_example :
    IsPart picture (some (text "bytes=1-2")) (
      serve_content broken picture
        (record { method = Method.get; range = some (text "bytes=1-2") }))
serve_content-IsPart_example =
    serve_content-IsPart broken picture (some (text "bytes=1-2")) (omega arith) (omega arith) refl

-- The last two bytes, and the middle ones.
parse_range_suffix : parse_range (text "bytes=-2") 5 ≡ some (3, 4)
unfolding parse_range strip_prefix contains
parse_range_suffix = refl

serve_content_middle :
    (serve_content broken picture
      (record { method = Method.get; range = some (text "bytes=1-2") })).body
    ≡ 2 ∷ 3 ∷ []
unfolding serve_content parse_range strip_prefix contains cap_range
serve_content_middle = refl

serve_content-no_range_example :
    let r = serve_content broken picture (record { method = Method.get; range = none }) in
    (picture.info.bytes ≤ max_media_response_bytes → (r.status ≡ 200) × (r.body ≡ picture.file))
    × (max_media_response_bytes < picture.info.bytes
        → (r.status ≡ 206) × (r.body ≡ take max_media_response_bytes picture.file))
serve_content-no_range_example =
    serve_content-no_range broken picture (omega arith) (omega arith) refl

-- Two windows with a file each; one is closed, and another takes its place.
abbrev changes : List Change
changes =
    admits (text "wsess_a") info (1 ∷ []) (text "t1" ∷ [])
    ∷ admits (text "wsess_b") info (2 ∷ []) (text "t1" ∷ text "t2" ∷ [])
    ∷ revokes (text "wsess_a")
    ∷ []

change_all-IsPaired_example : IsPaired (change_all no_media changes)
change_all-IsPaired_example = change_all-IsPaired changes

abbrev left : MediaRegistry
left = change_all no_media changes

left-IsPaired : IsPaired left
left-IsPaired = change_all-IsPaired changes

abbrev no_page : ContentKind → Bytes
no_page kind = []

abbrev asking : MediaRequest
asking = record { method = Method.get; range = none }

-- The builder of http takes everything.
abbrev build_all : Text → Text → Option Text → Option (Option Text)
build_all token route range = some range

abbrev request_line : Text
request_line = text "GET /t2/content HTTP/1.1"

abbrev request_headers : List Text
request_headers = text "Range: bytes=0-0" ∷ [] ∷ []

-- The file of the window that is open is served, and that of the one that is closed is not.
handle_http_connection_run :
    map {B = Option ℕ}
      (λ line.
        Option.map
          (λ h. h.status)
          (handle_http_connection no_page broken build_all left (some line) request_headers))
      (request_line
        ∷ text "GET /t1/content HTTP/1.1"
        ∷ text "POST /t2/view HTTP/1.1"
        ∷ text "GET"
        ∷ [])
    ≡ some 206 ∷ some 404 ∷ some 405 ∷ none ∷ []
unfolding handle_http_connection get change_all contains_key insert text_eq text_lt remove
    split_whitespace parse_range contains cap_range
handle_http_connection_run = refl

revoke_window-refuses_example :
    let response =
      handle_protocol no_page broken
        (revoke_window left (text "wsess_b")).1
        (text "wsess_b")
        (text "/t2/content")
        asking in
    (response ≡ not_found) ⊎ (response ≡ plain_response 403 (text "forbidden"))
revoke_window-refuses_example =
    revoke_window-refuses no_page broken left (text "wsess_b") (text "/t2/content") asking
      left-IsPaired

-- Another window that has the token is refused.
handle_protocol_foreign :
    (handle_protocol no_page broken left (text "wsess_c") (text "/t2/content") asking).status ≡ 403
unfolding handle_protocol get change_all contains_key insert text_eq text_lt remove
handle_protocol_foreign = refl

abbrev desk : WorkspaceInfo
desk = record { index = 3; name = text "Desk"; is_current = true }

abbrev catalog : WorkspaceCatalog
catalog = record { current = 3; workspaces = desk ∷ [] }

resolve-IsNamed_example : IsNamed catalog (WorkspaceTarget.name (text " DESK ")) 3
unfolding resolve trim is_whitespace retain text_eq to_ascii_lower
resolve-IsNamed_example = resolve-IsNamed catalog (WorkspaceTarget.name (text " DESK ")) 3 refl
