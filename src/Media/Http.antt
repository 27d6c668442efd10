-- ===== src/Media/Http.antt =====
-- The loopback server that serves admitted files on Linux (`handle_http_connection` and
-- `write_http_response`, portus-window/src/media.rs). What a client sends is its first line, or none
-- if it cannot be read, and the lines that the reader yields behind it, up to an error.
pub mod Capability
use portus_window.Base.{
  ℕ, ◌≡◌, Bool, true, false, not, ◌||◌, Option, none, some, List, [], ◌∷◌, if◌then◌else◌, ◌==◌,
  ◌++◌, Text, text, text_eq, is_empty, is_whitespace, strip_prefix, trim, decimal, length,
}
use portus_window.Base.OrdMap.{text_key, get}
use portus_window.Protocol.Frame.{Bytes}
use portus_window.Protocol.Windows.{ContentKind}
use portus_window.Media.Serve.{
  AdmittedMedia, Method, MediaRequest, MediaResponse, is_head, serve_view, serve_content,
}
use portus_window.Media.Registry.{
  MediaRegistry, push_char, split_char, trim_start_char, parse_parts,
}

-- What `write_http_response` is called with.
pub record HttpResponse : Type 0 where
  pub status : ℕ
  pub reason : Text
  pub content_type : Text
  pub body : Bytes
  pub head_only : Bool
  pub content_range : Option Text

abbrev crlf : Text
crlf = 13 ∷ 10 ∷ []

abbrev range_header : Option Text → Text
range_header none = []
range_header (some value) = text "Content-Range: " ++ (value ++ crlf)

-- The bytes on the stream. The headers are ASCII.
unfoldable pub write_http_response : HttpResponse → Bytes
write_http_response h =
    text "HTTP/1.1 "
    ++ (decimal h.status
        ++ (text " "
            ++ (h.reason
                ++ (crlf
                    ++ (text "Content-Type: "
                        ++ (h.content_type
                            ++ (crlf
                                ++ (text "Content-Length: "
                                    ++ (decimal (length h.body)
                                        ++ (crlf
                                            ++ (text "Accept-Ranges: bytes"
                                                ++ (crlf
                                                    ++ (text "Cache-Control: no-store"
                                                        ++ (crlf
                                                            ++ (text
                                                            "X-Content-Type-Options: nosniff"
                                                            ++ (crlf
                                                            ++ (range_header h.content_range
                                                            ++ (text "Connection: close"
                                                            ++ (crlf
                                                            ++ (crlf
                                                            ++ (if h.head_only
                                                            then []
                                                            else h.body)))))))))))))))))))))

-- The words of a line.
unfoldable pub split_whitespace : Text → List Text
unfolding is_whitespace
split_whitespace [] = []
split_whitespace (c ∷ t) =
    let rest = split_whitespace t in
    if is_whitespace c then rest else elim t [
      | [] ↦ (c ∷ []) ∷ rest
      | d ∷ u ↦ if is_whitespace d then (c ∷ []) ∷ rest else push_char c rest
    ]

unfoldable pub method_of : Text → Option Method
method_of word =
    if text_eq word (text "GET")
    then some Method.get
    else if text_eq word (text "HEAD")
    then some Method.head
    else none

-- The token and the route of a path that has no other part.
unfoldable pub token_and_route : Text → Option (Text × Text)
unfolding parse_parts split_char trim_start_char
token_and_route path = elim (parse_parts (split_char b'/' (trim_start_char b'/' path))) [
  | none ↦ none
  | some (token, route) ↦
      if text_eq route (text "view") || text_eq route (text "content")
      then some (token, route)
      else none
]

unfoldable pub header_range : Text → Option Text → Option Text
unfolding strip_prefix trim
header_range line range = elim (strip_prefix line (text "Range:")) [
  | some value ↦ some (trim value)
  | none ↦ elim (strip_prefix line (text "range:")) [
    | some value ↦ some (trim value)
    | none ↦ range
  ]
]

-- The last range of the headers, which an empty line ends.
unfoldable pub read_headers : List Text → Option Text → Option Text
unfolding header_range
read_headers [] range = range
read_headers (line ∷ lines) range =
    let rest = read_headers lines (header_range line range) in if is_empty line then range else rest

unfoldable pub reason_of : ℕ → Text
reason_of status =
    if status == 200
    then text "OK"
    else if status == 206
    then text "Partial Content"
    else if status == 416
    then text "Range Not Satisfiable"
    else if status == 500
    then text "Internal Server Error"
    else text "Error"

abbrev content_type_of : Option Text → Text
content_type_of none = text "application/octet-stream"
content_type_of (some mime) = mime

abbrev pub http_not_allowed : HttpResponse
http_not_allowed = record {
  status = 405;
  reason = text "Method Not Allowed";
  content_type = text "text/plain";
  body = text "method not allowed";
  head_only = false;
  content_range = none;
}

abbrev pub http_not_found : Bool → HttpResponse
http_not_found head_only = record {
  status = 404;
  reason = text "Not Found";
  content_type = text "text/plain";
  body = text "not found";
  head_only = head_only;
  content_range = none;
}

abbrev as_http : Method → MediaResponse → HttpResponse
as_http method response = record {
  status = response.status;
  reason = reason_of response.status;
  content_type = content_type_of response.content_type;
  body = response.body;
  head_only = is_head method;
  content_range = response.content_range;
}

-- The file of a token, by one of its two routes.
unfoldable pub http_route :
    (ContentKind → Bytes) → Text → AdmittedMedia → Text → MediaRequest → HttpResponse
unfolding reason_of is_head serve_view serve_content
http_route html failed m route request = as_http request.method (
    if text_eq route (text "view")
    then serve_view html m request.method
    else serve_content failed m request)

-- `build` is what the builder of http makes of a token, a route and a range: nothing, if it refuses
-- one of these, or the range as the request's header gives it.
module _ (html : ContentKind → Bytes) (failed : Text)
    (build : Text → Text → Option Text → Option (Option Text)) where
  unfoldable pub http_admitted :
      Method → Text → Text → List Text → Option AdmittedMedia → Option HttpResponse
  unfolding read_headers http_route is_head
  http_admitted method token route lines none = some (http_not_found (is_head method))
  http_admitted method token route lines (some m) =
      elim (build token route (read_headers lines none)) [
        | none ↦ none
        | some range ↦
            some (http_route html failed m route (record { method = method; range = range }))
      ]

  unfoldable pub http_path : MediaRegistry → Method → Text → List Text → Option HttpResponse
  unfolding http_admitted token_and_route is_head
  http_path r method path lines = elim (token_and_route path) [
    | none ↦ some (http_not_found (is_head method))
    | some (token, route) ↦ http_admitted method token route lines (get token r.by_token)
  ]

  unfoldable pub http_words : MediaRegistry → List Text → List Text → Option HttpResponse
  unfolding http_path method_of
  http_words r (word ∷ path ∷ rest) lines = elim (method_of word) [
    | none ↦ some http_not_allowed
    | some method ↦ http_path r method path lines
  ]
  http_words r _ lines = none

  -- The response that is written, or none if the connection is closed without one.
  unfoldable pub handle_http_connection :
      MediaRegistry → Option Text → List Text → Option HttpResponse
  unfolding http_words split_whitespace
  handle_http_connection r none lines = none
  handle_http_connection r (some line) lines = http_words r (split_whitespace line) lines
